-- ===== src/App/Files/Copies.antt =====
-- The files that `copy_recursive` (app/mod.rs) copies.
use magnarr.Prelude.{
  ℕ, zero, suc, ◌<◌, String, ◌≡◌, refl, ◌≢◌, sym, ap, ◌∙◌, subst, arith, Bool-cases, ◌⊎◌, inl, inr,
}
use magnarr.Prelude.{
  List, [], ◌∷◌, ◌++◌, Option, some, ok, Option-cases, str_eq, eq_iff, Any, ok-injective,
}
use magnarr.App.Files.{Node, file, dir, Entries, Components, find, names, lookup, Ran}
use magnarr.App.Files.{create_dir_all, is_dir, read_dir, copy_file, copy_each}
use magnarr.App.Files.{copy_recursive, then_do, listed}
use magnarr.App.Files.Lookup.{Disjoint, Disjoint-append, lookup-create_dir_all}
use magnarr.App.Files.Ends.{
  depth_of, depths, Framed, Ends, AllEnd, copy_recursive-AllEnd, Low, Low-Framed,
}
use magnarr.App.Files.Ends.{Low-directory, Disjoint-entry, Framed-entry}
use mathlib.Core.List.{append_assoc}
use mathlib.Core.Option
use mathlib.Core.Option.{some-injective}
use magnarr.App.Files.Parts.{
  Disjoint-entries, Disjoint-path, Good, Good-injective, append_nil, copy_file-Copies, find-names,
  listed-Good, lookup_append, on_ok-Good, then_do-Good,
}

-- A call that succeeds copies every file below its source, if the source is lower than `fuel`.
abbrev AllCopy : ℕ → (Components → Components → Node → Ran) → Type 0
AllCopy fuel call =
    (src dst : Components) (root root' : Node) (rel : Components) (b : List ℕ)
    → Disjoint src dst
    → depth_of (lookup src root) < fuel
    → Good (call src dst root) root'
    → lookup (src ++ rel) root ≡ some (file b)
    → lookup (dst ++ rel) root' ≡ some (file b)

Good-Framed :
    (dst : Components) (root root' : Node) (run : Ran)
    → Ends dst root run
    → Good run root'
    → Framed dst root root'
Good-Framed dst root root' run end h = subst (Ends dst root) h end

module _ (fuel : ℕ) (call : Components → Components → Node → Ran) (each : AllEnd fuel call)
    (copies : AllCopy fuel call) (src dst : Components) (apart : Disjoint src dst) (n : String)
    (rel : Components) (b : List ℕ) where
  abbrev Held : Node → Type 0
  Held root = lookup (src ++ n ∷ rel) root ≡ some (file b)

  abbrev Copied : Node → Type 0
  Copied root = lookup (dst ++ n ∷ rel) root ≡ some (file b)

  Disjoint-call : (m : String) → Disjoint (src ++ m ∷ []) (dst ++ m ∷ [])
  Disjoint-call m =
      Disjoint-append dst (src ++ m ∷ []) m (Disjoint-entry fuel call each src dst apart m)

  call-Framed :
      (m : String) (root root' : Node)
      → Low fuel call each src dst apart root
      → Good (call (src ++ m ∷ []) (dst ++ m ∷ []) root) root'
      → Framed (dst ++ m ∷ []) root root'
  call-Framed m root root' low h =
      Good-Framed (dst ++ m ∷ []) root root' _
        (each (src ++ m ∷ []) (dst ++ m ∷ []) root (Disjoint-call m) (low m)) h

  -- One call of the loop.
  call-Copied :
      (m : String) (root root' : Node)
      → Low fuel call each src dst apart root
      → Good (call (src ++ m ∷ []) (dst ++ m ∷ []) root) root'
      → Held root
      → (m ≡ n) ⊎ Copied root
      → Copied root'
  call-Copied m root root' low h held before = elim (Bool-cases (str_eq m n)) [
    | inl same ↦
        let e : n ≡ m = sym ((eq_iff m n).0 same) in
        let held' : lookup ((src ++ m ∷ []) ++ rel) root ≡ some (file b) =
          ap (λ p. lookup p root) (append_assoc src (m ∷ []) rel)
          ∙ subst (λ k. lookup (src ++ k ∷ rel) root ≡ some (file b)) e held in
        subst (λ k. lookup (dst ++ k ∷ rel) root' ≡ some (file b)) (sym e)
          (ap (λ p. lookup p root') (sym (append_assoc dst (m ∷ []) rel))
            ∙ copies (src ++ m ∷ []) (dst ++ m ∷ []) root root' rel b (Disjoint-call m) (low m) h
                held')
    | inr other ↦
        let ne : n ≢ m = λ e. ground (arith, eq_iff m n) in
        call-Framed m root root' low h (dst ++ n ∷ rel) (Disjoint-entries dst n m rel ne)
        ∙ still ne before
  ]
    where
      still : n ≢ m → (m ≡ n) ⊎ Copied root → Copied root
      still ne (inl e) = absurd (ne (sym e))
      still ne (inr c) = c

  copy_each-Copied :
      (found : List String) (root root' : Node)
      → Low fuel call each src dst apart root
      → Good (copy_each call src dst found root) root'
      → Held root
      → Any (λ c. c ≡ n) found ⊎ Copied root
      → Copied root'
  unfolding copy_each
  copy_each-Copied [] root root' low h held (inl there) = absurd there
  copy_each-Copied [] root root' low h held (inr c) = subst Copied (Good-injective h) c
  copy_each-Copied (m ∷ found) root root' low h held before =
      let (root1, ran, h1) =
        on_ok-Good (call (src ++ m ∷ []) (dst ++ m ∷ []) root) root' (copy_each call src dst found)
          h in
      let f : Framed dst root root1 =
        Framed-entry fuel call each src dst apart m root root1 (call-Framed m root root1 low ran) in
      copy_each-Copied found root1 root' (Low-Framed fuel call each src dst apart root root1 f low)
        h1 (f (src ++ n ∷ rel) (Disjoint-path (n ∷ rel) src dst apart) ∙ held)
        (next root1 before (call-Copied m root root1 low ran held))
    where
      next :
          (root1 : Node)
          → Any (λ c. c ≡ n) (m ∷ found) ⊎ Copied root
          → ((m ≡ n) ⊎ Copied root → Copied root1)
          → Any (λ c. c ≡ n) found ⊎ Copied root1
      next root1 (inl (inl here)) step = inr (step (inl here))
      next root1 (inl (inr later)) step = inl later
      next root1 (inr c) step = inr (step (inr c))

-- A file holds no path but the empty one.
lookup-file :
    (b' b : List ℕ) (rel : Components)
    → lookup rel (file b') ≡ some (file b)
    → (rel ≡ []) × (file b' ≡ file b)
unfolding lookup
lookup-file b' b [] h = (refl, some-injective (file b') (file b) h)
lookup-file b' b (c ∷ rel) h = cc

-- A path below a directory starts at one of its names.
lookup-names :
    (es : Entries) (n : String) (rel : Components) (b : List ℕ)
    → lookup (n ∷ rel) (dir es) ≡ some (file b)
    → Any (λ c. c ≡ n) (names es)
unfolding lookup Option.bind
lookup-names es n rel b h = elim (Option-cases (find n es)) [
  | inl missing ↦ ground (arith, missing)
  | inr (m, there) ↦ find-names n es there
]

read_dir-names :
    (src : Components) (root : Node) (es : Entries)
    → lookup src root ≡ some (dir es)
    → read_dir src root ≡ ok (names es)
unfolding read_dir
read_dir-names src root es e = rw (e, read_dir)

lookup_below :
    (src : Components) (root m : Node) (rel : Components) {o : Option Node}
    → lookup src root ≡ some m
    → lookup (src ++ rel) root ≡ o
    → lookup rel m ≡ o
unfolding Option.bind
lookup_below src root m rel e h =
    ap (λ x. Option.bind x (lookup rel)) (sym e) ∙ sym (lookup_append src rel root) ∙ h

directory-Copies :
    (fuel : ℕ) (call : Components → Components → Node → Ran)
    → AllEnd fuel call
    → AllCopy fuel call
    → (src dst : Components) (root root' : Node) (rel : Components) (b : List ℕ) (es : Entries)
    → Disjoint src dst
    → depths es < fuel
    → lookup src root ≡ some (dir es)
    → Good
        (then_do
          (create_dir_all dst root)
          root
          λ root1. listed (copy_each call src dst) (read_dir src root1) root1)
        root'
    → lookup (src ++ rel) root ≡ some (file b)
    → lookup (dst ++ rel) root' ≡ some (file b)
unfolding lookup
directory-Copies fuel call each copies src dst root root' [] b es apart low at h held =
    absurd (cc (lookup_below src root (dir es) [] at held))
directory-Copies fuel call each copies src dst root root' (n ∷ rel) b es apart low at h held =
    let (root1, made, h1) = then_do-Good (create_dir_all dst root) root root' _ h in
    let (found, read, h2) =
      listed-Good (copy_each call src dst) (read_dir src root1) root1 root' h1 in
    let f : Framed dst root root1 = λ q d. lookup-create_dir_all dst q root made d.not_below in
    let there = f src apart ∙ at in
    let same : names es ≡ found = ok-injective (sym (read_dir-names src root1 es there) ∙ read) in
    copy_each-Copied fuel call each copies src dst apart n rel b found root1 root'
      (Low-directory fuel call each src dst apart es root1 there low) h2
      (f (src ++ n ∷ rel) (Disjoint-path (n ∷ rel) src dst apart) ∙ held)
      (inl (
        subst (Any (λ c. c ≡ n)) same
          (lookup-names es n rel b (lookup_below src root (dir es) (n ∷ rel) at held))))

leaf-Copies :
    (src dst : Components) (root root' : Node) (rel : Components) (b b' : List ℕ)
    → Disjoint src dst
    → lookup src root ≡ some (file b')
    → Good (copy_file src dst root) root'
    → lookup (src ++ rel) root ≡ some (file b)
    → lookup (dst ++ rel) root' ≡ some (file b)
leaf-Copies src dst root root' rel b b' apart at h held =
    let (empty, same) = lookup-file b' b rel (lookup_below src root (file b') rel at held) in
    subst (λ p. lookup p root' ≡ some (file b)) (sym (append_nil dst) ∙ ap (◌++◌ dst) (sym empty))
      (copy_file-Copies src dst root root' b' apart h at ∙ ap some same)

copy_recursive-AllCopy : (fuel : ℕ) → AllCopy fuel (copy_recursive fuel)
unfolding copy_recursive is_dir Option.bind depths
copy_recursive-AllCopy zero src dst root root' rel b apart low h held = absurd (omega arith)
copy_recursive-AllCopy (suc fuel) src dst root root' rel b apart low h held =
    elim (Option-cases (lookup src root)) [
      | inl missing ↦ absurd (
          cc (sym held ∙ lookup_append src rel root ∙ ap (λ o. Option.bind o (lookup rel)) missing))
      | inr (file b', at) ↦
          leaf-Copies src dst root root' rel b b' apart at (rw (at, is_dir) at h) held
      | inr (dir es, at) ↦
          directory-Copies fuel (copy_recursive fuel) (copy_recursive-AllEnd fuel)
            (copy_recursive-AllCopy fuel) src dst root root' rel b es apart
            (omega (arith, ap depth_of at)) at (rw (at, is_dir) at h) held
    ]

-- A copy that succeeds has copied every file at or below the source to the same place at or below the
-- destination, if neither of the two paths is at or below the other and the fuel exceeds the height
-- of the source.
pub copy_recursive_copies :
    (fuel : ℕ) (src dst : Components) (root root' : Node) (rel : Components) (b : List ℕ)
    → Disjoint src dst
    → depth_of (lookup src root) < fuel
    → copy_recursive fuel src dst root ≡ some (ok tt, root')
    → lookup (src ++ rel) root ≡ some (file b)
    → lookup (dst ++ rel) root' ≡ some (file b)
copy_recursive_copies = copy_recursive-AllCopy
