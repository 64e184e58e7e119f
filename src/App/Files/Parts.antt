-- ===== src/App/Files/Parts.antt =====
-- The steps of a call of `copy_recursive` (app/mod.rs) that succeeds.
use magnarr.Prelude.{
  true, ℕ, String, ◌≡◌, refl, ◌≢◌, sym, ap, ◌∙◌, subst, arith, Bool-cases, inl, inr,
}
use magnarr.Prelude.{
  List, [], ◌∷◌, ◌++◌, Option, none, some, Result, ok, err, Option-cases, str_eq, eq_iff, Any,
  >>=-eq-ok, ok-injective,
}
use magnarr.App.Files.{
  same_path, Node, file, dir, Entries, nil, cons, IoError, Components, find, names, lookup, Ran,
}
use magnarr.App.Files.{write, copy, parent, copy_file}
use magnarr.App.Files.{then_do, create_parent, on_ok, listed}
use magnarr.App.Files.Lookup.{IsPrefix, Disjoint, Disjoint-append, Disjoint-sym, find-set_self}
use magnarr.App.Files.Ends.{create_parent-Framed}
use mathlib.Core.List.{append_assoc}
use mathlib.Core.Option
use mathlib.Core.Option.{some-injective}

pub lookup_append :
    (p q : Components) (root : Node) → lookup (p ++ q) root ≡ Option.bind (lookup p root) (lookup q)
unfolding lookup Option.bind
lookup_append [] q root = refl
lookup_append (c ∷ p) q (file b) = refl
lookup_append (c ∷ p) q (dir es) = elim (Option-cases (find c es)) [
  | inl missing ↦ rw (missing, Option.bind) refl
  | inr (m, there) ↦ rw (there, Option.bind) (lookup_append p q m)
]

-- A written file is found.
pub lookup-write_self :
    (b : List ℕ) (p : Components) (o : Option Node) {root : Node}
    → write b p o ≡ ok root
    → lookup p root ≡ some (file b)
unfolding write lookup Option.bind
lookup-write_self b [] none h = ap some (sym (ok-injective h))
lookup-write_self b [] (some (file _)) h = ap some (sym (ok-injective h))
lookup-write_self b [] (some (dir _)) h = cc
lookup-write_self b (c ∷ p) none h = cc
lookup-write_self b (c ∷ p) (some (file _)) h = cc
lookup-write_self b (c ∷ p) (some (dir es)) h =
    let (n, made, built) = >>=-eq-ok (write b p (find c es)) _ h in
    ap (lookup (c ∷ p)) (sym (ok-injective built))
    ∙ ap (λ o. Option.bind o (lookup p)) (find-set_self c n es)
    ∙ lookup-write_self b p (find c es) made

pub IsPrefix-below : (p q r : Components) → IsPrefix (p ++ q) (p ++ r) → IsPrefix q r
IsPrefix-below [] q r h = h
IsPrefix-below (c ∷ p) q r h = IsPrefix-below p q r h.1

-- Two entries of a directory are apart.
pub Disjoint-entries :
    (p : Components) (n m : String) (rel : Components)
    → n ≢ m
    → Disjoint (p ++ n ∷ rel) (p ++ m ∷ [])
Disjoint-entries p n m rel ne = record {
  not_below = λ h. ne (IsPrefix-below p (n ∷ rel) (m ∷ []) h).0;
  not_above = λ h. ne (sym (IsPrefix-below p (m ∷ []) (n ∷ rel) h).0);
}

pub append_nil : (p : Components) → p ++ [] ≡ p
append_nil [] = refl
append_nil (c ∷ p) = ap (◌∷◌ c) (append_nil p)

-- What lies below a path is apart from what the path is apart from.
pub Disjoint-path : (q p dst : Components) → Disjoint p dst → Disjoint (p ++ q) dst
Disjoint-path [] p dst d = subst (λ x. Disjoint x dst) (sym (append_nil p)) d
Disjoint-path (c ∷ q) p dst d =
    subst (λ x. Disjoint x dst) (append_assoc p (c ∷ []) q)
      (Disjoint-path q (p ++ c ∷ []) dst
        (Disjoint-sym dst (p ++ c ∷ []) (Disjoint-append p dst c (Disjoint-sym p dst d))))

pub find-names :
    (n : String) (es : Entries) {m : Node} → find n es ≡ some m → Any (λ c. c ≡ n) (names es)
unfolding find names
find-names n nil h = cc
find-names n (cons c m es) h = elim (Bool-cases (str_eq n c)) [
  | inl same ↦ inl (sym ((eq_iff n c).0 same))
  | inr other ↦ inr (find-names n es (rw other at h))
]

abbrev pub Good : Ran → Node → Type 0
Good run root = run ≡ some (ok tt, root)

pub then_do-Good :
    (r : Result Node IoError) (root root' : Node) (next : Node → Ran)
    → Good (then_do r root next) root'
    → (a : Node) × (r ≡ ok a) × Good (next a) root'
then_do-Good (err e) root root' next h = cc
then_do-Good (ok a) root root' next h = (a, refl, h)

pub on_ok-Good :
    (run : Ran) (root' : Node) (next : Node → Ran)
    → Good (Option.bind run (on_ok next)) root'
    → (a : Node) × Good run a × Good (next a) root'
unfolding Option.bind
on_ok-Good none root' next h = cc
on_ok-Good (some (err e, a)) root' next h = cc
on_ok-Good (some (ok tt, a)) root' next h = (a, refl, h)

pub listed-Good :
    (next : List String → Node → Ran) (r : Result (List String) IoError) (root root' : Node)
    → Good (listed next r root) root'
    → (found : List String) × (r ≡ ok found) × Good (next found root) root'
listed-Good next (err e) root root' h = cc
listed-Good next (ok found) root root' h = (found, refl, h)

pub Good-injective : {a b : Node} → Good (some (ok tt, a)) b → a ≡ b
Good-injective h = cc

pub same_path-IsPrefix : (p q : Components) → same_path p q ≡ true → IsPrefix p q
same_path-IsPrefix [] q h = tt
same_path-IsPrefix (c ∷ p) [] h = cc
same_path-IsPrefix (c ∷ p) (d ∷ q) h =
    (ground (arith, eq_iff c d), same_path-IsPrefix p q (ground arith))

pub copy-write :
    (src dst : Components) (root root' : Node) (b : List ℕ)
    → Disjoint src dst
    → copy src dst root ≡ ok root'
    → lookup src root ≡ some (file b)
    → write b dst (some root) ≡ ok root'
unfolding copy
copy-write src dst root root' b apart done held = elim (Bool-cases (same_path src dst)) [
  | inl same ↦ absurd (apart.not_below (same_path-IsPrefix src dst same))
  | inr other ↦ ground (arith, held, other)
]

-- The file at `src` has been copied to `dst`.
pub copy_file-Copies :
    (src dst : Components) (root root' : Node) (b : List ℕ)
    → Disjoint src dst
    → Good (copy_file src dst root) root'
    → lookup src root ≡ some (file b)
    → lookup dst root' ≡ some (file b)
unfolding copy_file
copy_file-Copies src dst root root' b apart h held =
    let (root1, made, h1) = then_do-Good (create_parent (parent dst) root) root root' _ h in
    let (root2, done, h2) = then_do-Good (copy src dst root1) root1 root' _ h1 in
    let there : lookup src root1 ≡ some (file b) =
      create_parent-Framed dst (parent dst) root root1 refl made src apart ∙ held in
    subst (λ r. lookup dst r ≡ some (file b)) (Good-injective h2)
      (lookup-write_self b dst (some root1) (copy-write src dst root1 root2 b apart done there))
