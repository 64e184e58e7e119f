-- ===== src/App/Files/Ends.antt =====
-- Termination of `copy_recursive` (app/mod.rs), and its frame.
use Prim.Native.Nat.{max}
use magnarr.Prelude.{
  if◌then◌else◌, ℕ, zero, suc, ◌<◌, ◌≤◌, String, ◌≡◌, refl, sym, ap, ◌∙◌, subst, arith, Bool-cases,
  inl, inr, true,
}
use magnarr.Prelude.{
  ok-injective, List, [], ◌∷◌, ◌++◌, Option, none, some, Result, ok, err, Option-cases, str_eq,
}
use magnarr.App.Files.{
  Node, file, dir, Entries, nil, cons, IoError, Components, find, names, lookup, Ran,
}
use magnarr.App.Files.{create_dir_all, write, copy, parent, is_dir, read_dir, copy_file, copy_each}
use magnarr.App.Files.{copy_recursive, same_path, then_do, create_parent, on_ok, listed}
use magnarr.App.Files.Lookup.{Disjoint, Disjoint-append, Disjoint-sym, IsPrefix-parent}
use magnarr.App.Files.Lookup.{lookup-create_dir_all, lookup-write}
use mathlib.Core.Option

-- The height of a tree of directories.
unfoldable mutual
  pub depth : Node → ℕ
  depth (file b) = 0
  depth (dir es) = suc (depths es)

  pub depths : Entries → ℕ
  depths nil = 0
  depths (cons c n es) = max (depth n) (depths es)

abbrev pub depth_of : Option Node → ℕ
depth_of none = 0
depth_of (some n) = depth n

depth_of-find : (c : String) (es : Entries) → depth_of (find c es) ≤ depths es
unfolding find depths
depth_of-find c nil = omega arith
depth_of-find c (cons d n es) = elim (Bool-cases (str_eq c d)) [
  | inl same ↦ rw (same, find) (omega arith)
  | inr other ↦ rw (other, find) (omega (arith, depth_of-find c es))
]

lookup-append :
    (p : Components) (n : String) (root : Node)
    → lookup (p ++ n ∷ []) root ≡ Option.bind (lookup p root) (lookup (n ∷ []))
unfolding lookup Option.bind
lookup-append [] n root = refl
lookup-append (c ∷ p) n (file b) = refl
lookup-append (c ∷ p) n (dir es) = elim (Option-cases (find c es)) [
  | inl missing ↦ rw (missing, Option.bind) refl
  | inr (m, there) ↦ rw (there, Option.bind) (lookup-append p n m)
]

-- The paths that are disjoint from `dst` find the same in both trees.
abbrev pub Framed : Components → Node → Node → Type 0
Framed dst root root' = (q : Components) → Disjoint q dst → lookup q root' ≡ lookup q root

-- The call has ended, within its frame.
abbrev pub Ends : Components → Node → Ran → Type 0
Ends dst root none = ⊥
Ends dst root (some (r, root')) = Framed dst root root'

Framed-trans : (dst : Components) (a b c : Node) → Framed dst a b → Framed dst b c → Framed dst a c
Framed-trans dst a b c f g q d = g q d ∙ f q d

Ends-trans :
    (dst : Components) (a b : Node) (r : Ran) → Framed dst a b → Ends dst b r → Ends dst a r
Ends-trans dst a b none f h = h
Ends-trans dst a b (some (r, c)) f h = Framed-trans dst a b c f h

then_do-Ends :
    (dst : Components) (root : Node) (r : Result Node IoError) (next : Node → Ran)
    → ((root' : Node) → r ≡ ok root' → Ends dst root (next root'))
    → Ends dst root (then_do r root next)
then_do-Ends dst root (err e) next h = λ q d. refl
then_do-Ends dst root (ok root') next h = h root' refl

pub create_parent-Framed :
    (dst : Components) (o : Option Components) (root root' : Node)
    → parent dst ≡ o
    → create_parent o root ≡ ok root'
    → Framed dst root root'
create_parent-Framed dst none root root' e h q d = ap (lookup q) (sym (ok-injective h))
create_parent-Framed dst (some p) root root' e h q d =
    lookup-create_dir_all p q root h (λ pre. d.not_below (IsPrefix-parent dst q p e pre))

copy-Framed :
    (src dst : Components) (root root' : Node)
    → copy src dst root ≡ ok root'
    → Framed dst root root'
unfolding copy Option.bind
copy-Framed src dst root root' h q d = elim (Option-cases (lookup src root)) [
  | inl e ↦ ground (arith, e)
  | inr (dir es, e) ↦ ground (arith, e)
  | inr (file b, e) ↦
      let bytes = if same_path src dst then [] else b in
      let written : write bytes dst (some root) ≡ ok root' = ground (arith, e) in
      lookup-write bytes dst q (some root) written d.not_below d.not_above
]

pub copy_file-Ends : (src dst : Components) (root : Node) → Ends dst root (copy_file src dst root)
unfolding copy_file
copy_file-Ends src dst root =
    then_do-Ends dst root (create_parent (parent dst) root) _ λ root' made.
      then_do_later src dst root root' (create_parent-Framed dst (parent dst) root root' refl made)
  where
    then_do_later :
        (src dst : Components) (root root' : Node)
        → Framed dst root root'
        → Ends dst root (then_do (copy src dst root') root' (λ root''. some (ok tt, root'')))
    then_do_later src dst root root' f = Ends-trans dst root root' _ f (
        then_do-Ends dst root' (copy src dst root') _
          (λ root'' done. copy-Framed src dst root' root'' done))

-- Every call for a source that is disjoint from its destination and lower than `fuel` ends.
abbrev pub AllEnd : ℕ → (Components → Components → Node → Ran) → Type 0
AllEnd fuel call =
    (src dst : Components) (root : Node)
    → Disjoint src dst
    → depth_of (lookup src root) < fuel
    → Ends dst root (call src dst root)

module _ (fuel : ℕ) (call : Components → Components → Node → Ran) (each : AllEnd fuel call)
    (src dst : Components) (apart : Disjoint src dst) where
  pub Disjoint-entry : (n : String) → Disjoint (src ++ n ∷ []) dst
  Disjoint-entry n = Disjoint-sym dst _ (Disjoint-append src dst n (Disjoint-sym src dst apart))

  pub Framed-entry :
      (n : String) (root root' : Node) → Framed (dst ++ n ∷ []) root root' → Framed dst root root'
  Framed-entry n root root' f q d = f q (Disjoint-append dst q n d)

  -- The entries of the source are lower than `fuel`.
  abbrev pub Low : Node → Type 0
  Low root = (n : String) → depth_of (lookup (src ++ n ∷ []) root) < fuel

  pub Low-Framed : (root root' : Node) → Framed dst root root' → Low root → Low root'
  Low-Framed root root' f low n =
      subst (λ o. depth_of o < fuel) (sym (f (src ++ n ∷ []) (Disjoint-entry n))) (low n)

  on_ok-Ends :
      (n : String) (root : Node) (r : Ran) (next : Node → Ran)
      → Ends (dst ++ n ∷ []) root r
      → ((root' : Node) → Framed dst root root' → Ends dst root' (next root'))
      → Ends dst root (Option.bind r (on_ok next))
  unfolding Option.bind
  on_ok-Ends n root none next h more = h
  on_ok-Ends n root (some (err e, root')) next h more = Framed-entry n root root' h
  on_ok-Ends n root (some (ok _, root')) next h more =
      let f = Framed-entry n root root' h in Ends-trans dst root root' (next root') f (more root' f)

  copy_each-Ends :
      (found : List String) (root : Node)
      → Low root
      → Ends dst root (copy_each call src dst found root)
  unfolding copy_each
  copy_each-Ends [] root low = λ q d. refl
  copy_each-Ends (n ∷ rest) root low =
      on_ok-Ends n root (call (src ++ n ∷ []) (dst ++ n ∷ []) root) (copy_each call src dst rest)
        (each (src ++ n ∷ []) (dst ++ n ∷ []) root (Disjoint-append dst _ n (Disjoint-entry n))
          (low n))
        (λ root' f. copy_each-Ends rest root' (Low-Framed root root' f low))

  pub Low-directory :
      (es : Entries) (root : Node) → lookup src root ≡ some (dir es) → depths es < fuel → Low root
  unfolding lookup Option.bind
  Low-directory es root e low n =
      subst (λ o. depth_of o < fuel)
        (sym (
          lookup-append src n root
          ∙ ap (λ o. Option.bind o (lookup (n ∷ []))) e
          ∙ entry (find n es)))
        (omega (arith, depth_of-find n es))
    where
      entry : (o : Option Node) → Option.bind o (lookup []) ≡ o
      entry none = refl
      entry (some m) = refl

  directory-Ends :
      (root : Node)
      → is_dir src root ≡ true
      → depth_of (lookup src root) ≤ fuel
      → Ends dst root (
          then_do
            (create_dir_all dst root)
            root
            λ root'. listed (copy_each call src dst) (read_dir src root') root')
  unfolding read_dir is_dir depths
  directory-Ends root is low = elim (Option-cases (lookup src root)) [
    | inl e ↦ ground (arith, e)
    | inr (file b, e) ↦ ground (arith, e)
    | inr (dir es, e) ↦ then_do-Ends dst root (create_dir_all dst root) _ λ root' made.
        let f : Framed dst root root' = λ q d. lookup-create_dir_all dst q root made d.not_below in
        let there = f src apart ∙ e in
        let low' : depths es < fuel = omega (arith, ap depth_of e) in
        rw (there, read_dir)
          (Ends-trans dst root root' _ f
            (copy_each-Ends (names es) root' (Low-directory es root' there low')))
  ]

pub copy_recursive-AllEnd : (fuel : ℕ) → AllEnd fuel (copy_recursive fuel)
unfolding copy_recursive
copy_recursive-AllEnd zero src dst root apart low = absurd (omega arith)
copy_recursive-AllEnd (suc fuel) src dst root apart low = elim (Bool-cases (is_dir src root)) [
  | inl is ↦
      rw (is, copy_recursive)
        (directory-Ends fuel (copy_recursive fuel) (copy_recursive-AllEnd fuel) src dst apart root
          is (omega arith))
  | inr is_not ↦ rw (is_not, copy_recursive) (copy_file-Ends src dst root)
]

Ends-some :
    (dst : Components) (root : Node) (run : Ran)
    → Ends dst root run
    → (r : Result (Unit {0}) IoError) × (root' : Node) × (run ≡ some (r, root'))
      × Framed dst root root'
Ends-some dst root none h = absurd h
Ends-some dst root (some (r, root')) h = (r, root', refl, h)

-- Copying ends within the height of the source, with success or with an error, if neither of the two
-- paths is at or below the other; and it changes nothing at a path that is not at, above or below the
-- destination, of the source in particular.
pub copy_recursive-Ends :
    (fuel : ℕ) (src dst : Components) (root : Node)
    → Disjoint src dst
    → depth_of (lookup src root) < fuel
    → (r : Result (Unit {0}) IoError) × (root' : Node) × (copy_recursive fuel src dst root
        ≡ some (r, root'))
      × Framed dst root root'
copy_recursive-Ends fuel src dst root apart low =
    Ends-some dst root _ (copy_recursive-AllEnd fuel src dst root apart low)
