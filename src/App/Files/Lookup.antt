-- ===== src/App/Files/Lookup.antt =====
-- What a write below one path leaves of the other paths of the tree.
use magnarr.Prelude.{
  String, ◌≡◌, refl, sym, ap, ◌∙◌, ◌≢◌, arith, Bool-cases, inl, inr, ◌⊎◌, eq_iff, str_eq,
}
use magnarr.Prelude.{List, [], ◌∷◌, ◌++◌, Option, none, some, ok, >>=-eq-ok, ok-injective, ℕ, subst}
use magnarr.App.Files.{Node, file, dir, Entries, nil, cons, Components, find, set, lookup, or_empty}
use magnarr.App.Files.{create_dir_all, write, parent, drop_last}
use mathlib.Core.Option.{some-injective}
use mathlib.Core.Option

abbrev pub IsPrefix : Components → Components → Type 0
IsPrefix [] q = Unit
IsPrefix (c ∷ p) [] = ⊥
IsPrefix (c ∷ p) (d ∷ q) = (c ≡ d) × IsPrefix p q

-- Neither path is at or below the other.
pub record Disjoint (p q : Components) : Type 0 where
  pub not_below : ¬ IsPrefix p q
  pub not_above : ¬ IsPrefix q p

find-set : (c d : String) (n : Node) (es : Entries) → c ≢ d → find d (set c n es) ≡ find d es
unfolding find set
find-set c d n nil ne = ground (arith, eq_iff d c)
find-set c d n (cons e m es) ne = ground (arith, find-set c d n es ne, eq_iff d e, eq_iff c e)

pub find-set_self : (c : String) (n : Node) (es : Entries) → find c (set c n es) ≡ some n
unfolding find set
find-set_self c n nil = ground (arith, eq_iff c c)
find-set_self c n (cons e m es) = ground (arith, find-set_self c n es, eq_iff c e)

-- The entry `c` has become `n`, which finds at `q` what was found there.
lookup-set :
    (c d : String) (n : Node) (es : Entries) (q : Components)
    → (c ≡ d → lookup q n ≡ Option.bind (find c es) (lookup q))
    → Option.bind (find d (set c n es)) (lookup q) ≡ Option.bind (find d es) (lookup q)
unfolding Option.bind
lookup-set c d n es q below = elim (Bool-cases (str_eq c d)) [
  | inr other ↦
      ap (λ o. Option.bind o (lookup q)) (find-set c d n es (λ e. ground (arith, eq_iff c d)))
  | inl same ↦
      let e : c ≡ d = (eq_iff c d).0 same in
      subst (λ x. Option.bind (find x (set c n es)) (lookup q) ≡ Option.bind (find x es) (lookup q))
        e (ap (λ o. Option.bind o (lookup q)) (find-set_self c n es) ∙ below e)
]

lookup-or_empty :
    (o : Option Node) (d : String) (q : Components)
    → lookup (d ∷ q) (or_empty o) ≡ Option.bind o (lookup (d ∷ q))
unfolding lookup Option.bind
lookup-or_empty none d q = refl
lookup-or_empty (some n) d q = refl

lookup-or_empty_of :
    (p q : Components) (o : Option Node)
    → ¬ IsPrefix q p
    → lookup q (or_empty o) ≡ Option.bind o (lookup q)
lookup-or_empty_of p [] o ne = absurd (ne tt)
lookup-or_empty_of p (d ∷ q) o ne = lookup-or_empty o d q

-- A path that is not at or above the new directory finds what it found.
pub lookup-create_dir_all :
    (p q : Components) (root : Node) {root' : Node}
    → create_dir_all p root ≡ ok root'
    → ¬ IsPrefix q p
    → lookup q root' ≡ lookup q root
unfolding create_dir_all lookup
lookup-create_dir_all p [] root h ne = absurd (ne tt)
lookup-create_dir_all [] (d ∷ q) (file b) h ne = cc
lookup-create_dir_all [] (d ∷ q) (dir es) h ne = ap (lookup (d ∷ q)) (sym (ok-injective h))
lookup-create_dir_all (c ∷ p) (d ∷ q) (file b) h ne = cc
lookup-create_dir_all (c ∷ p) (d ∷ q) (dir es) h ne =
    let (n, made, built) = >>=-eq-ok (create_dir_all p (or_empty (find c es))) _ h in
    ap (lookup (d ∷ q)) (sym (ok-injective built))
    ∙ lookup-set c d n es q (λ e.
      let below : ¬ IsPrefix q p = λ pre. ne (sym e, pre) in
      lookup-create_dir_all p q (or_empty (find c es)) made below
      ∙ lookup-or_empty_of p q (find c es) below)

-- A path that is neither at, above nor below the written file finds what it found.
pub lookup-write :
    (b : List ℕ) (p q : Components) (o : Option Node) {root' : Node}
    → write b p o ≡ ok root'
    → ¬ IsPrefix q p
    → ¬ IsPrefix p q
    → lookup q root' ≡ Option.bind o (lookup q)
unfolding write lookup Option.bind
lookup-write b [] q o h ne na = absurd (na tt)
lookup-write b (c ∷ p) [] o h ne na = absurd (ne tt)
lookup-write b (c ∷ p) (d ∷ q) none h ne na = cc
lookup-write b (c ∷ p) (d ∷ q) (some (file _)) h ne na = cc
lookup-write b (c ∷ p) (d ∷ q) (some (dir es)) h ne na =
    let (n, made, built) = >>=-eq-ok (write b p (find c es)) _ h in
    ap (lookup (d ∷ q)) (sym (ok-injective built))
    ∙ lookup-set c d n es q
        (λ e. lookup-write b p q (find c es) made (λ pre. ne (sym e, pre)) (λ pre. na (e, pre)))

IsPrefix-append :
    (p q : Components) (n : String) → IsPrefix q (p ++ n ∷ []) → IsPrefix q p ⊎ IsPrefix p q
IsPrefix-append p [] n h = inl tt
IsPrefix-append [] (d ∷ q) n h = inr tt
IsPrefix-append (c ∷ p) (d ∷ q) n h = elim (IsPrefix-append p q n h.1) [
  | inl below ↦ inl (h.0, below)
  | inr above ↦ inr (sym h.0, above)
]

IsPrefix-of_append : (p q : Components) (n : String) → IsPrefix (p ++ n ∷ []) q → IsPrefix p q
IsPrefix-of_append [] q n h = tt
IsPrefix-of_append (c ∷ p) [] n h = h
IsPrefix-of_append (c ∷ p) (d ∷ q) n h = (h.0, IsPrefix-of_append p q n h.1)

-- What is disjoint from a path is disjoint from the entries below it.
pub Disjoint-append : (p q : Components) (n : String) → Disjoint q p → Disjoint q (p ++ n ∷ [])
Disjoint-append p q n d = record {
  not_below = λ pre. elim (IsPrefix-append p q n pre) [
    | inl below ↦ d.not_below below
    | inr above ↦ d.not_above above
  ];
  not_above = λ pre. d.not_above (IsPrefix-of_append p q n pre);
}

pub Disjoint-sym : (p q : Components) → Disjoint p q → Disjoint q p
Disjoint-sym p q d = record { not_below = d.not_above; not_above = d.not_below }

IsPrefix-drop_last :
    (c : String) (p q : Components) → IsPrefix q (drop_last c p) → IsPrefix q (c ∷ p)
IsPrefix-drop_last c p [] h = tt
IsPrefix-drop_last c [] (x ∷ q) h = absurd h
IsPrefix-drop_last c (d ∷ p) (x ∷ q) h = (h.0, IsPrefix-drop_last d p q h.1)

-- What is at or above the parent is above the path.
pub IsPrefix-parent : (p q m : Components) → parent p ≡ some m → IsPrefix q m → IsPrefix q p
unfolding parent
IsPrefix-parent [] q m e h = cc
IsPrefix-parent (c ∷ p) q m e h =
    IsPrefix-drop_last c p q (subst (IsPrefix q) (sym (some-injective (drop_last c p) m e)) h)
