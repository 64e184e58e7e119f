-- ===== src/Prelude/Results.antt =====
-- Rust's `Result`, with `?` as the bind of a do block, and `collect` of an iterator of results.
use mathlib.Core.Path.{◌≡◌, refl}
use mathlib.Core.Logic.{◌⊎◌, inl, inr}
use mathlib.Core.List.{List, [], ◌∷◌}

pub data Result {ℓ} (Value Error : Type ℓ) : Type ℓ where
  ok : Value → Result Value Error
  err : Error → Result Value Error

module _ {ℓ} {A B E : Type ℓ} where
  abbrev pub map_ok : (A → B) → Result A E → Result B E
  map_ok f (ok a) = ok (f a)
  map_ok f (err e) = err e

module _ {ℓ} {A B E : Type ℓ} where
  -- `?`, and `and_then`.
  abbrev pub ◌>>=◌ : Result A E → (A → Result B E) → Result B E
  ok value >>= next = next value
  err e >>= next = err e

  infixl 5 ◌>>=◌

module _ {ℓ} {A E F : Type ℓ} where
  abbrev pub map_err : (E → F) → Result A E → Result A F
  map_err f (ok a) = ok a
  map_err f (err e) = err (f e)

module _ {ℓ} {A E : Type ℓ} where
  -- `iter.collect::<Result<Vec<_>, _>>()`: the first error wins.
  abbrev pub collect : List (Result A E) → Result (List A) E
  collect [] = ok []
  collect (r ∷ rs) = r >>= λ a. collect rs >>= λ rest. ok (a ∷ rest)

  pub Result-cases : (r : Result A E) → ((a : A) × (r ≡ ok a)) ⊎ ((e : E) × (r ≡ err e))
  Result-cases (ok a) = inl (a, refl)
  Result-cases (err e) = inr (e, refl)

module _ {ℓ} {A B E : Type ℓ} where
  -- A chain that ended well had a first step that did.
  pub >>=-eq-ok :
      (first : Result A E) (next : A → Result B E) {end : B}
      → (first >>= next) ≡ ok end
      → (value : A) × (first ≡ ok value) × (next value ≡ ok end)
  >>=-eq-ok (err e) next failed = cc
  >>=-eq-ok (ok value) next ended = (value, refl, ended)

module _ {ℓ} {A E : Type ℓ} where
  pub ok-injective : {a b : A} → ◌≡◌ {A = Result A E} (ok a) (ok b) → a ≡ b
  ok-injective h = cc
