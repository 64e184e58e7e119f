-- ===== src/Types/Magnet/Prefix.antt =====
-- The test `to_lowercase().starts_with("urn:btih:")` of types/magnet.rs against the slice that it
-- guards: the test reads the lower-cased text, and the slice counts bytes of the text itself.
use Prim.Native.Char.{Char, code}
use magnarr.Prelude.{ℕ, suc, String, ◌≡◌, refl, ap, ◌≢◌, ◌⊎◌, inl, inr, true, false}
use magnarr.Prelude.{List, [], ◌∷◌, ◌++◌, map, some, ◌≤◌, ◌<◌, arith, ltb, length}
use magnarr.Prelude.{Bool-cases}
use magnarr.Prelude.Text.{CaseTable, codes, drop_bytes, width, starts_with, ascii_lower}
use magnarr.Prelude.Text.{to_lowercase_from, to_lowercase}
use magnarr.Types.Magnet.{prefix}

-- What Unicode says of the lower case of a code point outside ASCII: U+212A becomes `k`, U+0130
-- becomes `i` with a combining dot, and no other becomes a text that begins inside ASCII.
abbrev pub Outside : List ℕ → Type 0
Outside [] = ⊥
Outside (x ∷ []) = (128 ≤ x) ⊎ (x ≡ b'k')
Outside (x ∷ y ∷ rest) = (128 ≤ x) ⊎ ((x ≡ b'i') × (128 ≤ y))

pub record IsCaseTable (table : CaseTable) : Type 0 where
  pub outside :
      (before : List ℕ) (c : ℕ) (after : String) → 128 ≤ c → Outside (table before c after)

-- An ASCII pattern that no such lower case can begin.
abbrev pub Plain : List ℕ → Type 0
Plain [] = Unit
Plain (q ∷ []) = (q < 128) × (q ≢ b'k') × (q ≢ b'i')
Plain (q ∷ r ∷ ps) = (q < 128) × (q ≢ b'k') × Plain (r ∷ ps)

-- `s` is `p` in some ASCII case, followed by `t`.
abbrev pub Splits : String → List ℕ → String → Type 0
Splits s p t =
    (q : List ℕ) × (codes s ≡ q ++ codes t)
    × (map ascii_lower q ≡ p)
    × (drop_bytes (length p) s ≡ some t)

Plain-head : (q : ℕ) (ps : List ℕ) → Plain (q ∷ ps) → (q < 128) × (q ≢ b'k') × Plain ps
Plain-head q [] h = (h.0, h.1, tt)
Plain-head q (r ∷ ps) h = h

not-starts_with-Outside :
    (xs more p : List ℕ) → Outside xs → Plain p → p ≢ [] → starts_with (xs ++ more) p ≡ false
unfolding starts_with
not-starts_with-Outside [] more p o h ne = absurd o
not-starts_with-Outside (x ∷ xs) more [] o h ne = absurd (ne refl)
not-starts_with-Outside (x ∷ []) more (q ∷ []) o h ne = ground arith
not-starts_with-Outside (x ∷ []) more (q ∷ r ∷ ps) o h ne = ground arith
not-starts_with-Outside (x ∷ y ∷ xs) more (q ∷ []) o h ne = ground arith
not-starts_with-Outside (x ∷ y ∷ xs) more (q ∷ r ∷ []) o h ne = ground arith
not-starts_with-Outside (x ∷ y ∷ xs) more (q ∷ r ∷ u ∷ ps) o h ne = ground arith

drop_bytes-ascii :
    (c : Char) (n : ℕ) (s t : String)
    → ltb (code c) 128 ≡ true
    → drop_bytes n s ≡ some t
    → drop_bytes (suc n) (String.◌∷◌ c s) ≡ some t
unfolding drop_bytes width
drop_bytes-ascii c n s t ascii e = ground arith

module _ (table : CaseTable) (unicode : IsCaseTable table) where
  starts_with-ascii :
      (q : ℕ) (ps before : List ℕ) (c : Char) (s : String)
      → ltb (code c) 128 ≡ true
      → starts_with (to_lowercase_from table before (String.◌∷◌ c s)) (q ∷ ps) ≡ true
      → (ascii_lower (code c) ≡ q)
        × (starts_with (to_lowercase_from table (code c ∷ before) s) ps ≡ true)
  unfolding starts_with to_lowercase_from
  starts_with-ascii q ps before c s ascii e = ground arith

  not-starts_with-wide :
      (q : ℕ) (ps before : List ℕ) (c : Char) (s : String)
      → Plain (q ∷ ps)
      → ltb (code c) 128 ≡ false
      → starts_with (to_lowercase_from table before (String.◌∷◌ c s)) (q ∷ ps) ≡ false
  unfolding to_lowercase_from
  not-starts_with-wide q ps before c s h wide = rw wide (
      not-starts_with-Outside (table before (code c) s) _ (q ∷ ps)
        (unicode.outside before (code c) s (ground arith)) h (λ n. cc))

  starts_with-Splits :
      (p : List ℕ) (before : List ℕ) (s : String)
      → Plain p
      → starts_with (to_lowercase_from table before s) p ≡ true
      → (t : String) × Splits s p t
  unfolding starts_with to_lowercase_from drop_bytes
  starts_with-Splits [] before s h e = (s, ([], refl, refl, refl))
  starts_with-Splits (q ∷ ps) before String.[] h e = cc
  starts_with-Splits (q ∷ ps) before (String.◌∷◌ c s) h e = elim (Bool-cases (ltb (code c) 128)) [
    | inr wide ↦ cc (not-starts_with-wide q ps before c s h wide)
    | inl ascii ↦
        let (same, more) = starts_with-ascii q ps before c s ascii e in
        let (t, rest) = starts_with-Splits ps (code c ∷ before) s (Plain-head q ps h).2 more in
        let (u, split, lower, dropped) = rest in
        (
          t,
          (
            code c ∷ u,
            ap (◌∷◌ (code c)) split,
            cc,
            drop_bytes-ascii c (length ps) s t ascii dropped,
          ),
        )
  ]

  -- Where the test passes, the slice falls on a character: the value is the prefix in some ASCII
  -- case, followed by the text that the slice returns.
  pub to_lowercase-prefix :
      (s : String)
      → starts_with (to_lowercase table s) prefix ≡ true
      → (t : String) × Splits s prefix t
  unfolding to_lowercase
  to_lowercase-prefix s e = starts_with-Splits prefix [] s (omega arith) e
