-- ===== src/Types/Magnet/Scan.antt =====
-- The loop of `Magnet::from_str` over the query pairs (types/magnet.rs).
use mathlib.Core.Option
use magnarr.Prelude.{String, ◌≡◌, refl, ◌⊎◌, inl, inr, Bool, true, ◌&&◌, ◌||◌}
use magnarr.Prelude.{List, [], ◌∷◌, Option, some, arith, Bool-cases, is_some}
use magnarr.Prelude.{Any, any, if◌then◌else◌}
use magnarr.Prelude.Text.{CaseTable, starts_with, eq_ignore_ascii_case, to_lowercase}
use magnarr.Types.Magnet.{Found, prefix, btih, visit, scan, is_full}
use magnarr.Types.Magnet.Prefix.{IsCaseTable, Splits, to_lowercase-prefix}

module _ (table : CaseTable) where
  -- A pair `xt=urn:btih:…`, in any case.
  abbrev pub is_btih : String × String → Bool
  is_btih (key, value) =
      eq_ignore_ascii_case key "xt" && starts_with (to_lowercase table value) prefix

-- The pair gives the info hash `t`.
abbrev pub Carries : String → String × String → Type 0
Carries t (key, value) = (eq_ignore_ascii_case key "xt" ≡ true) × Splits value prefix t

-- The pair gives the name `n`.
abbrev pub Names : String → String × String → Type 0
Names n (key, value) = (eq_ignore_ascii_case key "dn" ≡ true) × (value ≡ n)

-- What a variable holds after the loop: its old value, or what one of the pairs gives.
abbrev pub From :
    (String → String × String → Type 0)
    → List (String × String)
    → Option String
    → Option String
    → Type 0
From Gives pairs old new = (new ≡ old) ⊎ ((t : String) × (new ≡ some t) × Any (Gives t) pairs)

From-later :
    (Gives : String → String × String → Type 0) (pair : String × String)
    (pairs : List (String × String)) (old mid new : Option String)
    → From Gives (pair ∷ []) old mid
    → From Gives pairs mid new
    → From Gives (pair ∷ pairs) old new
From-later Gives pair pairs old mid new (inl e) (inl f) = inl (cc)
From-later Gives pair pairs old mid new (inr (t, e, inl g)) (inl f) = inr (t, (cc), inl g)
From-later Gives pair pairs old mid new (inr (t, e, inr g)) (inl f) = absurd g
From-later Gives pair pairs old mid new h (inr (t, e, g)) = inr (t, e, inr g)

From-now :
    (Gives : String → String × String → Type 0) (pair : String × String)
    (pairs : List (String × String)) (old mid : Option String)
    → From Gives (pair ∷ []) old mid
    → From Gives (pair ∷ pairs) old mid
From-now Gives pair pairs old mid (inl e) = inl e
From-now Gives pair pairs old mid (inr (t, e, inl g)) = inr (t, e, inl g)
From-now Gives pair pairs old mid (inr (t, e, inr g)) = absurd g

module _ (table : CaseTable) (unicode : IsCaseTable table) where
  -- After the loop over `pairs` from `old`.
  pub record Scanned (pairs : List (String × String)) (old new : Found) : Type 0 where
    pub hash_from : From Carries pairs old.hash new.hash
    pub name_from : From Names pairs old.name new.name
    pub found_hash : is_some new.hash ≡ (is_some old.hash || any (is_btih table) pairs)

  btih_lem :
      (key value : String) (old : Option String)
      → eq_ignore_ascii_case key "xt" ≡ true
      → (h : Option String) × (btih table value old ≡ some h)
        × From Carries ((key, value) ∷ []) old h
        × (is_some h ≡ (is_some old || any (is_btih table) ((key, value) ∷ [])))
  unfolding btih
  btih_lem key value old xt = elim (Bool-cases (starts_with (to_lowercase table value) prefix)) [
    | inr other ↦ (old, rw other, inl refl, ground arith)
    | inl hit ↦
        let (t, split) = to_lowercase-prefix table unicode value hit in
        (some t, rw (hit, split.3), inr (t, refl, inl (xt, split)), ground arith)
  ]

  hash_lem :
      (key value : String) (old : Option String)
      → (h : Option String) × ((if eq_ignore_ascii_case key "xt"
            then btih table value old
            else some old)
          ≡ some h)
        × From Carries ((key, value) ∷ []) old h
        × (is_some h ≡ (is_some old || any (is_btih table) ((key, value) ∷ [])))
  hash_lem key value old = elim (Bool-cases (eq_ignore_ascii_case key "xt")) [
    | inr other ↦ (old, rw other, inl refl, ground arith)
    | inl xt ↦ let (h, e, from, found) = btih_lem key value old xt in (h, rw (xt, e), from, found)
  ]

  name_lem :
      (key value : String) (old : Option String)
      → From Names
          ((key, value) ∷ [])
          old
          (if eq_ignore_ascii_case key "dn" then some value else old)
  name_lem key value old = elim (Bool-cases (eq_ignore_ascii_case key "dn")) [
    | inr other ↦ rw other (inl refl)
    | inl dn ↦ rw dn (inr (value, refl, inl (refl, refl)))
  ]

  visit_lem :
      (pair : String × String) (old : Found)
      → (next : Found) × (visit table pair old ≡ some next) × Scanned (pair ∷ []) old next
  unfolding visit
  visit_lem (key, value) old =
      let (h, e, from, found) = hash_lem key value old.hash in
      (
        record { hash = h; name = if eq_ignore_ascii_case key "dn" then some value else old.name },
        rw e,
        record { hash_from = from; name_from = name_lem key value old.name; found_hash = found },
      )

  -- The loop ends without a panic.
  pub scan_lem :
      (pairs : List (String × String)) (old : Found)
      → (new : Found) × (scan table pairs old ≡ some new) × Scanned pairs old new
  unfolding scan Option.bind
  scan_lem [] old =
      (old, refl, record { hash_from = inl refl; name_from = inl refl; found_hash = ground arith })
  scan_lem (pair ∷ pairs) old =
      let (mid, e, s) = visit_lem pair old in
      elim (Bool-cases (is_full mid)) [
        | inl full ↦ (
          mid,
          rw (e, full),
          record {
            hash_from = From-now Carries pair pairs old.hash mid.hash s.hash_from;
            name_from = From-now Names pair pairs old.name mid.name s.name_from;
            found_hash = ground (arith, s.found_hash);
          },
        )
        | inr more ↦
            let (new, e', s') = scan_lem pairs mid in
            (
              new,
              rw (e, more) e',
              record {
                hash_from =
                    From-later Carries pair pairs old.hash mid.hash new.hash s.hash_from
                      s'.hash_from;
                name_from =
                    From-later Names pair pairs old.name mid.name new.name s.name_from s'.name_from;
                found_hash = ground (arith, s.found_hash, s'.found_hash);
              },
            )
      ]
