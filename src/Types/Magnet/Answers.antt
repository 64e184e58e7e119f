-- ===== src/Types/Magnet/Answers.antt =====
-- What `Magnet::from_str` of types/magnet.rs answers, and where the parts of a magnet come from.
use magnarr.Prelude.{String, ◌≡◌, refl, ◌≢◌, ◌⊎◌, inl, inr, true, false, subst, sym, ap, ◌∙◌}
use magnarr.Prelude.{Bool-cases, Result-cases, str_eq}
use magnarr.Prelude.{List, Option, none, some, arith, ok, err, any, Any, eq_iff}
use magnarr.Prelude.Text.{CaseTable}
use magnarr.Types.Magnet.{UrlCrate, Magnet, Found, Parsed, finish, from_str, serialize, deserialize}
use magnarr.Types.Magnet.{missing_info_hash, invalid_scheme, invalid_uri}
use magnarr.Types.Magnet.Prefix.{IsCaseTable}
use magnarr.Types.Magnet.Scan.{is_btih, Carries, Names, From, Scanned, scan_lem}
use mathlib.Core.Option.{some-injective}

abbrev empty : Found
empty = record { hash = none; name = none }

-- The parts of a magnet come from the text that was parsed: the link itself, an `xt` pair whose
-- value is the prefix in some case followed by the info hash, and a `dn` pair if there is a name.
pub record Describes (table : CaseTable) (s : String) (pairs : List (String × String)) (m : Magnet)
    : Type 0 where
  pub raw : m.raw ≡ s
  pub info_hash : Any (Carries m.info_hash) pairs
  pub name : (m.name ≡ none) ⊎ ((n : String) × (m.name ≡ some n) × Any (Names n) pairs)

module _ (U : UrlCrate) (table : CaseTable) (unicode : IsCaseTable table) where
  from_str-magnet :
      (s : String) (url : U.Url)
      → U.parse s ≡ ok url
      → U.scheme url ≡ "magnet"
      → (new : Found) × (from_str U table s ≡ some (finish U table s new))
        × Scanned table unicode (U.query_pairs url) empty new
  unfolding from_str
  from_str-magnet s url e m =
      let (new, scanned, spec) = scan_lem table unicode (U.query_pairs url) empty in
      (new, rw (e, from_str, (eq_iff (U.scheme url) "magnet").1 m, scanned), spec)

  from_str-other :
      (s : String) (url : U.Url)
      → U.parse s ≡ ok url
      → U.scheme url ≢ "magnet"
      → from_str U table s ≡ some (err (invalid_scheme (U.scheme url)))
  unfolding from_str
  from_str-other s url e other = ground (arith, eq_iff (U.scheme url) "magnet")

  from_str-invalid :
      (s : String) (e : U.ParseError)
      → U.parse s ≡ err e
      → from_str U table s ≡ some (err (invalid_uri e))
  unfolding from_str
  from_str-invalid s e h = rw (h, from_str)

  -- The four answers of `from_str`, each with its condition.
  pub data Answer (s : String) (r : Option (Parsed U)) : Type 0 where
    not_uri : (e : U.ParseError) → U.parse s ≡ err e → r ≡ some (err (invalid_uri e)) → Answer s r
    not_magnet :
        (url : U.Url)
        → U.parse s ≡ ok url
        → U.scheme url ≢ "magnet"
        → r ≡ some (err (invalid_scheme (U.scheme url)))
        → Answer s r
    no_hash :
        (url : U.Url)
        → U.parse s ≡ ok url
        → U.scheme url ≡ "magnet"
        → any (is_btih table) (U.query_pairs url) ≡ false
        → r ≡ some (err (missing_info_hash s))
        → Answer s r
    magnet :
        (url : U.Url) (m : Magnet)
        → U.parse s ≡ ok url
        → U.scheme url ≡ "magnet"
        → any (is_btih table) (U.query_pairs url) ≡ true
        → r ≡ some (ok m)
        → Describes table s (U.query_pairs url) m
        → Answer s r

  found-Answer :
      (s : String) (url : U.Url) (hash name : Option String)
      → U.parse s ≡ ok url
      → U.scheme url ≡ "magnet"
      → from_str U table s ≡ some (finish U table s (record { hash = hash; name = name }))
      → Scanned table unicode (U.query_pairs url) empty (record { hash = hash; name = name })
      → Answer s (from_str U table s)
  found-Answer s url none name e m r spec = no_hash url e m (ground (arith, spec.found_hash)) r
  found-Answer s url (some h) name e m r spec =
      magnet url (record { raw = s; info_hash = h; name = name }) e m
        (ground (arith, spec.found_hash)) r
        (record { raw = refl; info_hash = hash_given spec.hash_from; name = spec.name_from })
    where
      hash_given :
          From Carries (U.query_pairs url) none (some h) → Any (Carries h) (U.query_pairs url)
      hash_given (inl f) = cc
      hash_given (inr (t, f, g)) =
          subst (λ x. Any (Carries x) (U.query_pairs url)) (some-injective t h (sym f)) g

  -- `from_str` never panics: it answers `InvalidUri` with the crate's error when the text is no URI,
  -- `InvalidScheme` when the scheme is not `magnet`, `MissingInfoHash` when no `xt` pair has the
  -- prefix, and otherwise a magnet whose text, info hash and name come from the link, all provided
  -- that the table of lower cases is Unicode's.
  pub from_str-Answer : (s : String) → Answer s (from_str U table s)
  from_str-Answer s = elim (Result-cases (U.parse s)) [
    | inr (e, h) ↦ not_uri e h (from_str-invalid s e h)
    | inl (url, h) ↦ elim (Bool-cases (str_eq (U.scheme url) "magnet")) [
      | inr other ↦
          let ne : U.scheme url ≢ "magnet" = λ m. ground (arith, eq_iff (U.scheme url) "magnet") in
          not_magnet url h ne (from_str-other s url h ne)
      | inl same ↦
          let m : U.scheme url ≡ "magnet" = (eq_iff (U.scheme url) "magnet").0 same in
          let (new, e, spec) = from_str-magnet s url h m in
          found-Answer s url new.hash new.name h m e spec
    ]
  ]

  pub raw-Answer :
      (s : String) (r : Option (Parsed U)) (m : Magnet) → Answer s r → r ≡ some (ok m) → m.raw ≡ s
  raw-Answer s r m (not_uri e h a) eq = cc
  raw-Answer s r m (not_magnet url h ne a) eq = cc
  raw-Answer s r m (no_hash url h e b a) eq = cc
  raw-Answer s r m (magnet url m' h e b a d) eq = ground (arith, d.raw)

  -- A magnet that came from parsing is stored as its text, and reading that text back gives the
  -- same magnet, provided that the table of lower cases is Unicode's.
  pub deserialize-serialize :
      (s : String) (m : Magnet)
      → from_str U table s ≡ some (ok m)
      → deserialize U table (serialize m) ≡ some (ok m)
  unfolding serialize deserialize
  deserialize-serialize s m h = ap (from_str U table) (raw-Answer s _ m (from_str-Answer s) h) ∙ h
