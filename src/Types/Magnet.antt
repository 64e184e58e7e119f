-- ===== src/Types/Magnet.antt =====
-- types/magnet.rs: magnet links, parsed by the `url` crate's `Url::parse` and `query_pairs`, which
-- are parameters. A panic of the slice `value[prefix.len()..]` is the answer `none`.
pub mod Prefix
pub mod Scan
pub mod Answers
use magnarr.Prelude.{ℕ, String, Bool, Option, none, some, List, [], ◌∷◌, ◌&&◌, Result, ok, err}
use magnarr.Prelude.{str_eq, is_some, if◌then◌else◌}
use magnarr.Prelude.Text.{CaseTable, codes, drop_bytes, starts_with, to_lowercase}
use magnarr.Prelude.Text.{eq_ignore_ascii_case}
use mathlib.Core.Option

-- The `url` crate.
pub record UrlCrate : Type 1 where
  pub Url : Type 0
  pub ParseError : Type 0
  pub parse : String → Result Url ParseError
  pub scheme : Url → String
  pub query_pairs : Url → List (String × String)

pub data MagnetParseError (ParseError : Type 0) : Type 0 where
  invalid_uri : ParseError → MagnetParseError ParseError
  invalid_scheme : String → MagnetParseError ParseError
  missing_info_hash : String → MagnetParseError ParseError

pub record Magnet : Type 0 where
  pub raw : String
  pub info_hash : String
  pub name : Option String

-- The two variables that the loop over the pairs fills.
pub record Found : Type 0 where
  pub hash : Option String
  pub name : Option String

abbrev pub prefix : List ℕ
prefix = codes "urn:btih:"

abbrev pub is_full : Found → Bool
is_full found = is_some found.hash && is_some found.name

module _ (table : CaseTable) where
  -- `xt` with the prefix in any case: what stands behind the prefix's nine bytes.
  unfoldable pub btih : String → Option String → Option (Option String)
  btih value hash =
      if starts_with (to_lowercase table value) prefix
      then Option.map some (drop_bytes 9 value)
      else some hash

  -- One round of the loop, before the test for `break`.
  unfoldable pub visit : String × String → Found → Option Found
  unfolding btih
  visit (key, value) found =
      let name = if eq_ignore_ascii_case key "dn" then some value else found.name in
      let hash = if eq_ignore_ascii_case key "xt" then btih value found.hash else some found.hash in
      Option.map (λ h. record { hash = h; name = name }) hash

  unfoldable pub scan : List (String × String) → Found → Option Found
  unfolding visit
  scan [] found = some found
  scan (pair ∷ pairs) found =
      Option.bind (visit pair found)
        λ next. let rest = scan pairs next in if is_full next then some next else rest

abbrev pub Parsed : UrlCrate → Type 0
Parsed U = Result Magnet (MagnetParseError U.ParseError)

module _ (U : UrlCrate) (table : CaseTable) where
  abbrev finish : String → Found → Parsed U
  finish s found = elim found.hash [
    | none ↦ err (missing_info_hash s)
    | some h ↦ ok (record { raw = s; info_hash = h; name = found.name })
  ]

  abbrev parse_url : String → U.Url → Option (Parsed U)
  parse_url s url =
      if str_eq (U.scheme url) "magnet"
      then Option.map (finish s)
          (scan table (U.query_pairs url) (record { hash = none; name = none }))
      else some (err (invalid_scheme (U.scheme url)))

  unfoldable pub from_str : String → Option (Parsed U)
  unfolding scan
  from_str s = elim (U.parse s) [ err e ↦ some (err (invalid_uri e)) | ok url ↦ parse_url s url ]

  -- `serde`: a magnet is stored as its text, and read by parsing it.
  unfoldable pub deserialize : String → Option (Parsed U)
  unfolding from_str
  deserialize s = from_str s

unfoldable pub serialize : Magnet → String
serialize m = m.raw
