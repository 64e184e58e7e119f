-- ===== src/Tests/Unit/Parsing.antt =====
-- The tests of types/magnet.rs and of types/download.rs. The `url` crate knows the texts of its cases.
use magnarr.Prelude.{String, ◌≡◌, refl, Bool, true, false, ◌&&◌, Option, none, some, List, [], ◌∷◌}
use magnarr.Prelude.{Result, ok, err, str_eq, if◌then◌else◌}
use magnarr.Prelude.Text.{to_lowercase, eq_ignore_ascii_case, starts_with, drop_bytes}
use mathlib.Core.Option
use magnarr.Types.Magnet.{
  UrlCrate, MagnetParseError, invalid_uri, invalid_scheme, missing_info_hash,
}
use magnarr.Types.Magnet.{Parsed, from_str}
use magnarr.Tests.Links.{table}
use magnarr.Tests.Unit.Doubles.{magnet, same_name}
use magnarr.Prelude.Int.{ℤ, pos, leb_ℤ}
use magnarr.Types.Download.{DownloadStatus, new, status_eq}

abbrev upper : String
upper = "ABCDEF1234567890ABCDEF1234567890ABCDEF12"

abbrev lower : String
lower = "abcdef1234567890abcdef1234567890abcdef12"

abbrev Pairs : Type 0
Pairs = String × List (String × String)

-- The scheme and the pairs of each text that is a URL.
abbrev known : List (String × Pairs)
known =
    (
      "magnet:?xt=urn:btih:ABCDEF1234567890ABCDEF1234567890ABCDEF12&dn=test",
      ("magnet", ("xt", "urn:btih:ABCDEF1234567890ABCDEF1234567890ABCDEF12") ∷ ("dn", "test") ∷ []),
    )
    ∷ (
      "magnet:?xt=urn:btih:ABCDEF1234567890ABCDEF1234567890ABCDEF12",
      ("magnet", ("xt", "urn:btih:ABCDEF1234567890ABCDEF1234567890ABCDEF12") ∷ []),
    )
    ∷ (
      "magnet:?xt=urn:btih:abcdef1234567890abcdef1234567890abcdef12&dn=lower",
      (
        "magnet",
        ("xt", "urn:btih:abcdef1234567890abcdef1234567890abcdef12") ∷ ("dn", "lower") ∷ [],
      ),
    )
    ∷ ("magnet:?dn=nodisplay", ("magnet", ("dn", "nodisplay") ∷ []))
    ∷ ("https://example.com", ("https", []))
    ∷ []

abbrev parse_in : List (String × Pairs) → String → Result Pairs String
parse_in [] s = err "relative URL without a base"
parse_in ((text, url) ∷ rest) s = let r = parse_in rest s in if str_eq s text then ok url else r

abbrev url : UrlCrate
url = record {
  Url = Pairs;
  ParseError = String;
  parse = parse_in known;
  scheme = λ u. u.0;
  query_pairs = λ u. u.1;
}

abbrev ParseOk : Type 0
ParseOk = String × (String × Option String)

abbrev is_parsed : Option (Parsed url) → String → Option String → Bool
is_parsed (some (ok m)) info_hash name = str_eq m.info_hash info_hash && same_name m.name name
is_parsed _ _ _ = false

unfoldable all_parsed : List ParseOk → Bool
unfolding from_str
all_parsed [] = true
all_parsed ((input, (info_hash, name)) ∷ cases) =
    is_parsed (from_str url table input) info_hash name && all_parsed cases

unfoldable parse_valid_magnets : Bool
unfolding all_parsed
parse_valid_magnets = all_parsed (
    ("magnet:?xt=urn:btih:ABCDEF1234567890ABCDEF1234567890ABCDEF12&dn=test", (upper, some "test"))
    ∷ ("magnet:?xt=urn:btih:ABCDEF1234567890ABCDEF1234567890ABCDEF12", (upper, none))
    ∷ (
      "magnet:?xt=urn:btih:abcdef1234567890abcdef1234567890abcdef12&dn=lower",
      (lower, some "lower"),
    )
    ∷ [])

valid_magnets : parse_valid_magnets ≡ true
unfolding parse_valid_magnets to_lowercase Option.bind eq_ignore_ascii_case starts_with drop_bytes
valid_magnets = refl

abbrev is_missing_info_hash : MagnetParseError String → Bool
is_missing_info_hash (missing_info_hash s) = true
is_missing_info_hash _ = false

abbrev is_invalid_scheme : MagnetParseError String → Bool
is_invalid_scheme (invalid_scheme s) = true
is_invalid_scheme _ = false

abbrev is_invalid_uri : MagnetParseError String → Bool
is_invalid_uri (invalid_uri e) = true
is_invalid_uri _ = false

abbrev ParseErr : Type 0
ParseErr = String × (MagnetParseError String → Bool)

abbrev is_refused : Option (Parsed url) → (MagnetParseError String → Bool) → Bool
is_refused (some (err e)) error = error e
is_refused _ _ = false

unfoldable all_refused : List ParseErr → Bool
unfolding from_str
all_refused [] = true
all_refused ((input, error) ∷ cases) =
    is_refused (from_str url table input) error && all_refused cases

unfoldable parse_invalid_magnets : Bool
unfolding all_refused
parse_invalid_magnets = all_refused (
    ("magnet:?dn=nodisplay", is_missing_info_hash)
    ∷ ("https://example.com", is_invalid_scheme)
    ∷ ("not a uri !!@@##", is_invalid_uri)
    ∷ [])

invalid_magnets : parse_invalid_magnets ≡ true
unfolding parse_invalid_magnets to_lowercase Option.bind eq_ignore_ascii_case starts_with drop_bytes
invalid_magnets = refl

abbrev is_equal : ℤ → ℤ → Bool
is_equal a b = leb_ℤ a b && leb_ℤ b a

unfoldable download_new_sets_correct_initial_values : Bool
unfolding new status_eq
download_new_sets_correct_initial_values =
    let dl = new (pos 500) magnet "/downloads" in
    status_eq dl.status DownloadStatus.queued
    && str_eq dl.name "test"
    && str_eq dl.target_dir "/downloads"
    && str_eq dl.info_hash "ABCDEF1234567890ABCDEF1234567890ABCDEF12"
    && same_name dl.imported_path none
    && same_name dl.error none
    && is_equal dl.created_at dl.updated_at

initial_values : download_new_sets_correct_initial_values ≡ true
unfolding download_new_sets_correct_initial_values
initial_values = refl
