-- ===== src/Tests/Links.antt =====
-- Runs of types/magnet.rs and graphql/scalars.rs, and the witnesses of what is proved of them.
use magnarr.Prelude.{String, ◌≡◌, refl, inl, some, List, [], ◌∷◌, Result, ok, err, str_eq}
use magnarr.Prelude.{if◌then◌else◌}
use magnarr.Prelude.Text.{CaseTable, to_lowercase, eq_ignore_ascii_case, starts_with, drop_bytes}
use mathlib.Core.Option
use magnarr.Types.Magnet.{UrlCrate, from_str, serialize, deserialize}
use magnarr.Types.Magnet.Prefix.{IsCaseTable}
use magnarr.Types.Magnet.Answers.{Answer, from_str-Answer, deserialize-serialize}
use magnarr.Graphql.Scalars.{GraphqlValue, parse, to_value}
use magnarr.Graphql.Scalars.Laws.{parse-to_value}
use magnarr.Tests.Fixtures.{link, magnet}

-- Knows the addresses of the runs.
abbrev parse_known : String → Result (String × List (String × String)) String
parse_known s =
    if str_eq s link
    then ok ("magnet", ("xt", "URN:btih:AB12") ∷ ("dn", "Show") ∷ [])
    else if str_eq s "http://host"
    then ok ("http", [])
    else err "relative URL without a base"

abbrev pub url : UrlCrate
url = record {
  Url = String × List (String × String);
  ParseError = String;
  parse = parse_known;
  scheme = λ u. u.0;
  query_pairs = λ u. u.1;
}

abbrev pub table : CaseTable
table before c after = c ∷ []

table-IsCaseTable : IsCaseTable table
table-IsCaseTable = record { outside = λ before c after h. inl h }

from_str-link : from_str url table link ≡ some (ok magnet)
unfolding from_str to_lowercase Option.bind eq_ignore_ascii_case starts_with drop_bytes
from_str-link = refl

abbrev pub value : GraphqlValue
value = record { Value = String; string = λ s. s; as_string = λ s. some s }

from_str-Answer_example : Answer url table table-IsCaseTable link (from_str url table link)
from_str-Answer_example = from_str-Answer url table table-IsCaseTable link

deserialize-serialize_example : deserialize url table (serialize magnet) ≡ some (ok magnet)
deserialize-serialize_example =
    deserialize-serialize url table table-IsCaseTable link magnet from_str-link

parse-to_value_example : parse url table value (to_value value magnet) ≡ some (ok magnet)
parse-to_value_example =
    parse-to_value url table value link magnet table-IsCaseTable (λ t. refl) from_str-link
