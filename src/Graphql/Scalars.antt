-- ===== src/Graphql/Scalars.antt =====
-- graphql/scalars.rs: the scalar `MagnetUri`. `async_graphql`'s values are a parameter.
pub mod Laws
use magnarr.Prelude.{String, ◌≡◌, refl, Option, none, some, Result, ok, err, map_err}
use magnarr.Prelude.Text.{CaseTable}
use magnarr.Types.Magnet.{UrlCrate, Magnet, MagnetParseError, from_str}
use mathlib.Core.Option

pub record GraphqlValue : Type 1 where
  pub Value : Type 0
  pub string : String → Value
  pub as_string : Value → Option String

pub data InputValueError (Value ParseError : Type 0) : Type 0 where
  custom : MagnetParseError ParseError → InputValueError Value ParseError
  expected_type : Value → InputValueError Value ParseError

module _ (U : UrlCrate) (table : CaseTable) (V : GraphqlValue) where
  -- `none` is a panic of the magnet's parser.
  unfoldable pub parse : V.Value → Option (Result Magnet (InputValueError V.Value U.ParseError))
  parse value = elim (V.as_string value) [
    | some s ↦ Option.map (map_err custom) (from_str U table s)
    | none ↦ some (err (expected_type value))
  ]

module _ (V : GraphqlValue) where
  unfoldable pub to_value : Magnet → V.Value
  to_value magnet = V.string magnet.raw
