-- ===== src/Graphql/Scalars/Laws.antt =====
-- Round trips of the scalar `MagnetUri` of graphql/scalars.rs.
use magnarr.Prelude.{String, ◌≡◌, refl, ◌∙◌, ap, some, ok}
use magnarr.Prelude.Text.{CaseTable}
use magnarr.Types.Magnet.{UrlCrate, Magnet, from_str}
use magnarr.Types.Magnet.Prefix.{IsCaseTable}
use magnarr.Types.Magnet.Answers.{raw-Answer, from_str-Answer}
use magnarr.Graphql.Scalars.{GraphqlValue, parse, to_value}

module _ (U : UrlCrate) (table : CaseTable) (V : GraphqlValue) where
  -- A magnet that a client sends and gets back parses to the same magnet, when a string value is read
  -- back as that string and the table of lower cases is Unicode's.
  pub parse-to_value :
      (s : String) (m : Magnet)
      → IsCaseTable table
      → ((t : String) → V.as_string (V.string t) ≡ some t)
      → from_str U table s ≡ some (ok m)
      → parse U table V (to_value V m) ≡ some (ok m)
  unfolding parse to_value
  parse-to_value s m unicode strings h = rw (strings m.raw, parse, raw_parses) refl
    where
      raw_parses : from_str U table m.raw ≡ some (ok m)
      raw_parses =
          ap (from_str U table)
            (raw-Answer U table unicode s _ m (from_str-Answer U table unicode s) h)
          ∙ h
