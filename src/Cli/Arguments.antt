-- ===== src/Cli/Arguments.antt =====
-- cli/mod.rs and cli/version.rs: the command line, what it selects, and the filter of the log.
use magnarr.Prelude.{ℕ, String, ◌<>◌, Option, none, some, List, [], ◌∷◌, Result, ok, err}
use magnarr.Prelude.Int.{ℤ, pos}
use magnarr.Cli.Config.{Config}
use magnarr.Cli.Load.{StartArgs, ConfigCrate}
use magnarr.Cli.Host.{Host}
use magnarr.Cli.Init as Init
use magnarr.Cli.Start as Start

pub data LogLevel : Type 0 where
  trace debug info warn error : LogLevel

unfoldable pub as_ref : LogLevel → String
as_ref trace = "trace"
as_ref debug = "debug"
as_ref info = "info"
as_ref warn = "warn"
as_ref error = "error"

-- `PathArg::from_str`, which never fails; `tilde` is `shellexpand::tilde`.
unfoldable pub from_str : (String → String) → String → String
from_str tilde value = tilde value

pub data Command : Type 0 where
  start : StartArgs → Command
  init version : Command

pub record Cli : Type 0 where
  pub command : Command
  pub home : String
  pub log_level : Option LogLevel

-- `init_tracing`: `parse` is `EnvFilter::new`, and `from_env` what `try_from_default_env` returns.
unfoldable pub init_tracing :
    {Filter E : Type 0} → (String → Filter) → Result Filter E → Option LogLevel → Filter
unfolding as_ref
init_tracing parse from_env (some l) = parse (as_ref l)
init_tracing parse (ok filter) none = filter
init_tracing parse (err e) none = parse "info"

-- What the build has put into the program, and what `chrono` and the parser of numbers make of it.
pub record BuildInfo : Type 0 where
  pub pkg_version : String
  pub git_hash : String
  pub build_timestamp : String
  pub parse_i64 : String → Option ℤ
  pub format_timestamp : ℤ → Option String

abbrev or_zero : Option ℤ → ℤ
or_zero none = pos 0
or_zero (some n) = n

abbrev or_unknown : Option String → String
or_unknown none = "unknown"
or_unknown (some s) = s

-- `version::run`: the lines that it prints.
unfoldable pub version_lines : BuildInfo → List String
version_lines B =
    ("magnarr " <> B.pkg_version)
    ∷ ("Commit:  " <> B.git_hash)
    ∷ ("Built:   " <> or_unknown (B.format_timestamp (or_zero (B.parse_i64 B.build_timestamp))))
    ∷ []

-- How the program ends: it serves, exits with a code, or has printed lines.
pub data Outcome : Type 0 where
  started : Start.Ending → Outcome
  initialized : ℕ → Outcome
  printed : List String → Outcome

module _ (K : ConfigCrate) (N : Host) (to_yaml : Config → Result String String)
    (B : BuildInfo) where
  -- `run`, once the command line is parsed.
  unfoldable pub run : Cli → N.State → Outcome × N.State
  unfolding Start.run Init.run version_lines
  run cli s = elim cli.command [
    | start args ↦ let (end, s') = Start.run K N cli.home args s in (started end, s')
    | init ↦ let (code, s') = Init.run N to_yaml cli.home s in (initialized code, s')
    | version ↦ (printed (version_lines B), s)
  ]
