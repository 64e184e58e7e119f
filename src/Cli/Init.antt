-- ===== src/Cli/Init.antt =====
-- cli/init.rs: the command that makes the home directory.
pub mod Laws
use magnarr.Prelude.{ℕ, String, Result, ok, err, if◌then◌else◌}
use magnarr.App.Repository.{RepositoryError}
use magnarr.Cli.Config.{Config, default_config, get_config_path, resolve_path}
use magnarr.Cli.Host.{Host}
use magnarr.Cli.Open.{new}

-- The exit code, and the machine behind the command. `to_yaml` is `serde_yaml::to_string`.
module _ (N : Host) (to_yaml : Config → Result String String) where
  abbrev pub Exit : Type 0
  Exit = ℕ × N.State

  abbrev pub opened : Result N.Db RepositoryError × N.State → Exit
  opened (ok _, s) = (0, s)
  opened (err e, s) = (1, s)

  unfoldable pub open_store : String → Result (Unit {0}) String × N.State → Exit
  unfolding new resolve_path
  open_store home (err e, s) = (1, s)
  open_store home (ok _, s) = opened (new N (resolve_path default_config.store home) s)

  unfoldable pub write_config : String → Result String String → N.State → Exit
  unfolding open_store get_config_path
  write_config home (err e) s = (1, s)
  write_config home (ok yaml) s = open_store home (N.write (get_config_path home) yaml s)

  unfoldable pub fill_home : String → Result (Unit {0}) String × N.State → Exit
  unfolding write_config
  fill_home home (err e, s) = (1, s)
  fill_home home (ok _, s) = write_config home (to_yaml default_config) s

  unfoldable pub run : String → N.State → Exit
  unfolding fill_home
  run home s = if N.exists home s then (1, s) else fill_home home (N.create_dir_all home s)
