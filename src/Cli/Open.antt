-- ===== src/Cli/Open.antt =====
-- `DownloadStore::new` of store/download.rs, as the commands call it.
use magnarr.Prelude.{String, Option, none, some, Result, ok, err, str_eq, if◌then◌else◌, map_err}
use magnarr.Prelude.FilePath.{parent}
use magnarr.App.Repository.{RepositoryError, storage}
use magnarr.Cli.Host.{Host}

module _ (N : Host) where
  -- An error of the call is kept as its text.
  abbrev pub Opening : Type 0 → Type 0
  Opening Made = N.State → Result Made RepositoryError × N.State

  unfoldable pub create_parent : Option String → Opening Unit
  create_parent none s = (ok tt, s)
  create_parent (some dir) s =
      let (r, s') = N.create_dir_all dir s in
      if str_eq dir "" then (ok tt, s) else (map_err storage r, s')

  abbrev pub then_open : String → Result (Unit {0}) RepositoryError → Opening N.Db
  then_open path (err e) s = (err e, s)
  then_open path (ok _) s = let (r, s') = N.create_db path s in (map_err storage r, s')

  unfoldable pub new : String → Opening N.Db
  unfolding create_parent parent
  new path s = let (r, s') = create_parent (parent path) s in then_open path r s'
