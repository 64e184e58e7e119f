-- ===== src/App/Import.antt =====
-- `App::import_downloads` and `App::import_download` of app/mod.rs: the files of finished torrents are
-- copied to where their downloads want them. Errors are logged there, and leave only the state.
pub mod Step
pub mod Placed
pub mod Laws
use magnarr.Prelude.{
  ℕ, suc, String, ◌<>◌, Bool, Option, none, some, List, [], ◌∷◌, ◌++◌, map, Result, ok, err,
}
use magnarr.Prelude.{collect, map_ok, ◌>>=◌, str_eq, ◌||◌, if◌then◌else◌}
use magnarr.Prelude.FilePath.{join, is_absolute, split_slash}
use magnarr.Types.Download.{Download, DownloadStatus, touch}
use magnarr.App.Repository.{DownloadEntry, RepositoryError, asc}
use magnarr.App.World.{Deps, World}
use magnarr.App.Files.{Node, IoError, Components, drop_last, copy_recursive}
use mathlib.Core.Option

abbrev pub up : Components → Components
up [] = []
up (c ∷ p) = drop_last c p

-- The components of a path from the root: without links, `..` takes the last one back.
unfoldable pub descend : Components → List String → Components
descend at [] = at
descend at (part ∷ parts) =
    descend
      (if str_eq part "" || str_eq part "."
        then at
        else if str_eq part ".."
        then up at
        else at ++ part ∷ [])
      parts

-- The field `download_dir` of `App`, the working directory of the process, how an error of a copy is
-- displayed, and whether the token is cancelled when it is asked for the n-th time.
pub record Site : Type 0 where
  pub download_dir : String
  pub cwd : Components
  pub display : IoError → String
  pub cancelled : ℕ → Bool

module _ (S : Site) where
  unfoldable pub resolve : String → Components
  unfolding descend
  resolve path = descend (if is_absolute path then [] else S.cwd) (split_slash "" path)

  unfoldable pub source : Download → Components
  unfolding resolve
  source d = resolve (join S.download_dir d.content_name)

  unfoldable pub import_path : Download → String
  import_path d = join d.target_dir d.content_name

  unfoldable pub destination : Download → Components
  unfolding resolve import_path
  destination d = resolve (import_path d)

  -- The record after the copy has answered.
  unfoldable pub concluded : Result (Unit {0}) IoError → Download → Download
  unfolding import_path
  concluded (ok _) d = record d {
    status = DownloadStatus.imported;
    imported_path = some (import_path d);
  }
  concluded (err e) d = record d {
    status = DownloadStatus.failed;
    error = some ("Import failed: " <> S.display e);
  }

  module _ (A : Deps) where
    unfoldable pub conclude : Result (Unit {0}) IoError → Download → World A → World A
    unfolding concluded touch
    conclude r d w = record w {
      repository = (A.R.update (touch (A.reading w.ticks) (concluded r d)) w.repository).1;
      ticks = suc w.ticks;
    }

    -- `none` where the fuel of the copy was not enough.
    unfoldable pub import_download : ℕ → Download → World A → Node → Option (World A × Node)
    unfolding source destination conclude
    import_download fuel d w root =
        Option.map (λ (r, root'). (conclude r d w, root'))
          (copy_recursive fuel (source d) (destination d) root)

    -- The loop, with the number of times that the token was asked.
    unfoldable pub import_each : ℕ → ℕ → List Download → World A → Node → Option (World A × Node)
    unfolding import_download
    import_each fuel n [] w root = some (w, root)
    import_each fuel n (d ∷ ds) w root =
        let rest : World A × Node → Option (World A × Node) =
          λ (w', root'). import_each fuel (suc n) ds w' root' in
        if S.cancelled n then some (w, root) else Option.bind (import_download fuel d w root) rest

    unfoldable pub get_importing : A.R.State → Result (List Download) RepositoryError
    get_importing s = A.R.scan_by_status DownloadStatus.importing none asc s >>= λ iter.
        collect (map (map_ok (λ (e : DownloadEntry). e.download)) iter)

    unfoldable pub import_downloads : ℕ → World A → Node → Option (World A × Node)
    unfolding get_importing import_each
    import_downloads fuel w root = elim (get_importing w.repository) [
      | err e ↦ some (w, root)
      | ok importing ↦ import_each fuel 0 importing w root
    ]
