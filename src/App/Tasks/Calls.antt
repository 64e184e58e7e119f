-- ===== src/App/Tasks/Calls.antt =====
-- How a call of `App::download` (app/mod.rs) ends, whatever the other tasks do while it is under way.
use magnarr.Prelude.{String, ◌≡◌, ◌≢◌, ◌⊎◌, Option, none, some}
use magnarr.Prelude.{Result, ok, err}
use magnarr.Types.Magnet.{Magnet}
use magnarr.Types.Download.{Download, queued, submitted}
use magnarr.App.Repository.Contract.{Contract, View, put, Same}
use magnarr.App.Errors.{AppError, already_exists, repository, torrent_client}
use magnarr.App.World.{Deps, World}
use magnarr.App.Tasks.{Call, owner, arrived, accepted, refused, returned}
use magnarr.App.Tasks.Edges.{Kept}

abbrev result_of : Call → Option (Result Download AppError)
result_of (returned r) = some r
result_of _ = none

module _ (A : Deps) (C : Contract A.R) where
  -- The record that the call has inserted is in the map, and `Queued`.
  abbrev pub Inserted : View → Download → Type 0
  Inserted v d = (v d.info_hash ≡ some d) × (d.status ≡ queued)

  -- The step that ends the call `c` with a result: from the state `s` of the repository, whose map becomes
  -- `w`.
  abbrev pub Ended : A.R.State → View → Call → Result Download AppError → Type 0
  Ended s w c (ok d) =
      (before : Download) × (c ≡ accepted before)
      × Inserted (C.view s) before
      × Kept before d
      × (d.status ≡ submitted)
      × Same (put d.info_hash (some d) (C.view s)) w
  Ended s w c (err already_exists) =
      (magnet : Magnet) × (target_dir : String) × (c ≡ arrived magnet target_dir)
      × (C.view s magnet.info_hash ≢ none)
      × Same (C.view s) w
  Ended s w c (err (torrent_client e)) =
      (d : Download) × (c ≡ refused d e)
      × Inserted (C.view s) d
      × (Same (put d.info_hash none (C.view s)) w
          ⊎ (((A.R.remove d.info_hash s).0 ≢ ok tt) × Same (C.view s) w))
  Ended s w c (err (repository e)) =
      ((owner c ≡ none) ⊎ ((d : Download) × (c ≡ accepted d) × Inserted (C.view s) d))
      × Same (C.view s) w

  -- If the step ends the call, it ends it so.
  abbrev Ends : A.R.State → View → Call → Call → Type 0
  Ends s w c c' = (r : Result Download AppError) → c' ≡ returned r → Ended s w c r
