-- ===== src/App/Poll.antt =====
-- `App::poll_downloads` and `App::get_pending_downloads` of app/mod.rs. Errors are logged there, and
-- so leave only the state: a step is a function from world to world.
pub mod Step
pub mod Pending
pub mod Laws
use magnarr.Prelude.{suc, none, List, [], ◌∷◌, ◌++◌, map, Result, ok, err, collect, map_ok}
use magnarr.Prelude.{◌>>=◌, not, if◌then◌else◌}
use magnarr.Types.Torrent.{TorrentState, TorrentStatus}
use magnarr.Types.Download.{DateTime, Download, DownloadStatus, touch, status_eq}
use magnarr.App.Repository.{DownloadEntry, RepositoryError, asc}
use magnarr.App.Torrent.{TorrentClientError, not_found}
use magnarr.App.World.{Deps, World}

-- The status that a report moves a download to.
unfoldable pub next_status : TorrentState → DownloadStatus → DownloadStatus
next_status TorrentState.seeding old = DownloadStatus.importing
next_status TorrentState.downloading old = DownloadStatus.downloading
next_status TorrentState.paused old = DownloadStatus.downloading
next_status TorrentState.error old = DownloadStatus.failed
next_status TorrentState.unknown old = old

unfoldable pub refreshed : DateTime → TorrentStatus → DownloadStatus → Download → Download
unfolding touch
refreshed now ts new_status d =
    touch now (record d { name = ts.name; content_name = ts.content_name; status = new_status })

module _ (A : Deps) where
  unfoldable pub get_pending_downloads : A.R.State → Result (List Download) RepositoryError
  get_pending_downloads s = do
    downloading_iter ← A.R.scan_by_status DownloadStatus.downloading none asc s
    submitted_iter ← A.R.scan_by_status DownloadStatus.submitted none asc s
    collect (map (map_ok (λ (e : DownloadEntry). e.download)) (downloading_iter ++ submitted_iter))

  -- The branches on what the client answered for `d`.
  unfoldable pub apply_status :
      Download → Result TorrentStatus TorrentClientError → World A → World A
  unfolding next_status refreshed status_eq
  apply_status d (ok ts) w =
      let new_status = next_status ts.state d.status in
      let d' = refreshed (A.reading w.ticks) ts new_status d in
      if not (status_eq new_status d.status)
      then record w { repository = (A.R.update d' w.repository).1; ticks = suc w.ticks }
      else w
  apply_status d (err (not_found _)) w = record w {
    repository = (A.R.remove d.info_hash w.repository).1;
  }
  apply_status d (err e) w = w

  -- One round of the loop over the pending downloads.
  unfoldable pub poll_download : Download → World A → World A
  poll_download d w =
      let (r, s) = A.T.status d.info_hash w.torrent_client in
      apply_status d r (record w { torrent_client = s })

  unfoldable pub poll_each : List Download → World A → World A
  poll_each [] w = w
  poll_each (d ∷ ds) w = poll_each ds (poll_download d w)

  unfoldable pub poll_downloads : World A → World A
  unfolding get_pending_downloads
  poll_downloads w = elim (get_pending_downloads w.repository) [
    | ok pending ↦ poll_each pending w
    | err e ↦ w
  ]
