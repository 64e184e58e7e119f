-- ===== src/App/Listing.antt =====
-- `App::downloads` of app/mod.rs, and `App` as a service.
use magnarr.Prelude.{Option, none, some, Result, map_ok, map_err}
use magnarr.Types.Download.{DateTime, DownloadStatus}
use magnarr.App.Repository.{DownloadCursor, SortOrder, Scan}
use magnarr.App.Errors.{AppError, repository}
use magnarr.App.Service.{DownloadService, ServiceEntries, download_iter}
use magnarr.App.World.{Deps, World}
use magnarr.App.Submit.{download}

module _ (A : Deps) where
  -- The choice of the scan.
  unfoldable pub scan :
      Option DownloadStatus → Option DateTime → Option DownloadCursor → SortOrder → A.R.State → Scan
  scan (some status) (some since) after order s =
      A.R.scan_by_status_since status since after order s
  scan (some status) none after order s = A.R.scan_by_status status after order s
  scan none (some since) after order s = A.R.scan_since since after order s
  scan none none after order s = A.R.scan_all after order s

  unfoldable pub downloads :
      Option DownloadStatus
      → Option DateTime
      → Option DownloadCursor
      → SortOrder
      → World A
      → Result ServiceEntries AppError
  unfolding scan download_iter
  downloads status from after order w =
      map_ok download_iter (map_err repository (scan status from after order w.repository))

  -- `impl DownloadService for App`
  abbrev pub app_service : DownloadService
  app_service = record { State = World A; download = download A; downloads = downloads }
