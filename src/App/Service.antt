-- ===== src/App/Service.antt =====
-- app/service.rs: the trait of the service behind the API, and the iterator that it hands out.
use magnarr.Prelude.{String, List, map, Option, Result, map_err}
use magnarr.Types.Magnet.{Magnet}
use magnarr.Types.Download.{DateTime, Download, DownloadStatus}
use magnarr.App.Repository.{DownloadCursor, DownloadEntry, Entries, SortOrder}
use magnarr.App.Errors.{AppError, repository}

abbrev pub ServiceEntries : Type 0
ServiceEntries = List (Result DownloadEntry AppError)

pub record DownloadService : Type 1 where
  pub State : Type 0
  pub download : Magnet → String → State → Result Download AppError × State
  pub downloads :
      Option DownloadStatus
      → Option DateTime
      → Option DownloadCursor
      → SortOrder
      → State
      → Result ServiceEntries AppError

-- `DownloadIter`: the items of a repository's iterator, with their errors converted.
unfoldable pub download_iter : Entries → ServiceEntries
download_iter = map (map_err repository)
