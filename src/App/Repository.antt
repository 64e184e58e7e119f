-- ===== src/App/Repository.antt =====
-- app/repository.rs: the trait of a download repository, and what its callers rely on.
pub mod Contract
use magnarr.Prelude.{ℕ, String, List, Option, Result}
use magnarr.Types.Download.{DateTime, Download, DownloadStatus}

pub data SortOrder : Type 0 where
  asc desc : SortOrder

-- `#[default] Desc`
abbrev pub default_order : SortOrder
default_order = desc

-- The bytes of a position, opaque to everyone but the store.
pub record DownloadCursor : Type 0 where
  pub raw : List ℕ

pub record DownloadEntry : Type 0 where
  pub download : Download
  pub cursor : DownloadCursor

pub data RepositoryError : Type 0 where
  not_found already_exists invalid_cursor : RepositoryError
  storage serde : String → RepositoryError

-- What an iterator of a scan yields, in order: the scan reads one snapshot of the store.
abbrev pub Entries : Type 0
Entries = List (Result DownloadEntry RepositoryError)

abbrev pub Scan : Type 0
Scan = Result Entries RepositoryError

pub record DownloadRepository : Type 1 where
  pub State : Type 0
  pub insert : Download → State → Result (Unit {0}) RepositoryError × State
  pub get : String → State → Result Download RepositoryError
  pub scan_all : Option DownloadCursor → SortOrder → State → Scan
  pub scan_by_status : DownloadStatus → Option DownloadCursor → SortOrder → State → Scan
  pub scan_since : DateTime → Option DownloadCursor → SortOrder → State → Scan
  pub scan_by_status_since :
      DownloadStatus → DateTime → Option DownloadCursor → SortOrder → State → Scan
  pub update : Download → State → Result (Unit {0}) RepositoryError × State
  pub remove : String → State → Result (Unit {0}) RepositoryError × State
