-- ===== src/Store.antt =====
-- store/download.rs: the repository over a `collette` collection with two indexes. The collection is a
-- parameter; its keys, and the scans that the store asks of it, are the source's.
pub mod Promises
pub mod Laws
pub mod Listing
pub mod Paging
pub mod Shown
use magnarr.Prelude.{
  ℕ, String, Option, none, some, List, map, Result, ok, err, map_ok, map_err, ◌>>=◌,
}
use magnarr.Prelude.Int.{ℤ}
use magnarr.Types.Download.{DateTime, Download, DownloadStatus}
use magnarr.App.Repository.{SortOrder, asc, desc, DownloadCursor, DownloadEntry, RepositoryError}
use magnarr.App.Repository.{DownloadRepository, Scan, Entries}

-- `collette`'s types.
pub data CollectionError : Type 0 where
  not_found already_exists unexpected backend codec : String → CollectionError
  cursor_out_of_bounds : CollectionError

pub data Cursor : Type 0 where
  no_key : Cursor
  key : List ℕ → Cursor

pub data Direction : Type 0 where
  left_to_right right_to_left : Direction

-- The two indexes that the collection is built with.
pub data Index : Type 0 where
  created_at status_and_created_at : Index

-- A scan as its builder describes it.
pub record ScanRequest : Type 0 where
  pub index : Index
  pub prefix : Option DownloadStatus
  pub range_from : Option ℤ
  pub direction : Direction
  pub after : Cursor

pub record IndexEntry : Type 0 where
  pub key : Cursor
  pub item : Download

pub record Collection : Type 1 where
  pub State : Type 0
  pub insert : Download → State → Result (Unit {0}) CollectionError × State
  pub get : String → State → Result (Option Download) CollectionError
  pub update : Download → State → Result (Unit {0}) CollectionError × State
  pub remove : String → State → Result (Unit {0}) CollectionError × State
  pub iter : ScanRequest → State → Result (List (Result IndexEntry CollectionError)) CollectionError

-- `impl_enum_key!`
unfoldable pub status_key : DownloadStatus → ℕ
status_key DownloadStatus.queued = 0
status_key DownloadStatus.submitted = 1
status_key DownloadStatus.downloading = 2
status_key DownloadStatus.importing = 3
status_key DownloadStatus.imported = 4
status_key DownloadStatus.failed = 5

-- `Item::key`
unfoldable pub item_key : Download → String
item_key d = d.info_hash

unfoldable pub direction_of : SortOrder → Direction
direction_of asc = left_to_right
direction_of desc = right_to_left

unfoldable pub to_collette_cursor : Option DownloadCursor → Cursor
to_collette_cursor none = no_key
to_collette_cursor (some c) = key c.raw

unfoldable pub from_collection_error : CollectionError → RepositoryError
from_collection_error (not_found _) = RepositoryError.not_found
from_collection_error (already_exists _) = RepositoryError.already_exists
from_collection_error (unexpected s) = RepositoryError.storage s
from_collection_error (backend e) = RepositoryError.storage e
from_collection_error (codec e) = RepositoryError.serde e
from_collection_error cursor_out_of_bounds = RepositoryError.invalid_cursor

-- One item of `DownloadScanIter`.
unfoldable pub scan_entry : IndexEntry → Result DownloadEntry RepositoryError
scan_entry e = elim e.key [
  | key k ↦ ok (record { download = e.item; cursor = record { raw = k } })
  | no_key ↦ err (RepositoryError.storage "missing cursor on download entry")
]

unfoldable pub scan_item : Result IndexEntry CollectionError → Result DownloadEntry RepositoryError
unfolding scan_entry from_collection_error
scan_item r = map_err from_collection_error r >>= scan_entry

-- `micros` is `timestamp_micros`.
module _ (K : Collection) (micros : DateTime → ℤ) where
  -- `CreatedAt::key` and `StatusAndCreatedAt::key`; the first is the time alone.
  unfoldable pub index_key : Index → Download → ℕ × ℤ
  unfolding status_key
  index_key created_at d = (0, micros d.created_at)
  index_key status_and_created_at d = (status_key d.status, micros d.created_at)

  unfoldable pub run_scan : ScanRequest → K.State → Scan
  unfolding scan_item
  run_scan request s = map_ok (map scan_item) (map_err from_collection_error (K.iter request s))

  unfoldable pub scan_all : Option DownloadCursor → SortOrder → K.State → Scan
  unfolding run_scan direction_of to_collette_cursor
  scan_all after order = run_scan (record {
    index = created_at;
    prefix = none;
    range_from = none;
    direction = direction_of order;
    after = to_collette_cursor after;
  })

  unfoldable pub scan_by_status :
      DownloadStatus → Option DownloadCursor → SortOrder → K.State → Scan
  unfolding run_scan direction_of to_collette_cursor
  scan_by_status status after order = run_scan (record {
    index = status_and_created_at;
    prefix = some status;
    range_from = none;
    direction = direction_of order;
    after = to_collette_cursor after;
  })

  unfoldable pub scan_since : DateTime → Option DownloadCursor → SortOrder → K.State → Scan
  unfolding run_scan direction_of to_collette_cursor
  scan_since since after order = run_scan (record {
    index = created_at;
    prefix = none;
    range_from = some (micros since);
    direction = direction_of order;
    after = to_collette_cursor after;
  })

  unfoldable pub scan_by_status_since :
      DownloadStatus → DateTime → Option DownloadCursor → SortOrder → K.State → Scan
  unfolding run_scan direction_of to_collette_cursor
  scan_by_status_since status since after order = run_scan (record {
    index = status_and_created_at;
    prefix = some status;
    range_from = some (micros since);
    direction = direction_of order;
    after = to_collette_cursor after;
  })

  abbrev found : Option Download → Result Download RepositoryError
  found none = err RepositoryError.not_found
  found (some d) = ok d

  unfoldable pub get : String → K.State → Result Download RepositoryError
  unfolding from_collection_error
  get h s = map_err from_collection_error (K.get h s) >>= found

  -- A write of the collection with its error converted.
  abbrev converted :
      Result (Unit {0}) CollectionError × K.State → Result (Unit {0}) RepositoryError × K.State
  converted (r, s) = (map_err from_collection_error r, s)

  unfoldable pub insert : Download → K.State → Result (Unit {0}) RepositoryError × K.State
  unfolding from_collection_error
  insert d s = converted (K.insert d s)

  unfoldable pub update : Download → K.State → Result (Unit {0}) RepositoryError × K.State
  unfolding from_collection_error
  update d s = converted (K.update d s)

  unfoldable pub remove : String → K.State → Result (Unit {0}) RepositoryError × K.State
  unfolding from_collection_error
  remove h s = converted (K.remove h s)

  -- `impl DownloadRepository for DownloadStore`
  abbrev pub download_store : DownloadRepository
  download_store = record {
    State = K.State;
    insert = insert;
    get = get;
    scan_all = scan_all;
    scan_by_status = scan_by_status;
    scan_since = scan_since;
    scan_by_status_since = scan_by_status_since;
    update = update;
    remove = remove;
  }
