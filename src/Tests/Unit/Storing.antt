-- ===== src/Tests/Unit/Storing.antt =====
-- The tests of the operations and the errors in store/download.rs. The shelf stands for the store's file.
use magnarr.Prelude.{ℕ, ◌*◌, ◌^◌, String, ◌≡◌, refl, Bool, true, false, ◌&&◌, none, some}
use magnarr.Prelude.{List, [], ◌∷◌, Result, ok, err, map_ok, ◌>>=◌, collect, map, str_eq}
use magnarr.Prelude.Int.{pos, leb_ℤ}
use magnarr.Types.Magnet.{Magnet}
use magnarr.Types.Download.{Download, DownloadStatus, status_eq, new, touch}
use magnarr.App.Repository.{RepositoryError, Scan, DownloadEntry, asc, desc}
use magnarr.Store.{CollectionError, from_collection_error, insert, get, update, remove}
use magnarr.Store.{scan_all, scan_by_status, scan_since, scan_by_status_since}
use magnarr.Tests.Slot.{micros, selects}
use magnarr.Tests.Unit.Doubles.{same_name, unwrap, is_not_found}
use magnarr.Tests.Unit.Shelf.{Shelf, shelf}

-- The three magnets, as they are parsed.
abbrev pub magnet1 : Magnet
magnet1 = record {
  raw = "magnet:?xt=urn:btih:ABCDEF1234567890ABCDEF1234567890ABCDEF12&dn=test1";
  info_hash = "ABCDEF1234567890ABCDEF1234567890ABCDEF12";
  name = some "test1";
}

abbrev pub magnet2 : Magnet
magnet2 = record {
  raw = "magnet:?xt=urn:btih:FEDCBA0987654321FEDCBA0987654321FEDCBA09&dn=test2";
  info_hash = "FEDCBA0987654321FEDCBA0987654321FEDCBA09";
  name = some "test2";
}

abbrev pub magnet3 : Magnet
magnet3 = record {
  raw = "magnet:?xt=urn:btih:1111111111111111111111111111111111111111&dn=test3";
  info_hash = "1111111111111111111111111111111111111111";
  name = some "test3";
}

-- The clock of `Download::new` stands still at 500.
unfoldable pub make_download : Magnet → Download
unfolding new
make_download magnet = new (pos 500) magnet "/downloads"

unfoldable pub make_download_at : Magnet → DownloadStatus → ℕ → Download
unfolding make_download
make_download_at magnet status timestamp = record (make_download magnet) {
  status = status;
  created_at = pos (timestamp * 10 ^ 9);
  updated_at = pos (timestamp * 10 ^ 9);
}

unfoldable pub collect_downloads : Scan → Result (List Download) RepositoryError
collect_downloads scan =
    scan >>= λ es. collect (map (map_ok (λ (e : DownloadEntry). e.download)) es)

-- `store.insert(&d).unwrap()`, one after the other, into a new store.
unfoldable pub inserted : List Download → Shelf → Result Shelf RepositoryError
unfolding insert
inserted [] s = ok s
inserted (d ∷ ds) s =
    let (r, s') = insert shelf micros d s in let rest = inserted ds s' in r >>= λ _. rest

abbrev with_error : {A : Type 0} → Result A RepositoryError → (RepositoryError → Bool) → Bool
with_error (ok a) check = false
with_error (err e) check = check e

abbrev pub is_invalid_cursor : RepositoryError → Bool
is_invalid_cursor RepositoryError.invalid_cursor = true
is_invalid_cursor _ = false

abbrev is_already_exists : RepositoryError → Bool
is_already_exists RepositoryError.already_exists = true
is_already_exists _ = false

abbrev is_storage : String → RepositoryError → Bool
is_storage text (RepositoryError.storage message) = str_eq message text
is_storage text _ = false

unfoldable pub is_empty : Scan → Bool
unfolding collect_downloads
is_empty scan = unwrap (collect_downloads scan) (λ ds. elim ds [ [] ↦ true | d ∷ rest ↦ false ])

unfoldable cursor_out_of_bounds_maps_to_invalid_cursor : Bool
unfolding from_collection_error
cursor_out_of_bounds_maps_to_invalid_cursor =
    is_invalid_cursor (from_collection_error CollectionError.cursor_out_of_bounds)

invalid_cursor : cursor_out_of_bounds_maps_to_invalid_cursor ≡ true
unfolding cursor_out_of_bounds_maps_to_invalid_cursor
invalid_cursor = refl

unfoldable unexpected_collette_error_remains_a_storage_error : Bool
unfolding from_collection_error
unexpected_collette_error_remains_a_storage_error =
    is_storage "storage failure"
      (from_collection_error (CollectionError.unexpected "storage failure"))

storage_error : unexpected_collette_error_remains_a_storage_error ≡ true
unfolding unexpected_collette_error_remains_a_storage_error
storage_error = refl

abbrev same_magnet : Magnet → Magnet → Bool
same_magnet a b = str_eq a.raw b.raw && str_eq a.info_hash b.info_hash && same_name a.name b.name

unfoldable create_then_find_returns_same_download : Bool
unfolding inserted make_download get
create_then_find_returns_same_download =
    let dl = make_download magnet1 in
    unwrap (inserted (dl ∷ []) []) (λ s. unwrap (get shelf micros dl.info_hash s) (λ fetched.
      str_eq fetched.info_hash dl.info_hash
      && same_magnet fetched.magnet dl.magnet
      && status_eq fetched.status dl.status))

same_download : create_then_find_returns_same_download ≡ true
unfolding create_then_find_returns_same_download status_eq
same_download = refl

unfoldable create_twice_same_info_hash_returns_already_exists : Bool
unfolding inserted make_download insert
create_twice_same_info_hash_returns_already_exists =
    let dl = make_download magnet1 in
    unwrap (inserted (dl ∷ []) []) (λ s. with_error (insert shelf micros dl s).0 is_already_exists)

twice : create_twice_same_info_hash_returns_already_exists ≡ true
unfolding create_twice_same_info_hash_returns_already_exists
twice = refl

unfoldable find_unknown_info_hash_returns_not_found : Bool
unfolding get
find_unknown_info_hash_returns_not_found =
    is_not_found (get shelf micros "0000000000000000000000000000000000000000" [])

unknown : find_unknown_info_hash_returns_not_found ≡ true
unfolding find_unknown_info_hash_returns_not_found
unknown = refl

unfoldable scans_return_empty_iterators_for_an_empty_store : Bool
unfolding is_empty scan_all scan_by_status scan_since scan_by_status_since
scans_return_empty_iterators_for_an_empty_store =
    let since = pos (10 * 10 ^ 9) in
    is_empty (scan_all shelf micros none asc [])
    && is_empty (scan_by_status shelf micros DownloadStatus.queued none asc [])
    && is_empty (scan_since shelf micros since none asc [])
    && is_empty (scan_by_status_since shelf micros DownloadStatus.queued since none asc [])

empty_store : scans_return_empty_iterators_for_an_empty_store ≡ true
unfolding scans_return_empty_iterators_for_an_empty_store
empty_store = refl

unfoldable update_download_persists_changes : Bool
unfolding is_empty inserted make_download update get touch scan_by_status collect_downloads
update_download_persists_changes =
    let dl = make_download magnet1 in
    let updated = touch (pos 700) (record dl { status = DownloadStatus.downloading }) in
    unwrap (inserted (dl ∷ []) []) (λ s.
      let (r, s') = update shelf micros updated s in
      unwrap r (λ _.
        unwrap (get shelf micros dl.info_hash s') (λ fetched.
          status_eq fetched.status DownloadStatus.downloading
          && leb_ℤ dl.updated_at fetched.updated_at)
        && unwrap
            (collect_downloads
              (scan_by_status shelf micros DownloadStatus.downloading none desc s'))
            (λ filtered. elim filtered [ d ∷ [] ↦ str_eq d.info_hash dl.info_hash | _ ↦ false ])
        && is_empty (scan_by_status shelf micros DownloadStatus.queued none desc s')))

persists : update_download_persists_changes ≡ true
unfolding update_download_persists_changes status_eq selects
persists = refl

unfoldable delete_download_removes_it_from_indexes : Bool
unfolding is_empty inserted make_download remove get scan_all scan_by_status
delete_download_removes_it_from_indexes =
    let dl = make_download magnet1 in
    unwrap (inserted (dl ∷ []) []) (λ s.
      let (r, s') = remove shelf micros dl.info_hash s in
      unwrap r (λ _.
        is_not_found (get shelf micros dl.info_hash s')
        && is_empty (scan_all shelf micros none desc s')
        && is_empty (scan_by_status shelf micros DownloadStatus.queued none desc s')))

deleted : delete_download_removes_it_from_indexes ≡ true
unfolding delete_download_removes_it_from_indexes
deleted = refl
