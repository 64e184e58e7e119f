-- ===== src/Tests/Unit/Scanning.antt =====
-- The tests of the scans in store/download.rs. The shelf stands for the store's file.
use magnarr.Prelude.{◌*◌, ◌^◌, ◌≡◌, refl, Bool, true, false, ◌&&◌, none, some, List, [], ◌∷◌}
use magnarr.Prelude.{Result, ok, err, ◌>>=◌, collect, str_eq}
use magnarr.Prelude.Int.{pos}
use magnarr.Types.Download.{Download, DownloadStatus}
use magnarr.App.Repository.{RepositoryError, Scan, DownloadEntry, asc, desc}
use magnarr.Store.{scan_all, scan_by_status, scan_since, scan_by_status_since}
use magnarr.Tests.Slot.{micros, selects}
use magnarr.Tests.Unit.Doubles.{unwrap}
use magnarr.Tests.Unit.Shelf.{shelf}
use magnarr.Tests.Unit.Storing.{magnet1, magnet2, magnet3, make_download_at, inserted}
use magnarr.Tests.Unit.Storing.{collect_downloads, is_invalid_cursor}

-- The downloads are these, in their order, by their info hashes.
abbrev same_hashes : List Download → List Download → Bool
same_hashes [] [] = true
same_hashes (a ∷ as') (b ∷ bs) = str_eq a.info_hash b.info_hash && same_hashes as' bs
same_hashes _ _ = false

unfoldable are : Scan → List Download → Bool
unfolding collect_downloads
are scan expected = unwrap (collect_downloads scan) (λ ds. same_hashes ds expected)

abbrev page_of : Scan → Result (List DownloadEntry) RepositoryError
page_of scan = scan >>= collect

unfoldable scan_all_returns_newest_first_by_default : Bool
unfolding make_download_at inserted are scan_all
scan_all_returns_newest_first_by_default =
    let oldest = make_download_at magnet1 DownloadStatus.queued 10 in
    let newest = make_download_at magnet2 DownloadStatus.queued 30 in
    let middle = make_download_at magnet3 DownloadStatus.queued 20 in
    unwrap (inserted (oldest ∷ newest ∷ middle ∷ []) [])
      (λ s. are (scan_all shelf micros none desc s) (newest ∷ middle ∷ oldest ∷ []))

newest_first : scan_all_returns_newest_first_by_default ≡ true
unfolding scan_all_returns_newest_first_by_default selects
newest_first = refl

unfoldable scan_by_status_filters_with_ordering : Bool
unfolding make_download_at inserted are scan_by_status
scan_by_status_filters_with_ordering =
    let queued = make_download_at magnet1 DownloadStatus.queued 10 in
    let submitted = make_download_at magnet2 DownloadStatus.submitted 30 in
    let submitted_older = make_download_at magnet3 DownloadStatus.submitted 20 in
    unwrap (inserted (queued ∷ submitted ∷ submitted_older ∷ []) []) (λ s.
      are (scan_by_status shelf micros DownloadStatus.submitted none desc s)
        (submitted ∷ submitted_older ∷ []))

filters : scan_by_status_filters_with_ordering ≡ true
unfolding scan_by_status_filters_with_ordering selects
filters = refl

unfoldable scan_by_status_supports_cursor_pagination : Bool
unfolding make_download_at inserted are scan_by_status
scan_by_status_supports_cursor_pagination =
    let first = make_download_at magnet1 DownloadStatus.submitted 10 in
    let second = make_download_at magnet2 DownloadStatus.submitted 20 in
    let excluded = make_download_at magnet3 DownloadStatus.queued 30 in
    unwrap (inserted (first ∷ second ∷ excluded ∷ []) []) (λ s.
      unwrap (page_of (scan_by_status shelf micros DownloadStatus.submitted none asc s)) (λ page.
        elim page [
          | e ∷ rest ↦
              are (scan_by_status shelf micros DownloadStatus.submitted (some e.cursor) asc s)
                (second ∷ [])
          | [] ↦ false
        ]))

status_pages : scan_by_status_supports_cursor_pagination ≡ true
unfolding scan_by_status_supports_cursor_pagination selects
status_pages = refl

unfoldable scan_all_supports_ascending_order : Bool
unfolding make_download_at inserted are scan_all
scan_all_supports_ascending_order =
    let first = make_download_at magnet1 DownloadStatus.queued 10 in
    let second = make_download_at magnet2 DownloadStatus.queued 20 in
    unwrap (inserted (second ∷ first ∷ []) [])
      (λ s. are (scan_all shelf micros none asc s) (first ∷ second ∷ []))

ascending : scan_all_supports_ascending_order ≡ true
unfolding scan_all_supports_ascending_order selects
ascending = refl

unfoldable scan_all_supports_cursor_pagination : Bool
unfolding make_download_at inserted are scan_all
scan_all_supports_cursor_pagination =
    let newest = make_download_at magnet1 DownloadStatus.queued 30 in
    let same_timestamp = make_download_at magnet2 DownloadStatus.queued 30 in
    let older = make_download_at magnet3 DownloadStatus.queued 20 in
    unwrap (inserted (newest ∷ same_timestamp ∷ older ∷ []) []) (λ s.
      unwrap (page_of (scan_all shelf micros none desc s)) (λ page. elim page [
        | e ∷ e2 ∷ rest ↦ are (scan_all shelf micros (some e2.cursor) desc s) (older ∷ [])
        | _ ↦ false
      ]))

pages : scan_all_supports_cursor_pagination ≡ true
unfolding scan_all_supports_cursor_pagination selects
pages = refl

unfoldable scan_since_and_scan_by_status_since_apply_creation_lower_bound : Bool
unfolding make_download_at inserted are scan_since scan_by_status_since
scan_since_and_scan_by_status_since_apply_creation_lower_bound =
    let old_submitted = make_download_at magnet1 DownloadStatus.submitted 10 in
    let recent_queued = make_download_at magnet2 DownloadStatus.queued 20 in
    let recent_submitted = make_download_at magnet3 DownloadStatus.submitted 30 in
    let since = pos (20 * 10 ^ 9) in
    unwrap (inserted (old_submitted ∷ recent_queued ∷ recent_submitted ∷ []) []) (λ s.
      are (scan_since shelf micros since none asc s) (recent_queued ∷ recent_submitted ∷ [])
      && are (scan_by_status_since shelf micros DownloadStatus.submitted since none asc s)
          (recent_submitted ∷ []))

lower_bound : scan_since_and_scan_by_status_since_apply_creation_lower_bound ≡ true
unfolding scan_since_and_scan_by_status_since_apply_creation_lower_bound selects
lower_bound = refl

unfoldable since_scans_are_inclusive_and_support_descending_cursor_pagination : Bool
unfolding make_download_at inserted are scan_since scan_by_status_since
since_scans_are_inclusive_and_support_descending_cursor_pagination =
    let excluded = make_download_at magnet1 DownloadStatus.submitted 10 in
    let boundary = make_download_at magnet2 DownloadStatus.submitted 20 in
    let newest = make_download_at magnet3 DownloadStatus.submitted 30 in
    let since = pos (20 * 10 ^ 9) in
    let by_status = scan_by_status_since shelf micros DownloadStatus.submitted since in
    unwrap (inserted (excluded ∷ boundary ∷ newest ∷ []) []) (λ s.
      are (scan_since shelf micros since none desc s) (newest ∷ boundary ∷ [])
      && unwrap (page_of (scan_since shelf micros since none desc s)) (λ page. elim page [
        | e ∷ rest ↦ are (scan_since shelf micros since (some e.cursor) desc s) (boundary ∷ [])
        | [] ↦ false
      ])
      && unwrap (page_of (by_status none desc s)) (λ page. elim page [
        | e ∷ rest ↦ are (by_status (some e.cursor) desc s) (boundary ∷ [])
        | [] ↦ false
      ]))

inclusive : since_scans_are_inclusive_and_support_descending_cursor_pagination ≡ true
unfolding since_scans_are_inclusive_and_support_descending_cursor_pagination selects
inclusive = refl

abbrev is_rejected : Result (List DownloadEntry) RepositoryError → Bool
is_rejected (ok es) = false
is_rejected (err e) = is_invalid_cursor e

unfoldable cursor_from_another_scan_is_rejected : Bool
unfolding make_download_at inserted scan_all scan_by_status
cursor_from_another_scan_is_rejected =
    let download = make_download_at magnet1 DownloadStatus.queued 10 in
    unwrap (inserted (download ∷ []) []) (λ s.
      unwrap (page_of (scan_all shelf micros none asc s)) (λ page. elim page [
        | e ∷ rest ↦
            is_rejected
              (page_of (scan_by_status shelf micros DownloadStatus.queued (some e.cursor) asc s))
        | [] ↦ false
      ]))

rejected : cursor_from_another_scan_is_rejected ≡ true
unfolding cursor_from_another_scan_is_rejected selects
rejected = refl
