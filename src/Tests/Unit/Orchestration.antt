-- ===== src/Tests/Unit/Orchestration.antt =====
-- The tests of `download` and `poll_downloads` in app/mod.rs.
use magnarr.Prelude.{String, ◌≡◌, refl, Bool, true, false, ◌&&◌, none, Result, err, str_eq}
use magnarr.Prelude.Int.{leb_ℤ}
use magnarr.Types.Download.{Download, DownloadStatus, status_eq, new, touch}
use magnarr.App.Repository.{RepositoryError}
use magnarr.Types.Torrent.{TorrentState}
use magnarr.App.Errors.{AppError, already_exists, torrent_client}
use magnarr.App.Submit.{download}
use magnarr.App.Poll.{poll_downloads, get_pending_downloads, poll_each, poll_download, apply_status}
use magnarr.Store.{insert, get, update, remove, scan_by_status}
use magnarr.Tests.Slot.{selects}
use magnarr.Tests.Unit.Doubles.{magnet, info_hash, ok_torrent_client, fail_torrent_client}
use magnarr.Tests.Unit.Doubles.{
  stateful_torrent_client, new_app, empty, unwrap, is_not_found, has_status,
}

abbrev is_already_exists : Result Download AppError → Bool
is_already_exists (err already_exists) = true
is_already_exists _ = false

abbrev is_torrent_client : Result Download AppError → Bool
is_torrent_client (err (torrent_client e)) = true
is_torrent_client _ = false

unfoldable download_happy_path_returns_submitted_download : Bool
unfolding download
download_happy_path_returns_submitted_download =
    let A = new_app ok_torrent_client in
    let (r, w) = download A magnet "/target" (empty A none tt) in
    unwrap r (λ dl.
      status_eq dl.status DownloadStatus.submitted
      && leb_ℤ dl.created_at dl.updated_at
      && has_status DownloadStatus.submitted (A.R.get dl.info_hash w.repository))

happy_path : download_happy_path_returns_submitted_download ≡ true
unfolding download_happy_path_returns_submitted_download insert get update new touch status_eq
happy_path = refl

unfoldable download_duplicate_info_hash_returns_already_exists : Bool
unfolding download
download_duplicate_info_hash_returns_already_exists =
    let A = new_app ok_torrent_client in
    let (_, w) = download A magnet "/target" (empty A none tt) in
    is_already_exists (download A magnet "/target" w).0

duplicate : download_duplicate_info_hash_returns_already_exists ≡ true
unfolding download_duplicate_info_hash_returns_already_exists insert get update new touch
duplicate = refl

unfoldable download_client_failure_rolls_back_record : Bool
unfolding download
download_client_failure_rolls_back_record =
    let A = new_app fail_torrent_client in
    let (r, w) = download A magnet "/target" (empty A none tt) in
    is_torrent_client r && is_not_found (A.R.get magnet.info_hash w.repository)

client_failure : download_client_failure_rolls_back_record ≡ true
unfolding download_client_failure_rolls_back_record insert get remove new
client_failure = refl

unfoldable poll_downloads_removes_download_when_torrent_not_found : Bool
unfolding download poll_downloads
poll_downloads_removes_download_when_torrent_not_found =
    let A = new_app ok_torrent_client in
    let w = poll_downloads A (download A magnet "/target" (empty A none tt)).1 in
    is_not_found (A.R.get info_hash w.repository)

removed : poll_downloads_removes_download_when_torrent_not_found ≡ true
unfolding poll_downloads_removes_download_when_torrent_not_found insert get update remove new touch
    get_pending_downloads poll_each poll_download apply_status scan_by_status selects
removed = refl

-- What is stored after a submission and a poll, where the client reports a state and a name.
unfoldable reported : TorrentState → String → Result Download RepositoryError
unfolding download poll_downloads
reported state name =
    let A = new_app (stateful_torrent_client state name "resolved-name.mkv") in
    let w = poll_downloads A (download A magnet "/target" (empty A none tt)).1 in
    A.R.get info_hash w.repository

unfoldable poll_downloads_transitions_to_importing_and_updates_name_on_seeding : Bool
unfolding reported
poll_downloads_transitions_to_importing_and_updates_name_on_seeding =
    unwrap (reported TorrentState.seeding "resolved-name") (λ dl.
      status_eq dl.status DownloadStatus.importing
      && str_eq dl.name "resolved-name"
      && str_eq dl.content_name "resolved-name.mkv")

to_importing : poll_downloads_transitions_to_importing_and_updates_name_on_seeding ≡ true
unfolding poll_downloads_transitions_to_importing_and_updates_name_on_seeding insert get update new
    touch status_eq get_pending_downloads poll_each poll_download apply_status scan_by_status
    selects
to_importing = refl

unfoldable poll_downloads_transitions_to_downloading_and_updates_name : Bool
unfolding reported
poll_downloads_transitions_to_downloading_and_updates_name =
    unwrap (reported TorrentState.downloading "resolved-name") (λ dl.
      status_eq dl.status DownloadStatus.downloading
      && str_eq dl.name "resolved-name"
      && str_eq dl.content_name "resolved-name.mkv")

to_downloading : poll_downloads_transitions_to_downloading_and_updates_name ≡ true
unfolding poll_downloads_transitions_to_downloading_and_updates_name insert get update new touch
    status_eq get_pending_downloads poll_each poll_download apply_status scan_by_status selects
to_downloading = refl

unfoldable poll_downloads_transitions_to_failed_on_torrent_error : Bool
unfolding reported
poll_downloads_transitions_to_failed_on_torrent_error =
    has_status DownloadStatus.failed (reported TorrentState.error "some-name")

to_failed : poll_downloads_transitions_to_failed_on_torrent_error ≡ true
unfolding poll_downloads_transitions_to_failed_on_torrent_error insert get update new touch
    status_eq get_pending_downloads poll_each poll_download apply_status scan_by_status selects
to_failed = refl
