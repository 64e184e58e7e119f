-- ===== src/Tests/Unit/Doubles.antt =====
-- The torrent clients and the app of the tests of app/mod.rs. The slot stands for the store, `/tmp` for
-- the temporary directories.
use magnarr.Prelude.{String, Bool, true, false, [], Option, none, some, str_eq, Result, ok, err}
use magnarr.Types.Magnet.{Magnet}
use magnarr.Types.Download.{Download, DownloadStatus, status_eq}
use magnarr.Types.Torrent.{TorrentState}
use magnarr.App.Repository.{RepositoryError}
use magnarr.App.Torrent.{TorrentClient, not_found, unexpected_status}
use magnarr.App.World.{Deps, World}
use magnarr.App.Import.{Site}
use magnarr.Tests.Slot.{slot, micros}
use magnarr.Tests.Fixtures.{reading}
use magnarr.Store.Listing.{app}

abbrev pub magnet_text : String
magnet_text = "magnet:?xt=urn:btih:ABCDEF1234567890ABCDEF1234567890ABCDEF12&dn=test"

abbrev pub info_hash : String
info_hash = "ABCDEF1234567890ABCDEF1234567890ABCDEF12"

-- `MAGNET.parse().unwrap()`, where the `url` crate reads the pairs `xt` and `dn` in it.
abbrev pub magnet : Magnet
magnet = record { raw = magnet_text; info_hash = info_hash; name = some "test" }

abbrev pub ok_torrent_client : TorrentClient
ok_torrent_client = record {
  State = Unit;
  download = λ m s. (ok tt, s);
  status = λ h s. (err (not_found h), s);
}

abbrev pub fail_torrent_client : TorrentClient
fail_torrent_client = record {
  State = Unit;
  download = λ m s. (err (unexpected_status 500), s);
  status = λ h s. (err (not_found h), s);
}

abbrev pub stateful_torrent_client : TorrentState → String → String → TorrentClient
stateful_torrent_client state name content_name = record {
  State = Unit;
  download = λ m s. (ok tt, s);
  status =
      λ h s. (ok (record { hash = h; state = state; name = name; content_name = content_name }), s);
}

abbrev pub new_app : TorrentClient → Deps
new_app client = app slot micros client reading

-- The world of a new app, over the client's only state.
abbrev pub empty : (A : Deps) → A.R.State → A.T.State → World A
empty A s t = record { repository = s; torrent_client = t; ticks = 1000 }

abbrev pub site : Site
site = record {
  download_dir = "/tmp/downloads";
  cwd = [];
  display = λ e. "io";
  cancelled = λ n. false;
}

-- A test of a value that has to be there.
abbrev pub unwrap : {X E : Type 0} → Result X E → (X → Bool) → Bool
unwrap (ok x) check = check x
unwrap (err e) check = false

abbrev pub is_not_found : Result Download RepositoryError → Bool
is_not_found (err RepositoryError.not_found) = true
is_not_found _ = false

abbrev pub has_status : DownloadStatus → Result Download RepositoryError → Bool
has_status status r = unwrap r (λ d. status_eq d.status status)

abbrev pub same_name : Option String → Option String → Bool
same_name none none = true
same_name (some a) (some b) = str_eq a b
same_name _ _ = false
