-- ===== src/Tests/Fixtures.antt =====
-- Records, a client and readings of the clock that the runs share.
use magnarr.Prelude.{◌≡◌, ℕ, String, none, some, Result, ok, err, str_eq, if◌then◌else◌}
use magnarr.Prelude.Int.{pos}
use magnarr.Types.Magnet.{Magnet}
use magnarr.Types.Download.{DateTime, Download, DownloadStatus}
use magnarr.Types.Torrent.{TorrentState, TorrentStatus}
use magnarr.App.Repository.Contract.{Contract}
use magnarr.App.Torrent.{TorrentClient, TorrentClientError}
use magnarr.App.World.{Deps, World}
use magnarr.Store.Laws.{download_store-Contract}
use magnarr.Store.Listing.{app}
use magnarr.Tests.Slot.{slot, slot_view, micros, slot_promises}

abbrev pub link : String
link = "magnet:?xt=urn:btih:AB12&dn=Show"

abbrev pub magnet : Magnet
magnet = record { raw = link; info_hash = "AB12"; name = some "Show" }

-- Knows one torrent, which it has finished.
abbrev known : String → Result TorrentStatus TorrentClientError
known h =
    if str_eq h "AB12"
    then ok (record {
      hash = h;
      state = TorrentState.seeding;
      name = "Show";
      content_name = "Show.S01";
    })
    else err (TorrentClientError.not_found h)

abbrev pub client : TorrentClient
client = record { State = Unit; download = λ m s. (ok tt, s); status = λ h s. (known h, s) }

abbrev pub reading : ℕ → DateTime
reading n = pos n

abbrev pub deps : Deps
deps = app slot micros client reading

abbrev pub deps_contract : Contract deps.R
deps_contract = (download_store-Contract slot micros slot_promises).0

pub deps_view : deps_contract.view ≡ slot_view
deps_view = (download_store-Contract slot micros slot_promises).1

abbrev pub submitted : Download
submitted = record {
  info_hash = "AB12";
  magnet = magnet;
  name = "Show";
  content_name = "";
  status = DownloadStatus.submitted;
  target_dir = "/shows";
  created_at = pos 5000;
  updated_at = pos 5000;
  imported_path = none;
  error = none;
}

abbrev pub empty_world : World deps
empty_world = record { repository = none; torrent_client = tt; ticks = 7000 }

abbrev pub world : World deps
world = record { repository = some submitted; torrent_client = tt; ticks = 7000 }
