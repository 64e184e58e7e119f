-- ===== src/Tests/Shown.antt =====
-- A download from the mutation to the query (graphql/schema.rs).
use magnarr.Prelude.{◌≡◌, refl, arith, none, some, [], ◌∷◌, map, ok, Any}
use magnarr.Prelude.Int.{pos}
use magnarr.Types.Download as Types
use magnarr.App.World.{World}
use magnarr.App.Repository.{DownloadEntry}
use magnarr.App.Submit as Submit
use magnarr.App.Listing
use magnarr.App.Listing.{app_service}
use magnarr.Graphql.Types.{show, submitted}
use magnarr.Graphql.Schema.{Edge, to_edge, download}
use magnarr.Graphql.Schema.Laws.{listing}
use magnarr.Graphql.Schema.Pages.{walk}
use magnarr.Store.{scan_all, insert, get, update}
use magnarr.Store.Shown.{everything, download-walk}
use magnarr.Tests.Slot.{slot, micros, slot_promises, selects}
use magnarr.Tests.Fixtures.{client, reading, deps, magnet, empty_world}
use magnarr.Tests.Api.{base64, base64-IsCodec}

-- The record that is stored, and the world behind the mutation.
abbrev made : Types.Download
made = record {
  info_hash = "AB12";
  magnet = magnet;
  name = "Show";
  content_name = "";
  status = Types.submitted;
  target_dir = "/shows";
  created_at = pos 7000;
  updated_at = pos 7001;
  imported_path = none;
  error = none;
}

abbrev after : World deps
after = record { repository = some made; torrent_client = tt; ticks = 7002 }

made_shown :
    download base64 (app_service deps) 50 magnet "/shows" empty_world ≡ (ok (show made), after)
unfolding download Submit.download insert get update Types.touch Types.new
made_shown = refl

abbrev entry : DownloadEntry
entry = record { download = made; cursor = record { raw = 0 ∷ [] } }

listed :
    listing base64 (app_service deps) 50 (everything 0 none) none after ≡ ok (map ok (entry ∷ []))
unfolding Listing.downloads scan_all selects
listed = refl

download-walk_example :
    ((show made).status ≡ submitted)
    × ((show made).magnet ≡ magnet)
    × ((show made).target_dir ≡ "/shows")
    × (walk base64 (app_service deps) 50 2 (everything 0 none) after
        ≡ ok (map (to_edge base64) (entry ∷ [])))
    × Any (λ (x : Edge). x.node ≡ show made) (map (to_edge base64) (entry ∷ []))
download-walk_example =
    download-walk slot micros slot_promises client reading base64 50 magnet "/shows" empty_world
      after (show made) (entry ∷ []) 0 2 none base64-IsCodec (omega arith) made_shown listed
      (omega arith)
