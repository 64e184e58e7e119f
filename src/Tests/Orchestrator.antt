-- ===== src/Tests/Orchestrator.antt =====
-- Runs of `App` (app/mod.rs) over the store, and the witnesses of what is proved of them.
use magnarr.Prelude.{◌≡◌, refl, ap, inr, none, some, [], ◌∷◌, ok, map}
use magnarr.Prelude.Int.{pos}
use magnarr.Types.Download.{DownloadStatus}
use magnarr.App.Repository.{DownloadEntry, desc}
use magnarr.App.Repository.Contract.{Contract, View}
use magnarr.App.Listing.{downloads}
use magnarr.App.Submit.{download}
use magnarr.App.Submit.Laws.{Submission, download-Submission}
use magnarr.App.Poll.{get_pending_downloads, poll_downloads}
use magnarr.App.Poll.Step.{Life, Settled}
use magnarr.App.Poll.Laws.{poll_downloads-Life, poll_downloads-Settled}
use magnarr.Store.{download_store, scan_by_status, scan_by_status_since}
use magnarr.Store.Laws.{download_store-Contract}
use magnarr.Store.Listing.{Listed, downloads-Listed}
use magnarr.Tests.Slot.{slot, micros, slot_promises, slot_view, selects}
use magnarr.Tests.Fixtures.{
  magnet, client, reading, deps, deps_contract, deps_view, submitted, empty_world, world,
}

download-Submission_example :
    Submission deps.R magnet "/shows"
      (deps_contract.view none)
      (deps_contract.view (download deps magnet "/shows" empty_world).1.repository)
      (download deps magnet "/shows" empty_world).0
download-Submission_example = download-Submission deps deps_contract magnet "/shows" empty_world

pending_of_world : get_pending_downloads deps world.repository ≡ ok (submitted ∷ [])
unfolding get_pending_downloads scan_by_status selects
pending_of_world = refl

held : deps_contract.view world.repository submitted.info_hash ≡ some submitted
held = ap (λ (v : deps.R.State → View). v (some submitted) "AB12") deps_view

poll_downloads-Settled_example :
    Settled deps submitted (deps_contract.view (poll_downloads deps world).repository "AB12")
poll_downloads-Settled_example =
    poll_downloads-Settled deps deps_contract world (submitted ∷ []) submitted pending_of_world held
      (inr refl)

poll_downloads-Life_example :
    Life client
      (deps_contract.view (some submitted) "AB12")
      (deps_contract.view (poll_downloads deps world).repository "AB12")
poll_downloads-Life_example = poll_downloads-Life deps deps_contract world "AB12"

download_store-Contract_example : (c : Contract (download_store slot micros)) × (c.view ≡ slot_view)
download_store-Contract_example = download_store-Contract slot micros slot_promises

abbrev entry : DownloadEntry
entry = record { download = submitted; cursor = record { raw = 0 ∷ [] } }

listing_of_world :
    downloads deps (some DownloadStatus.submitted) (some (pos 5000)) none desc world
    ≡ ok (map ok (entry ∷ []))
unfolding downloads scan_by_status_since selects
listing_of_world = refl

downloads-Listed_example :
    Listed micros
      (slot_view (some submitted))
      (some DownloadStatus.submitted)
      (some (pos 5000))
      desc
      (submitted ∷ [])
downloads-Listed_example =
    downloads-Listed slot micros slot_promises client reading (some DownloadStatus.submitted)
      (some (pos 5000)) desc world (map ok (entry ∷ [])) (entry ∷ []) listing_of_world refl
