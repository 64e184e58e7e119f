-- ===== src/Tests/Progress.antt =====
-- A round of the loop (app/mod.rs) that takes a finished torrent to its end.
use magnarr.Prelude.{◌≡◌, refl, sym, subst, inl, inr, Bool-cases, none, some, [], ◌∷◌, Option, ok}
use magnarr.Prelude.{str_eq, arith}
use magnarr.Prelude.Int.{pos}
use magnarr.Prelude.FilePath.{split_slash, join}
use magnarr.Types.Download.{Download, importing}
use magnarr.App.Repository.Contract.{View}
use magnarr.App.World.{World}
use magnarr.App.Files.{Node}
use magnarr.App.Poll.{get_pending_downloads, poll_downloads, poll_each, apply_status, poll_download}
use magnarr.App.Import.{source, destination, get_importing, import_downloads}
use magnarr.App.Import.Laws.{Apart, Fits}
use magnarr.App.Import.Step.{Finished}
use magnarr.App.Progress.{Accepts, Seeds, Ready}
use magnarr.App.Progress.Laws.{round-Finished}
use magnarr.Store.{scan_by_status, update}
use magnarr.Types.Torrent.{TorrentStatus, seeding}
use magnarr.Tests.Slot.{selects, slot_view}
use magnarr.Tests.Fixtures.{deps, deps_contract, deps_view, submitted, world}
use magnarr.Tests.Imports.{site, tree, apart, low, stored-Apart, stored-Fits}

-- The record as the poll leaves it.
abbrev ready : Download
ready = record submitted { status = importing; content_name = "Show.S01"; updated_at = pos 7000 }

abbrev polled_world : World deps
polled_world = record { repository = some ready; torrent_client = tt; ticks = 7001 }

polled : poll_downloads deps world ≡ polled_world
unfolding poll_downloads get_pending_downloads poll_each poll_download apply_status scan_by_status
    selects update
polled = refl

pending : get_pending_downloads deps world.repository ≡ ok (submitted ∷ [])
unfolding get_pending_downloads scan_by_status selects
pending = refl

listed : get_importing site deps polled_world.repository ≡ ok (ready ∷ [])
unfolding get_importing scan_by_status selects
listed = refl

slot-Accepts :
    (d e : Download) (s : Option Download)
    → slot_view s d.info_hash ≡ some e
    → (deps.R.update d s).0 ≡ ok tt
unfolding update
slot-Accepts d e none held = cc
slot-Accepts d e (some x) held = elim (Bool-cases (str_eq d.info_hash x.info_hash)) [
  | inl there ↦ rw (there, update) refl
  | inr other ↦ ground (arith, other, held)
]

deps-Accepts : Accepts deps.R deps_contract
deps-Accepts d e s held =
    slot-Accepts d e s
      (subst (λ (v : deps.R.State → View). v s d.info_hash ≡ some e) deps_view held)

abbrev reported : TorrentStatus
reported = record { hash = "AB12"; state = seeding; name = "Show"; content_name = "Show.S01" }

deps-Seeds : Seeds deps.T "AB12"
deps-Seeds s = (reported, refl, refl)

held : deps_contract.view world.repository "AB12" ≡ some submitted
held =
    subst (λ (v : deps.R.State → View). v (some submitted) "AB12" ≡ some submitted) (sym deps_view)
      refl

ready-Apart : Apart site (deps_contract.view polled_world.repository)
unfolding source destination split_slash join
ready-Apart = stored-Apart ready refl apart

ready-Fits : Fits site (deps_contract.view polled_world.repository) 2 tree
unfolding source split_slash join
ready-Fits = stored-Fits ready 2 refl low

round-Finished_example :
    (w' : World deps) × (root' : Node) × (import_downloads site deps 2
        (poll_downloads deps world)
        tree
      ≡ some (w', root'))
    × (e : Download) × (d' : Download) × Ready submitted e
    × (deps_contract.view w'.repository "AB12" ≡ some d')
    × Finished site e d'
round-Finished_example =
    round-Finished deps deps_contract deps-Accepts site 2 world tree (submitted ∷ []) (ready ∷ [])
      submitted (λ n. refl) pending
      (subst (λ (w : World deps). get_importing site deps w.repository ≡ ok (ready ∷ []))
        (sym polled) listed)
      (subst (λ (w : World deps). Apart site (deps_contract.view w.repository)) (sym polled)
        ready-Apart)
      (subst (λ (w : World deps). Fits site (deps_contract.view w.repository) 2 tree) (sym polled)
        ready-Fits)
      held (inr refl) deps-Seeds
