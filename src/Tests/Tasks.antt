-- ===== src/Tests/Tasks.antt =====
-- Runs of the service's tasks (app/mod.rs), and the witnesses of what is proved of them.
use magnarr.Prelude.{update, ◌≡◌, refl, sym, subst, false, none, some, inl}
use magnarr.Prelude.{Option}
use magnarr.Types.Download.{Download, DownloadStatus, queued, imported}
use magnarr.App.Repository.Contract.{View}
use magnarr.App.World.{World}
use magnarr.Prelude.Int.{pos}
use magnarr.App.Tasks.{idle, arrived, scanning, advance, turn}
use magnarr.App.Tasks.{Service, arrives, advances, works, turns, Reach, start, later, IsStarted}
use magnarr.App.Tasks.Edges.{Edge}
use magnarr.App.Tasks.Laws.{
  IsSound, Orphan, Reach-IsSound, Reach-Edge, Reach-finished, Reach-Orphan,
}
use magnarr.Store as Store
use magnarr.Tests.Slot.{slot_view}
use magnarr.Tests.Fixtures.{deps, deps_contract, deps_view, magnet, submitted}
use magnarr.Tests.Imports.{site, tree}

abbrev stored : Option Download → Service deps
stored o = record {
  world = record { repository = o; torrent_client = tt; ticks = 7000 };
  root = tree;
  calls = λ _. idle;
  loop = scanning;
  cancelled = false;
}

stored-IsStarted : (o : Option Download) → IsStarted site deps (stored o)
stored-IsStarted o = record { no_call = λ i. refl; first = refl }

abbrev called : Service deps → Service deps
called a = record a { calls = update a.calls 0 (arrived magnet "/shows") }

abbrev advanced : Service deps → Service deps
advanced a = record a {
  world = (advance deps (a.calls 0) a.world).1;
  calls = update a.calls 0 (advance deps (a.calls 0) a.world).0;
}

abbrev turned : Service deps → Service deps
turned a = record a {
  world = (turn deps site a.cancelled a.loop a.world).1;
  loop = (turn deps site a.cancelled a.loop a.world).0;
}

-- The background task lists while a call has inserted its record and awaits the client.
abbrev busy : Service deps
busy = turned (advanced (advanced (called (stored none))))

busy-Reach : Reach site deps (stored none) busy
busy-Reach =
    later (later (later (later start (arrives 0 magnet "/shows" refl)) (advances 0)) (advances 0))
      (works turns)

Reach-IsSound_example : IsSound site deps deps_contract busy
Reach-IsSound_example =
    Reach-IsSound site deps deps_contract (stored none) busy (stored-IsStarted none) busy-Reach

Reach-Edge_example :
    Edge
      (deps_contract.view busy.world.repository "AB12")
      (deps_contract.view (turned busy).world.repository "AB12")
Reach-Edge_example =
    Reach-Edge site deps deps_contract (stored none) busy (turned busy) "AB12"
      (stored-IsStarted none) busy-Reach (works turns)

-- The client has accepted the magnet while the task has been at its list.
abbrev accepting : Service deps
accepting = advanced busy

abbrev inserted_record : Download
inserted_record = record submitted { status = queued; created_at = pos 7000; updated_at = pos 7000 }

abbrev submitted_record : Download
submitted_record = record inserted_record {
  status = DownloadStatus.submitted;
  updated_at = pos 7001;
}

abbrev finished : Download
finished = record submitted { status = imported }

held :
    (d : Download)
    → slot_view (some d) "AB12" ≡ some d
    → deps_contract.view (some d) "AB12" ≡ some d
held d h = subst (λ (v : deps.R.State → View). v (some d) "AB12" ≡ some d) (sym deps_view) h

Reach-finished_example :
    deps_contract.view (turned (turned (stored (some finished)))).world.repository "AB12"
    ≡ some finished
unfolding turn
Reach-finished_example =
    Reach-finished site deps deps_contract (stored (some finished))
      (turned (stored (some finished))) (turned (turned (stored (some finished)))) "AB12" finished
      (stored-IsStarted (some finished)) (later start (works turns)) (later start (works turns))
      (inl refl) (held finished refl)

-- Left by a call that was dropped.
abbrev orphan : Download
orphan = record submitted { status = queued }

Reach-Orphan_example : Orphan site deps deps_contract orphan (turned (stored (some orphan)))
Reach-Orphan_example =
    Reach-Orphan site deps deps_contract (stored (some orphan)) (stored (some orphan))
      (turned (stored (some orphan))) orphan (stored-IsStarted (some orphan)) start
      (later start (works turns)) refl ((held orphan refl), λ i mine. cc)
