-- ===== src/Tests/Sessions.antt =====
-- Runs of calls that share one client (client/http.rs), and the witnesses of what is proved of them.
use magnarr.Prelude.{ℕ, [], ◌∷◌, ◌≡◌, refl, ◌≢◌, ◌⊎◌, arith, some, ok, update}
use magnarr.Client.Http.{new, login, renew_session}
use magnarr.Client.Http.Shared.{idle, looking, renewing, done, step, Pool, starts, steps, Reach}
use magnarr.Client.Http.Shared.{start, later}
use magnarr.Client.Http.Shared.Answers.{Reach-done}
use magnarr.Client.Http.Shared.Laws.{Reach-renewing}
use magnarr.Client.Qbittorrent.{http, info_request, login_fn}
use magnarr.Tests.Network.{torrent, web, config}

abbrev at_first : Pool (http web config)
at_first = record { auth = new (http web config) 0; tasks = λ _. idle }

abbrev called : Pool (http web config)
called = record at_first {
  tasks = update at_first.tasks 0 (looking (info_request web config "AB12"));
}

abbrev stepped : Pool (http web config) → Pool (http web config)
stepped p = record {
  auth = (step (http web config) (p.tasks 0) p.auth).1;
  tasks = update p.tasks 0 (step (http web config) (p.tasks 0) p.auth).0;
}

-- The session that was opened first has been refused.
abbrev refused : Pool (http web config)
refused = stepped (stepped (stepped called))

refused-Reach : Reach (http web config) 4 refused
refused-Reach =
    later
      (later (later (later (start 0) (starts 0 (info_request web config "AB12") refl)) (steps 0))
        (steps 0))
      (steps 0)

refused_renewing : refused.tasks 0 ≡ renewing (info_request web config "AB12") tt 1
unfolding step login_fn new
refused_renewing = refl

Reach-renewing_example :
    ((refused.auth.session.client ≡ some tt)
      × (renew_session (http web config) 1 refused.auth ≡ login (http web config) refused.auth))
    ⊎ ((refused.auth.session.id ≢ 1)
        × (c' : Unit {0}) × (refused.auth.session.client ≡ some c')
        × (renew_session (http web config) 1 refused.auth
            ≡ (ok (c', refused.auth.session.id), refused.auth)))
Reach-renewing_example =
    Reach-renewing (http web config) 4 refused 0 (info_request web config "AB12") tt 1 (omega arith)
      refused-Reach refused_renewing

-- The call has renewed the session and sent its request again.
abbrev settled : Pool (http web config)
settled = stepped (stepped refused)

settled_done : settled.tasks 0 ≡ done (ok (200, ok (torrent ∷ [])))
unfolding step login_fn new renew_session
settled_done = refl

Reach-done_example : ◌≢◌ {A = ℕ} 200 401 × ◌≢◌ {A = ℕ} 200 403
Reach-done_example =
    Reach-done (http web config) 6 settled 0 (200, ok (torrent ∷ []))
      (later (later refused-Reach (steps 0)) (steps 0)) settled_done
