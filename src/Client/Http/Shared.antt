-- ===== src/Client/Http/Shared.antt =====
-- Tasks that call `with_auth` of client/http.rs on one client, interleaved: a call takes one step per lock
-- of the session and per request. The read lock of `session` is let go before the write lock is taken.
pub mod Answers
pub mod Effects
pub mod Laws
use magnarr.Prelude.{
  ℕ, suc, ◌≡◌, String, Option, none, some, Result, ok, err, not, if◌then◌else◌, update,
}
use magnarr.Client.Http.{
  HttpDeps, Session, Auth, Request, AuthenticatedClientError, client_error, new,
}
use magnarr.Client.Http.{login, renew_session, is_auth_error, ensure_authenticated}

module _ (H : HttpDeps) where
  -- Where a call stands: before the read lock, before the write lock of `session`, before its first request,
  -- before the write lock of `renew_session`, and before its second request. A renewing call remembers
  -- the client whose request was refused.
  pub data Task : Type 0 where
    idle : Task
    looking : Request H → Task
    entering : Request H → Task
    sending : Request H → H.Client → ℕ → Task
    renewing : Request H → H.Client → ℕ → Task
    resending : Request H → H.Client → Task
    done : Result H.Response AuthenticatedClientError → Task

  unfoldable pub found : Request H → ℕ → Option H.Client → Task
  found f id (some c) = sending f c id
  found f id none = entering f

  unfoldable pub entered : Request H → Result (H.Client × ℕ) AuthenticatedClientError → Task
  entered f (ok (c, id)) = sending f c id
  entered f (err e) = done (err e)

  unfoldable pub answered : Request H → H.Client → ℕ → Result H.Response String → Task
  unfolding is_auth_error
  answered f c id (err e) = done (err (client_error e))
  answered f c id (ok resp) =
      if not (is_auth_error H.status resp) then done (ok resp) else renewing f c id

  unfoldable pub renewed : Request H → Result (H.Client × ℕ) AuthenticatedClientError → Task
  renewed f (ok (c, _)) = resending f c
  renewed f (err e) = done (err e)

  unfoldable pub settled : Result H.Response String → Result H.Response AuthenticatedClientError
  unfolding ensure_authenticated
  settled (err e) = err (client_error e)
  settled (ok resp) = ensure_authenticated H.status resp

  -- One step of a call.
  unfoldable pub step : Task → Auth H → Task × Auth H
  unfolding found entered answered renewed settled login renew_session
  step idle a = (idle, a)
  step (looking f) a = (found f a.session.id a.session.client, a)
  step (entering f) a = let (r, a') = login H a in (entered f r, a')
  step (sending f c id) a =
      let (r, n) = f c a.network in (answered f c id r, record a { network = n })
  step (renewing f c id) a = let (r, a') = renew_session H id a in (renewed f r, a')
  step (resending f c) a =
      let (r, n) = f c a.network in (done (settled r), record a { network = n })
  step (done r) a = (done r, a)

  pub record Pool : Type 0 where
    pub auth : Auth H
    pub tasks : ℕ → Task

  -- A call starts or takes a step, a call is dropped, or the network changes by itself.
  pub data Step (p : Pool) : Pool → Type 0 where
    starts :
        (i : ℕ) (f : Request H)
        → p.tasks i ≡ idle
        → Step p (record p { tasks = update p.tasks i (looking f) })
    steps :
        (i : ℕ)
        → Step p (record {
          auth = (step (p.tasks i) p.auth).1;
          tasks = update p.tasks i (step (p.tasks i) p.auth).0;
        })
    drops : (i : ℕ) → Step p (record p { tasks = update p.tasks i idle })
    outside : (n : H.Network) → Step p (record p { auth = record p.auth { network = n } })

  -- A pool that a new client has reached in so many steps.
  pub data Reach : ℕ → Pool → Type 0 where
    start : (n : H.Network) → Reach 0 (record { auth = new H n; tasks = λ _. idle })
    later : {k : ℕ} {p q : Pool} → Reach k p → Step p q → Reach (suc k) q
