-- ===== src/Client/Http.antt =====
-- client/http.rs: an HTTP client that logs in when it has no session, and once more when a response
-- says that the session has ended. The requests and the login are `reqwest`'s, over a network whose
-- state is a parameter. Each function below runs under one lock of `session`, and is one step.
pub mod Laws
pub mod Cost
pub mod Sent
pub mod Shared
use magnarr.Prelude.{
  ℕ, ◌+◌, ◌%◌, ◌^◌, String, Bool, ◌||◌, not, ◌&&◌, Option, none, some, Result, ok, err,
}
use magnarr.Prelude.{◌==◌, if◌then◌else◌}
use magnarr.App.Torrent.{StatusCode}

-- A `reqwest::Error` is kept as the text that it displays.
pub data AuthenticatedClientError : Type 0 where
  auth_failed : StatusCode → AuthenticatedClientError
  client_error : String → AuthenticatedClientError

-- The two fields of `AuthenticatedClient` that never change, and what they are made of.
pub record HttpDeps : Type 1 where
  pub Client : Type 0
  pub Response : Type 0
  pub Network : Type 0
  pub status : Response → StatusCode
  pub base_client : Client
  pub login_fn : Client → Network → Result Client AuthenticatedClientError × Network

pub record Session (Client : Type 0) : Type 0 where
  pub id : ℕ
  pub client : Option Client

module _ {Response : Type 0} (status : Response → StatusCode) where
  unfoldable pub is_auth_error : Response → Bool
  is_auth_error resp = status resp == 403 || status resp == 401

  unfoldable pub ensure_authenticated : Response → Result Response AuthenticatedClientError
  unfolding is_auth_error
  ensure_authenticated resp =
      if is_auth_error resp then err (auth_failed (status resp)) else ok resp

module _ (H : HttpDeps) where
  pub record Auth : Type 0 where
    pub session : Session H.Client
    pub network : H.Network

  -- `new`
  unfoldable pub new : H.Network → Auth
  new n = record { session = record { id = 0; client = none }; network = n }

  -- `id` is a `u64`.
  abbrev pub opened :
      Session H.Client
      → Result H.Client AuthenticatedClientError × H.Network
      → Result (H.Client × ℕ) AuthenticatedClientError × Auth
  opened s (ok c, n) =
      let id = (s.id + 1) % 2 ^ 64 in
      (ok (c, id), record { session = record { id = id; client = some c }; network = n })
  opened s (err e, n) = (err e, record { session = s; network = n })

  -- The end of `session` and of `renew_session`, under the write lock.
  unfoldable pub login : Auth → Result (H.Client × ℕ) AuthenticatedClientError × Auth
  login a = opened a.session (H.login_fn H.base_client a.network)

  unfoldable pub session : Auth → Result (H.Client × ℕ) AuthenticatedClientError × Auth
  unfolding login
  session a = elim a.session.client [ some c ↦ (ok (c, a.session.id), a) | none ↦ login a ]

  unfoldable pub renew_session : ℕ → Auth → Result (H.Client × ℕ) AuthenticatedClientError × Auth
  unfolding login
  renew_session old_id a =
      if not (a.session.id == old_id)
      then (elim a.session.client [ some c ↦ (ok (c, a.session.id), a) | none ↦ login a ])
      else login a

  abbrev pub Request : Type 0
  Request = H.Client → H.Network → Result H.Response String × H.Network

  abbrev pub Outcome : Type 0
  Outcome = Result H.Response AuthenticatedClientError × Auth

  -- A request over the network of the session.
  abbrev send : Request → H.Client → Auth → Result H.Response String × Auth
  send f c a = let (r, n) = f c a.network in (r, record a { network = n })

  -- The second request, after the renewal.
  unfoldable pub retry : Request → Result (H.Client × ℕ) AuthenticatedClientError × Auth → Outcome
  unfolding ensure_authenticated
  retry f (err e, a) = (err e, a)
  retry f (ok (c, _), a) =
      let (r, a') = send f c a in
      elim r [
        | err e ↦ (err (client_error e), a')
        | ok resp ↦ (ensure_authenticated H.status resp, a')
      ]

  -- The first request, with the session that was found or opened.
  unfoldable pub attempt : Request → Result (H.Client × ℕ) AuthenticatedClientError × Auth → Outcome
  unfolding retry renew_session is_auth_error
  attempt f (err e, a) = (err e, a)
  attempt f (ok (c, id), a) =
      let (r, a') = send f c a in
      elim r [
        | err e ↦ (err (client_error e), a')
        | ok resp ↦
            if not (is_auth_error H.status resp)
            then (ok resp, a')
            else retry f (renew_session id a')
      ]

  unfoldable pub with_auth : Request → Auth → Outcome
  unfolding session attempt
  with_auth f a = attempt f (session a)
