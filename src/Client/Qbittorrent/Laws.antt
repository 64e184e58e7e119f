-- ===== src/Client/Qbittorrent/Laws.antt =====
-- What client/qbittorrent.rs answers to the orchestrator.
use mathlib.Core.Option
use magnarr.Prelude.{ℕ, ◌≤◌, ◌<◌, String, ◌<>◌, some, ◌≡◌, refl, ◌≢◌, ◌⊎◌, inl, inr, ◌&&◌}
use magnarr.Prelude.{List, [], ◌∷◌, Result, ok, err, arith, Option-cases, Bool-cases}
use magnarr.Prelude.{leb, ltb, subst}
use magnarr.Prelude.FilePath.{file_name}
use magnarr.Prelude.FilePath.Laws.{IsNormal, file_name-IsNormal}
use magnarr.Types.Magnet.{Magnet}
use magnarr.Types.Torrent.{TorrentStatus}
use magnarr.App.Torrent.{not_found, unexpected_status}
use magnarr.Client.Http.{Auth, AuthenticatedClientError, auth_failed, client_error, with_auth}
use magnarr.Client.Http.Laws.{with_auth-ok}
use magnarr.Client.Http.Sent.{with_auth-Sent}
use magnarr.Client.Qbittorrent.{
  Web, QbittorrentConfig, http, content_name, to_status, first_torrent,
}
use magnarr.Client.Qbittorrent.{queried, status, added, download, info_request}
use magnarr.Client.Qbittorrent.{add_request}

abbrev pub IsSafeName : String → Type 0
IsSafeName name = (name ≡ "") ⊎ IsNormal name

module _ (W : Web) (cfg : QbittorrentConfig) where
  content_name-IsSafeName : (t : W.Value) → IsSafeName (content_name W cfg t)
  unfolding content_name Option.bind
  content_name-IsSafeName t = elim (Option-cases (W.as_str (W.index t "content_path"))) [
    | inl e ↦ rw (e, content_name, Option.bind) (inl refl)
    | inr (path, e) ↦ elim (Option-cases (file_name path)) [
      | inl e' ↦ rw (e, content_name, Option.bind, e') (inl refl)
      | inr (name, e') ↦
          rw (e, content_name, Option.bind, e') (inr (file_name-IsNormal path name e'))
    ]
  ]

  first_torrent-IsSafeName :
      (h : String) (body : Result (List W.Value) String) (ts : TorrentStatus)
      → first_torrent W cfg h body ≡ ok ts
      → IsSafeName ts.content_name
  unfolding to_status
  first_torrent-IsSafeName h (err e) ts eq = cc
  first_torrent-IsSafeName h (ok []) ts eq = cc
  first_torrent-IsSafeName h (ok (t ∷ more)) ts eq =
      subst IsSafeName (ground arith) (content_name-IsSafeName t)

  queried-IsSafeName :
      (h : String) (r : Result W.Response AuthenticatedClientError) (ts : TorrentStatus)
      → queried W cfg h r ≡ ok ts
      → IsSafeName ts.content_name
  unfolding queried
  queried-IsSafeName h (err e) ts eq = cc
  queried-IsSafeName h (ok resp) ts eq =
      elim (Bool-cases (leb 200 (W.status resp) && ltb (W.status resp) 300)) [
        | inl good ↦ first_torrent-IsSafeName h (W.json resp) ts (rw good at eq)
        | inr bad ↦ cc (bad)
      ]

  -- The content name that a status reports is empty or one normal path component: not `.` or `..`,
  -- and without a slash, whatever path the client sends.
  pub status-IsSafeName :
      (h : String) (a : Auth (http W cfg)) (ts : TorrentStatus)
      → (status W cfg h a).0 ≡ ok ts
      → IsSafeName ts.content_name
  unfolding status
  status-IsSafeName h a ts eq =
      queried-IsSafeName h (with_auth (http W cfg) (info_request W cfg h) a).0 ts eq

  -- The response of a status query that was accepted by the session.
  abbrev pub answered : String → Auth (http W cfg) → Result W.Response AuthenticatedClientError
  answered h a = (with_auth (http W cfg) (info_request W cfg h) a).0

  first_torrent-not_found :
      (h m : String) (body : Result (List W.Value) String)
      → first_torrent W cfg h body ≡ err (not_found m)
      → (body ≡ ok []) × (m ≡ h)
  first_torrent-not_found h m (err e) eq = cc
  first_torrent-not_found h m (ok []) eq = (refl, (cc))
  first_torrent-not_found h m (ok (t ∷ more)) eq = cc

  queried-not_found :
      (h m : String) (r : Result W.Response AuthenticatedClientError)
      → queried W cfg h r ≡ err (not_found m)
      → (resp : W.Response) × (r ≡ ok resp)
        × (200 ≤ W.status resp)
        × (W.status resp < 300)
        × (W.json resp ≡ ok [])
        × (m ≡ h)
  unfolding queried
  queried-not_found h m (err (auth_failed c)) eq = cc
  queried-not_found h m (err (client_error e)) eq = cc
  queried-not_found h m (ok resp) eq =
      elim (Bool-cases (leb 200 (W.status resp) && ltb (W.status resp) 300)) [
        | inr bad ↦ cc (bad)
        | inl good ↦
            let (empty, same) = first_torrent-not_found h m (W.json resp) (rw good at eq) in
            (resp, refl, ground arith, ground arith, empty, same)
      ]

  -- A torrent is reported as not found only by a response of the 2xx class whose body is the empty
  -- array: no refused login, failed request, other status or unreadable body is taken for that.
  pub status-not_found :
      (h m : String) (a : Auth (http W cfg))
      → (status W cfg h a).0 ≡ err (not_found m)
      → (resp : W.Response) × (answered h a ≡ ok resp)
        × (200 ≤ W.status resp)
        × (W.status resp < 300)
        × (W.json resp ≡ ok [])
        × (m ≡ h)
  unfolding status
  status-not_found h m a eq = queried-not_found h m (answered h a) eq

  -- The last use of the network: the magnet's text posted to the form of the API, with the client of the
  -- session that is left, and answered with 200.
  pub record Posted (magnet : Magnet) (a : Auth (http W cfg)) : Type 0 where
    pub client : W.Client
    pub before : W.Network
    pub resp : W.Response
    pub held : a.session.client ≡ some client
    pub posted :
        W.post_form client (cfg.host <> "/api/v2/torrents/add") (("urls", magnet.raw) ∷ []) before
        ≡ (ok resp, a.network)
    pub accepted : W.status resp ≡ 200

  added-ok :
      (r : Result W.Response AuthenticatedClientError)
      → added W cfg r ≡ ok tt
      → (resp : W.Response) × (r ≡ ok resp) × (W.status resp ≡ 200)
  unfolding added
  added-ok (err e) h = cc
  added-ok (ok resp) h = (resp, refl, ground arith)

  -- A submission to qBittorrent that succeeds has, as its last use of the network, posted the magnet's text
  -- to /api/v2/torrents/add of the host, with the client of the session that it leaves, and got a
  -- response with status 200: neither a failed login nor a refused or another request is taken for that.
  pub download-Posted :
      (magnet : Magnet) (a : Auth (http W cfg))
      → (download W cfg magnet a).0 ≡ ok tt
      → Posted magnet (download W cfg magnet a).1
  unfolding download
  download-Posted magnet a h =
      let (resp, got, status_200) =
        added-ok (with_auth (http W cfg) (add_request W cfg magnet) a).0 h in
      let sent = with_auth-Sent (http W cfg) (add_request W cfg magnet) a resp got in
      record {
        client = sent.client;
        before = sent.before;
        resp = resp;
        held = sent.held;
        posted = sent.answered;
        accepted = status_200;
      }

  unexpected_of_queried :
      (h : String) (c : ℕ) (r : Result W.Response AuthenticatedClientError)
      → queried W cfg h r ≡ err (unexpected_status c)
      → (resp : W.Response) × (r ≡ ok resp) × (W.status resp ≡ c)
  unfolding queried
  unexpected_of_queried h c (err (auth_failed s)) eq = cc
  unexpected_of_queried h c (err (client_error e)) eq = cc
  unexpected_of_queried h c (ok resp) eq = (resp, refl, ground arith)

  -- A refused login is never reported as an unexpected status: 401 and 403 end as `AuthFailed`.
  pub status-unexpected :
      (h : String) (a : Auth (http W cfg)) (c : ℕ)
      → (status W cfg h a).0 ≡ err (unexpected_status c)
      → (c ≢ 401) × (c ≢ 403)
  unfolding status
  status-unexpected h a c eq =
      let (resp, got, same) = unexpected_of_queried h c (answered h a) eq in
      rw (← same) (with_auth-ok (http W cfg) (info_request W cfg h) a resp got)
