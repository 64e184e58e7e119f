-- ===== src/Client/Qbittorrent.antt =====
-- client/qbittorrent.rs: the torrent client over qBittorrent's Web API. `reqwest`, `serde_json` and
-- the network are parameters.
pub mod Laws
use magnarr.Prelude.{ℕ, zero, String, ◌<>◌, Bool, ◌&&◌, Option, none, some, List, [], ◌∷◌, Result}
use magnarr.Prelude.{ok, err, str_eq, leb, ltb, ◌==◌, if◌then◌else◌, any, map_ok, map_err}
use magnarr.Prelude.FilePath.{file_name}
use magnarr.Types.Magnet.{Magnet}
use magnarr.Types.Torrent.{TorrentState, TorrentStatus}
use magnarr.App.Torrent.{TorrentClient, TorrentClientError}
use magnarr.Client.Http.{
  HttpDeps, Auth, Request, AuthenticatedClientError, auth_failed, client_error,
}
use magnarr.Client.Http.{with_auth, ensure_authenticated}
use mathlib.Core.Option

pub record QbittorrentConfig : Type 0 where
  pub host : String
  pub username : String
  pub password : String

-- `reqwest` and `serde_json`: requests, the body of a response read as an array, and its values.
pub record Web : Type 1 where
  pub Client : Type 0
  pub Response : Type 0
  pub Network : Type 0
  pub Value : Type 0
  pub base_client : Client
  pub status : Response → ℕ
  pub post_form :
      Client → String → List (String × String) → Network → Result Response String × Network
  pub get : Client → String → Network → Result Response String × Network
  pub json : Response → Result (List Value) String
  pub index : Value → String → Value
  pub as_str : Value → Option String

unfoldable pub from_auth_error : AuthenticatedClientError → TorrentClientError
from_auth_error (auth_failed s) = TorrentClientError.auth_failed s
from_auth_error (client_error e) = TorrentClientError.client_error e

unfoldable pub parse_state : String → TorrentState
parse_state s =
    if any (str_eq s) ("downloading" ∷ "stalledDL" ∷ "checkingDL" ∷ "forcedDL" ∷ "metaDL" ∷ [])
    then TorrentState.downloading
    else if any (str_eq s) ("uploading" ∷ "stalledUP" ∷ "checkingUP" ∷ "forcedUP" ∷ "seeding" ∷ [])
    then TorrentState.seeding
    else if any (str_eq s) ("pausedDL" ∷ "pausedUP" ∷ "stoppedDL" ∷ "stoppedUP" ∷ [])
    then TorrentState.paused
    else if any (str_eq s) ("error" ∷ "missingFiles" ∷ "unknown" ∷ [])
    then TorrentState.error
    else TorrentState.unknown

abbrev unwrap_or_empty : Option String → String
unwrap_or_empty none = ""
unwrap_or_empty (some s) = s

module _ (W : Web) (cfg : QbittorrentConfig) where
  -- What `make_login_fn` returns.
  unfoldable pub login_fn :
      W.Client → W.Network → Result W.Client AuthenticatedClientError × W.Network
  unfolding ensure_authenticated
  login_fn client n =
      let (r, n') =
        W.post_form client (cfg.host <> "/api/v2/auth/login")
          (("username", cfg.username) ∷ ("password", cfg.password) ∷ []) n in
      elim r [
        | err e ↦ (err (client_error e), n')
        | ok resp ↦ (map_ok (λ _. client) (ensure_authenticated W.status resp), n')
      ]

  abbrev pub http : HttpDeps
  http = record {
    Client = W.Client;
    Response = W.Response;
    Network = W.Network;
    status = W.status;
    base_client = W.base_client;
    login_fn = login_fn;
  }

  abbrev pub add_request : Magnet → Request http
  add_request magnet client n =
      W.post_form client (cfg.host <> "/api/v2/torrents/add") (("urls", magnet.raw) ∷ []) n

  -- The match on the response of the submission.
  unfoldable pub added :
      Result W.Response AuthenticatedClientError → Result (Unit {0}) TorrentClientError
  unfolding from_auth_error
  added (err e) = err (from_auth_error e)
  added (ok resp) =
      if W.status resp == 200
      then ok tt
      else err (TorrentClientError.unexpected_status (W.status resp))

  unfoldable pub download : Magnet → Auth http → Result (Unit {0}) TorrentClientError × Auth http
  unfolding added
  download magnet a = let (r, a') = with_auth http (add_request magnet) a in (added r, a')

  abbrev text_at : W.Value → String → String
  text_at t key = unwrap_or_empty (W.as_str (W.index t key))

  unfoldable pub content_name : W.Value → String
  content_name t = unwrap_or_empty (Option.bind (W.as_str (W.index t "content_path")) file_name)

  unfoldable pub to_status : W.Value → TorrentStatus
  unfolding parse_state content_name
  to_status t = record {
    hash = text_at t "hash";
    state = parse_state (text_at t "state");
    name = text_at t "name";
    content_name = content_name t;
  }

  abbrev first_torrent :
      String → Result (List W.Value) String → Result TorrentStatus TorrentClientError
  first_torrent info_hash (err e) = err (TorrentClientError.client_error e)
  first_torrent info_hash (ok []) = err (TorrentClientError.not_found info_hash)
  first_torrent info_hash (ok (t ∷ ts)) = ok (to_status t)

  -- From the response of the query on.
  unfoldable pub queried :
      String → Result W.Response AuthenticatedClientError → Result TorrentStatus TorrentClientError
  unfolding from_auth_error to_status
  queried info_hash (err e) = err (from_auth_error e)
  queried info_hash (ok resp) =
      if leb 200 (W.status resp) && ltb (W.status resp) 300
      then first_torrent info_hash (W.json resp)
      else err (TorrentClientError.unexpected_status (W.status resp))

  abbrev pub info_request : String → Request http
  info_request info_hash client n =
      W.get client ((cfg.host <> "/api/v2/torrents/info?hashes=") <> info_hash) n

  unfoldable pub status : String → Auth http → Result TorrentStatus TorrentClientError × Auth http
  unfolding queried
  status info_hash a =
      let (r, a') = with_auth http (info_request info_hash) a in (queried info_hash r, a')

  -- `impl TorrentClient for QbittorrentClient`
  abbrev pub qbittorrent_client : TorrentClient
  qbittorrent_client = record { State = Auth http; download = download; status = status }
