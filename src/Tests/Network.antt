-- ===== src/Tests/Network.antt =====
-- Runs of client/http.rs and client/qbittorrent.rs, and the witnesses of what is proved of them.
use magnarr.Prelude.{
  ℕ, suc, ◌+◌, ◌*◌, ◌≤◌, ◌<◌, ◌≡◌, refl, ◌≢◌, arith, String, ◌<>◌, none, some, Option,
}
use magnarr.Prelude.{List, [], ◌∷◌, Result, ok, err, str_eq, if◌then◌else◌, leb}
use magnarr.Types.Torrent.{TorrentStatus, seeding}
use magnarr.App.Torrent.{not_found, unexpected_status}
use magnarr.Client.Http.{Auth, login, renew_session, with_auth}
use magnarr.Client.Http.Laws.{with_auth-ok, renew_all, renew_all-once}
use magnarr.Client.Http.Cost.{with_auth-cost, with_auth-cost_open}
use magnarr.Client.Qbittorrent.{
  Web, QbittorrentConfig, http, login_fn, status, download, info_request,
}
use magnarr.Client.Qbittorrent.Laws.{IsSafeName, answered, status-IsSafeName, status-not_found}
use magnarr.Client.Qbittorrent.Laws.{Posted, download-Posted, status-unexpected}
use magnarr.Prelude.FilePath.{file_name}
use mathlib.Core.Option
use magnarr.Tests.Fixtures.{magnet}

-- A value is a text, or fields that are texts.
abbrev pub Value : Type 0
Value = Option String × List (String × String)

abbrev field_of : List (String × String) → String → Option String
field_of [] key = none
field_of ((k, v) ∷ fields) key = if str_eq k key then some v else field_of fields key

abbrev pub torrent : Value
torrent = (
  none,
  ("hash", "AB12")
      ∷ ("state", "uploading")
      ∷ ("name", "Show")
      ∷ ("content_path", "/done/Show.S01")
      ∷ [],
)

abbrev Response : Type 0
Response = ℕ × Result (List Value) String

abbrev info_url : String
info_url = "http://host/api/v2/torrents/info?hashes="

-- The session that opens first is dead; the network counts its calls.
abbrev answer : String → Response
answer url =
    if str_eq url (info_url <> "AB12")
    then (200, ok (torrent ∷ []))
    else if str_eq url (info_url <> "CD34")
    then (200, ok [])
    else (500, err "no body")

abbrev pub web : Web
web = record {
  Client = Unit;
  Response = Response;
  Network = ℕ;
  Value = Value;
  base_client = tt;
  status = λ r. r.0;
  post_form = λ c url form n. (ok (200, err "no body"), suc n);
  get = λ c url n. (ok (if leb n 1 then (403, err "no body") else answer url), suc n);
  json = λ r. r.1;
  index = λ v key. (field_of v.1 key, []);
  as_str = λ v. v.0;
}

abbrev pub config : QbittorrentConfig
config = record { host = "http://host"; username = "admin"; password = "secret" }

abbrev pub closed : Auth (http web config)
closed = record { session = record { id = 0; client = none }; network = 0 }

abbrev opened : Auth (http web config)
opened = record { session = record { id = 1; client = some tt }; network = 1 }

answered_seeding :
    (with_auth (http web config) (info_request web config "AB12") closed).0
    ≡ ok (200, ok (torrent ∷ []))
unfolding with_auth login_fn
answered_seeding = refl

with_auth-ok_example : ◌≢◌ {A = ℕ} 200 401 × ◌≢◌ {A = ℕ} 200 403
with_auth-ok_example =
    with_auth-ok (http web config) (info_request web config "AB12") closed (200, ok (torrent ∷ []))
      answered_seeding

renewed : (renew_session (http web config) 0 closed).0 ≡ ok (tt, 1)
unfolding renew_session login_fn
renewed = refl

renew_all-once_example : renew_all (http web config) 3 0 closed ≡ (login (http web config) closed).1
renew_all-once_example = renew_all-once (http web config) 2 closed (omega arith) renewed

login_calls : (n : ℕ) → (login_fn web config tt n).1 ≤ n + 1
unfolding login_fn
login_calls n = omega arith

with_auth-cost_example :
    (with_auth (http web config) (info_request web config "AB12") closed).1.network
    ≤ 0 + 2 * 1 + 2 * 1
with_auth-cost_example =
    with_auth-cost (http web config) (info_request web config "AB12") (λ n. n) 1 1
      (λ c n. omega arith) login_calls closed

with_auth-cost_open_example :
    (with_auth (http web config) (info_request web config "AB12") opened).1.network ≤ 1 + 2 * 1 + 1
with_auth-cost_open_example =
    with_auth-cost_open (http web config) (info_request web config "AB12") (λ n. n) 1 1
      (λ c n. omega arith) login_calls opened refl

abbrev reported : TorrentStatus
reported = record { hash = "AB12"; state = seeding; name = "Show"; content_name = "Show.S01" }

status_seeding : (status web config "AB12" closed).0 ≡ ok reported
unfolding status with_auth login_fn Option.bind file_name
status_seeding = refl

status-IsSafeName_example : IsSafeName "Show.S01"
status-IsSafeName_example = status-IsSafeName web config "AB12" closed reported status_seeding

status_missing : (status web config "CD34" closed).0 ≡ err (not_found "CD34")
unfolding status with_auth login_fn
status_missing = refl

status-not_found_example :
    (resp : Response) × (answered web config "CD34" closed ≡ ok resp)
    × (200 ≤ resp.0)
    × (resp.0 < 300)
    × (resp.1 ≡ ok [])
    × (◌≡◌ {A = String} "CD34" "CD34")
status-not_found_example = status-not_found web config "CD34" "CD34" closed status_missing

download_done : (download web config magnet closed).0 ≡ ok tt
unfolding download with_auth login_fn
download_done = refl

download-Posted_example : Posted web config magnet (download web config magnet closed).1
download-Posted_example = download-Posted web config magnet closed download_done

status_refused : (status web config "EF56" closed).0 ≡ err (unexpected_status 500)
unfolding status with_auth login_fn
status_refused = refl

status-unexpected_example : ◌≢◌ {A = ℕ} 500 401 × ◌≢◌ {A = ℕ} 500 403
status-unexpected_example = status-unexpected web config "EF56" closed 500 status_refused
