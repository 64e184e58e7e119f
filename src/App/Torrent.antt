-- ===== src/App/Torrent.antt =====
-- app/torrent.rs: the trait of a torrent client.
use magnarr.Prelude.{ℕ, String, Result}
use magnarr.Types.Magnet.{Magnet}
use magnarr.Types.Torrent.{TorrentStatus}

abbrev pub StatusCode : Type 0
StatusCode = ℕ

-- A `reqwest::Error` is kept as the text that it displays.
pub data TorrentClientError : Type 0 where
  auth_failed : StatusCode → TorrentClientError
  not_found : String → TorrentClientError
  unexpected_status : StatusCode → TorrentClientError
  client_error : String → TorrentClientError

-- The state is the client's session and all that lies behind it on the network.
pub record TorrentClient : Type 1 where
  pub State : Type 0
  pub download : Magnet → State → Result (Unit {0}) TorrentClientError × State
  pub status : String → State → Result TorrentStatus TorrentClientError × State
