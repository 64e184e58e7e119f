-- ===== src/Cli/Host.antt =====
-- What the commands of src/cli ask of the machine that they run on: the file system, the database of
-- `redb` under the store, a TCP listener, and a thread for the background task. Errors are their texts.
use magnarr.Prelude.{ℕ, String, Bool, Result}
use magnarr.Cli.Config.{Duration}
use magnarr.Client.Qbittorrent.{QbittorrentConfig}

-- The fields of an `App` (app/mod.rs), over a database of the type `Db`.
pub record AppParts (Db : Type 0) : Type 0 where
  pub repository : Db
  pub torrent_client : QbittorrentConfig
  pub poll_interval : Duration
  pub download_dir : String

-- `start_app` is `App::start`. `serve` spawns the server of an app with the largest page size, behind a
-- listener.
pub record Host : Type 1 where
  pub State : Type 0
  pub Db : Type 0
  pub Listener : Type 0
  pub exists : String → State → Bool
  pub create_dir_all : String → State → Result (Unit {0}) String × State
  pub write : String → String → State → Result (Unit {0}) String × State
  pub create_db : String → State → Result Db String × State
  pub bind : String → State → Result Listener String × State
  pub start_app : AppParts Db → State → State
  pub serve : Listener → AppParts Db → ℕ → State → State
