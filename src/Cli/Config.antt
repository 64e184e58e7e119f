-- ===== src/Cli/Config.antt =====
-- cli/config.rs: the records of the configuration, their defaults, and the paths that are read from
-- them; and what cli/start.rs hands to the torrent client.
pub mod Laws
use magnarr.Prelude.{ℕ, ◌*◌, ◌^◌, String, Bool, if◌then◌else◌}
use magnarr.Prelude.FilePath.{is_absolute, join}
use magnarr.Client.Qbittorrent as Client

-- `std::time::Duration`, in nanoseconds.
abbrev pub Duration : Type 0
Duration = ℕ

pub record AppConfig : Type 0 where
  pub poll_interval : Duration
  pub download_dir : String

pub record ServerConfig : Type 0 where
  pub listen_addr : String
  pub max_page_size : ℕ

pub record StoreConfig : Type 0 where
  pub path : String

pub record QbittorrentConfig : Type 0 where
  pub host : String
  pub username : String
  pub password : String

pub data TorrentClientConfig : Type 0 where
  qbittorrent : QbittorrentConfig → TorrentClientConfig

pub record Config : Type 0 where
  pub app : AppConfig
  pub server : ServerConfig
  pub store : StoreConfig
  pub torrent_client : TorrentClientConfig

abbrev pub default_app : AppConfig
default_app = record { poll_interval = 30 * 10 ^ 9; download_dir = "./download" }

abbrev pub default_server : ServerConfig
default_server = record { listen_addr = "http://localhost:9393"; max_page_size = 100 }

abbrev pub default_store : StoreConfig
default_store = record { path = "./data/magnarr.redb" }

abbrev pub default_qbittorrent : QbittorrentConfig
default_qbittorrent = record {
  host = "http://localhost:8080";
  username = "admin";
  password = "adminadmin";
}

abbrev pub default_config : Config
default_config = record {
  app = default_app;
  server = default_server;
  store = default_store;
  torrent_client = qbittorrent default_qbittorrent;
}

unfoldable pub home_relative_or_absolute_path : String → String → String
home_relative_or_absolute_path home path = if is_absolute path then path else join home path

unfoldable pub resolve_download_dir : AppConfig → String → String
unfolding home_relative_or_absolute_path
resolve_download_dir cfg home = home_relative_or_absolute_path home cfg.download_dir

unfoldable pub resolve_path : StoreConfig → String → String
unfolding home_relative_or_absolute_path
resolve_path cfg home = home_relative_or_absolute_path home cfg.path

unfoldable pub get_config_path : String → String
get_config_path home = join home "config.yaml"

-- What `run` of cli/start.rs makes the client from.
unfoldable pub connection : TorrentClientConfig → Client.QbittorrentConfig
connection (qbittorrent qb) = record {
  host = qb.host;
  username = qb.username;
  password = qb.password;
}
