-- ===== src/Cli/Load/Layers.antt =====
-- What `load_config` (cli/config.rs) relies on of the `config` crate: later sources and overrides win, and
-- the derived `Deserialize` reads each field from its key, with the default where there is none.
use magnarr.Prelude.{
  ℕ, ◌<◌, ◌*◌, ◌^◌, String, ◌≡◌, Bool, Option, none, some, ok, str_eq, if◌then◌else◌,
}
use magnarr.Cli.Config.{Duration, Config, TorrentClientConfig, QbittorrentConfig, qbittorrent}
use magnarr.Cli.Config.{default_app, default_server, default_store, default_qbittorrent}
use magnarr.Cli.Load.{Value, text, whole, ConfigCrate}

-- The first that is there.
abbrev pub or_else : {A : Type 0} → Option A → Option A → Option A
or_else none o = o
or_else (some a) o = some a

abbrev pub the_qbittorrent : TorrentClientConfig → QbittorrentConfig
the_qbittorrent (qbittorrent qb) = qb

-- A field is read from the value of its key, or has its default.
abbrev pub Read : {A : Type 0} → (Value → Option A) → A → Option Value → A → Type 0
Read decode default none a = a ≡ default
Read decode default (some v) a = decode v ≡ some a

-- How a value is read as a text, a number and a duration.
pub record Decoders (K : ConfigCrate) : Type 0 where
  pub as_text : Value → Option String
  pub as_whole : Value → Option ℕ
  pub as_duration : Value → Option Duration
  pub text_as_text : (s : String) → as_text (text s) ≡ some s
  pub whole_as_whole : (n : ℕ) → n < 2 ^ 64 → as_whole (whole n) ≡ some n
  pub duration_as_duration :
      (d : Duration) → d < 2 ^ 64 * 10 ^ 9 → as_duration (text (K.format_duration d)) ≡ some d

-- The fields of `cfg`, from the values of their keys.
pub record Fields (K : ConfigCrate) (D : Decoders K) (value : String → Option Value) (cfg : Config)
    : Type 0 where
  pub poll_interval :
      Read D.as_duration default_app.poll_interval (value "app.poll_interval") cfg.app.poll_interval
  pub download_dir :
      Read D.as_text default_app.download_dir (value "app.download_dir") cfg.app.download_dir
  pub listen_addr :
      Read D.as_text default_server.listen_addr (value "server.listen_addr") cfg.server.listen_addr
  pub max_page_size :
      Read D.as_whole default_server.max_page_size
        (value "server.max_page_size")
        cfg.server.max_page_size
  pub store_path : Read D.as_text default_store.path (value "store.path") cfg.store.path
  pub host :
      Read D.as_text default_qbittorrent.host
        (value "torrent_client.qbittorrent.host")
        (the_qbittorrent cfg.torrent_client).host
  pub username :
      Read D.as_text default_qbittorrent.username
        (value "torrent_client.qbittorrent.username")
        (the_qbittorrent cfg.torrent_client).username
  pub password :
      Read D.as_text default_qbittorrent.password
        (value "torrent_client.qbittorrent.password")
        (the_qbittorrent cfg.torrent_client).password

-- `set` are the overrides of a builder and `read` what its sources hold, by key.
pub record Layers (K : ConfigCrate) (D : Decoders K) : Type 0 where
  pub file : String → String → Option Value
  pub environment : String → String → String → Option Value
  pub set : K.Builder → String → Option Value
  pub read : K.Builder → String → Option Value
  pub merged : K.Merged → String → Option Value
  pub builder_is_empty : (k : String) → (set K.builder k ≡ none) × (read K.builder k ≡ none)
  pub add_file_reads :
      (path : String) (required : Bool) (b : K.Builder) (k : String)
      → (set (K.add_file path required b) k ≡ set b k)
        × (read (K.add_file path required b) k ≡ or_else (file path k) (read b k))
  pub add_environment_reads :
      (prefix separator : String) (b : K.Builder) (k : String)
      → (set (K.add_environment prefix separator b) k ≡ set b k)
        × (read (K.add_environment prefix separator b) k
            ≡ or_else (environment prefix separator k) (read b k))
  pub set_override_option_sets :
      (key : String) (value : Option Value) (b b' : K.Builder) (k : String)
      → K.set_override_option key value b ≡ ok b'
      → (set b' k ≡ (if str_eq k key then or_else value (set b k) else set b k))
        × (read b' k ≡ read b k)
  pub build_merges :
      (b : K.Builder) (m : K.Merged) (k : String)
      → K.build b ≡ ok m
      → merged m k ≡ or_else (set b k) (read b k)
  pub try_deserialize_reads :
      (m : K.Merged) (cfg : Config) → K.try_deserialize m ≡ ok cfg → Fields K D (merged m) cfg
