-- ===== src/Cli/Load.antt =====
-- `load_config` of cli/config.rs, and the arguments of cli/start.rs that it merges in. The `config` crate,
-- which reads and merges the sources, is a parameter.
pub mod Layers
pub mod Laws
use magnarr.Prelude.{ℕ, String, Bool, false, Option, none, some, List, [], ◌∷◌, Result, ok, ◌>>=◌}
use magnarr.Cli.Config.{Duration, Config, get_config_path}
use mathlib.Core.Option

-- A scalar of the crate, as it can be set.
pub data Value : Type 0 where
  text : String → Value
  whole : ℕ → Value

-- Each path is a text: there are no paths outside UTF-8.
pub record StartArgs : Type 0 where
  pub poll_interval : Option Duration
  pub download_dir : Option String
  pub listen_addr : Option String
  pub max_page_size : Option ℕ
  pub store_path : Option String
  pub qb_host : Option String
  pub qb_username : Option String
  pub qb_password : Option String

-- `config::Config::builder()` and what follows it, over the files and the environment as they are, and
-- `humantime::format_duration`.
pub record ConfigCrate : Type 1 where
  pub Builder : Type 0
  pub Merged : Type 0
  pub ConfigError : Type 0
  pub builder : Builder
  pub add_file : String → Bool → Builder → Builder
  pub add_environment : String → String → Builder → Builder
  pub set_override_option : String → Option Value → Builder → Result Builder ConfigError
  pub build : Builder → Result Merged ConfigError
  pub try_deserialize : Merged → Result Config ConfigError
  pub format_duration : Duration → String

module _ (K : ConfigCrate) where
  -- The overrides, in the order in which they are set.
  unfoldable pub overrides : StartArgs → List (String × Option Value)
  overrides args =
      ("app.poll_interval", Option.map (λ d. text (K.format_duration d)) args.poll_interval)
      ∷ ("app.download_dir", Option.map text args.download_dir)
      ∷ ("server.listen_addr", Option.map text args.listen_addr)
      ∷ ("server.max_page_size", Option.map whole args.max_page_size)
      ∷ ("store.path", Option.map text args.store_path)
      ∷ ("torrent_client.qbittorrent.host", Option.map text args.qb_host)
      ∷ ("torrent_client.qbittorrent.username", Option.map text args.qb_username)
      ∷ ("torrent_client.qbittorrent.password", Option.map text args.qb_password)
      ∷ []

  unfoldable pub set_overrides :
      List (String × Option Value) → K.Builder → Result K.Builder K.ConfigError
  set_overrides [] b = ok b
  set_overrides ((key, value) ∷ rest) b = K.set_override_option key value b >>= set_overrides rest

  unfoldable pub load_config : String → StartArgs → Result Config K.ConfigError
  unfolding overrides set_overrides get_config_path
  load_config home args =
      set_overrides (overrides args)
        (K.add_environment "MAGNARR" "_" (K.add_file (get_config_path home) false K.builder))
      >>= λ b. K.build b >>= K.try_deserialize
