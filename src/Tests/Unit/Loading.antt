-- ===== src/Tests/Unit/Loading.antt =====
-- The tests of cli/config.rs. The `config` crate has the file and the environment as tables of keys, the
-- latter under the names that it makes of the variables by splitting them at each underscore.
use magnarr.Prelude.{ℕ, ◌*◌, ◌^◌, String, ◌≡◌, refl, Bool, true, false, ◌&&◌, ◌==◌}
use magnarr.Prelude.{Option, none, some, List, [], ◌∷◌, Result, ok, err, str_eq, if◌then◌else◌}
use magnarr.Prelude.FilePath.{join}
use magnarr.Cli.Config.{Config, qbittorrent}
use magnarr.Cli.Load.{Value, text, whole, StartArgs, load_config}
use magnarr.Tests.Sources.{crate_of, Keyed, deserialize}

abbrev seconds : ℕ → ℕ
seconds n = n * 10 ^ 9

-- The durations of the tests, as `humantime` writes and reads them.
abbrev read : String → Option ℕ
read s =
    if str_eq s "45s"
    then some (seconds 45)
    else if str_eq s "1m"
    then some (seconds 60)
    else if str_eq s "1m 30s"
    then some (seconds 90)
    else none

abbrev format : ℕ → String
format n = if n == seconds 90 then "1m 30s" else ""

abbrev value_of : List (String × Value) → Keyed
value_of [] k = none
value_of ((key, value) ∷ rest) k = let v = value_of rest k in if str_eq k key then some value else v

abbrev no_args : StartArgs
no_args = record {
  poll_interval = none;
  download_dir = none;
  listen_addr = none;
  max_page_size = none;
  store_path = none;
  qb_host = none;
  qb_username = none;
  qb_password = none;
}

abbrev written : List (String × Value)
written =
    ("app.poll_interval", text "45s")
    ∷ ("app.download_dir", text "./downloads-from-file")
    ∷ ("server.listen_addr", text "127.0.0.1:4000")
    ∷ ("server.max_page_size", whole 75)
    ∷ ("store.path", text "./store-from-file.redb")
    ∷ ("torrent_client.qbittorrent.host", text "http://qb-from-file:8081")
    ∷ ("torrent_client.qbittorrent.username", text "file-user")
    ∷ ("torrent_client.qbittorrent.password", text "file-pass")
    ∷ []

abbrev variables : List (String × Value)
variables =
    ("app.poll.interval", text "1m")
    ∷ ("app.download.dir", text "./downloads-from-env")
    ∷ ("server.listen.addr", text "0.0.0.0:5000")
    ∷ ("server.max.page.size", text "80")
    ∷ ("store.path", text "./store-from-env.redb")
    ∷ []

-- The home of the tests is `/home`, and the file is in it.
unfoldable load : List (String × Value) → List (String × Value) → StartArgs → Result Config String
unfolding load_config
load file environment args =
    load_config
      (crate_of (λ path. if str_eq path "/home/config.yaml" then value_of file else value_of [])
        (λ prefix separator. value_of environment) read format)
      "/home" args

-- `has r interval dir addr size path host username password`: the assertions of a test.
abbrev has :
    Result Config String → ℕ → String → String → ℕ → String → String → String → String → Bool
has (err e) _ _ _ _ _ _ _ _ = false
has (ok cfg) interval dir addr size path host username password =
    cfg.app.poll_interval == interval
    && str_eq cfg.app.download_dir dir
    && str_eq cfg.server.listen_addr addr
    && cfg.server.max_page_size == size
    && str_eq cfg.store.path path
    && elim cfg.torrent_client [
      | qbittorrent qb ↦
          str_eq qb.host host && str_eq qb.username username && str_eq qb.password password
    ]

unfoldable load_config_uses_defaults_without_other_sources : Bool
unfolding load
load_config_uses_defaults_without_other_sources =
    has (load [] [] no_args) (seconds 30) "./download" "http://localhost:9393" 100
      "./data/magnarr.redb" "http://localhost:8080" "admin" "adminadmin"

defaults : load_config_uses_defaults_without_other_sources ≡ true
unfolding load_config_uses_defaults_without_other_sources deserialize join
defaults = refl

unfoldable load_config_reads_config_file_values : Bool
unfolding load
load_config_reads_config_file_values =
    has (load written [] no_args) (seconds 45) "./downloads-from-file" "127.0.0.1:4000" 75
      "./store-from-file.redb" "http://qb-from-file:8081" "file-user" "file-pass"

file_values : load_config_reads_config_file_values ≡ true
unfolding load_config_reads_config_file_values deserialize join
file_values = refl

unfoldable load_config_applies_override_chain_defaults_file_env_cli : Bool
unfolding load
load_config_applies_override_chain_defaults_file_env_cli =
    has
      (load written variables (record {
        poll_interval = some (seconds 90);
        download_dir = some "./downloads-from-cli";
        listen_addr = some "0.0.0.0:6000";
        max_page_size = some 90;
        store_path = some "./store-from-cli.redb";
        qb_host = some "http://qb-from-cli:8082";
        qb_username = some "cli-user";
        qb_password = some "cli-pass";
      }))
      (seconds 90) "./downloads-from-cli" "0.0.0.0:6000" 90 "./store-from-cli.redb"
      "http://qb-from-cli:8082" "cli-user" "cli-pass"

override_chain : load_config_applies_override_chain_defaults_file_env_cli ≡ true
unfolding load_config_applies_override_chain_defaults_file_env_cli deserialize join
override_chain = refl
