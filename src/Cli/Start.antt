-- ===== src/Cli/Start.antt =====
-- cli/start.rs: the command that runs the service.
pub mod Laws
use magnarr.Prelude.{ℕ, String, Result, ok, err}
use magnarr.App.Repository.{RepositoryError}
use magnarr.Cli.Config.{Config, connection, resolve_download_dir, resolve_path}
use magnarr.Cli.Load.{StartArgs, ConfigCrate, load_config}
use magnarr.Cli.Host.{Host, AppParts}
use magnarr.Cli.Open.{new}

-- The process has exited with a code, or serves until a token is cancelled that nothing cancels.
pub data Ending : Type 0 where
  exited : ℕ → Ending
  serving : Ending

module _ (N : Host) where
  unfoldable pub app_of : String → Config → N.Db → AppParts N.Db
  unfolding connection resolve_download_dir
  app_of home cfg repo = record {
    repository = repo;
    torrent_client = connection cfg.torrent_client;
    poll_interval = cfg.app.poll_interval;
    download_dir = resolve_download_dir cfg.app home;
  }

  unfoldable pub serve :
      Config → AppParts N.Db → Result N.Listener String × N.State → Ending × N.State
  serve cfg app (err e, s) = (exited 1, s)
  serve cfg app (ok listener, s) = (serving, N.serve listener app cfg.server.max_page_size s)

  -- The background task runs before the listener is bound.
  unfoldable pub launch : String → Config → Result N.Db RepositoryError × N.State → Ending × N.State
  unfolding app_of serve
  launch home cfg (err e, s) = (exited 1, s)
  launch home cfg (ok repo, s) =
      let app = app_of home cfg repo in
      serve cfg app (N.bind cfg.server.listen_addr (N.start_app app s))

module _ (K : ConfigCrate) (N : Host) where
  unfoldable pub configured : String → Result Config K.ConfigError → N.State → Ending × N.State
  unfolding launch new resolve_path
  configured home (err e) s = (exited 1, s)
  configured home (ok cfg) s = launch N home cfg (new N (resolve_path cfg.store home) s)

  unfoldable pub run : String → StartArgs → N.State → Ending × N.State
  unfolding configured load_config
  run home args s = configured home (load_config K home args) s
