-- ===== src/Cli/Start/Laws.antt =====
-- What the service of cli/start.rs runs with.
use magnarr.Prelude.{ℕ, String, ◌≡◌, refl, sym, ap, subst, Result, ok, err}
use magnarr.App.Repository.{RepositoryError}
use magnarr.Cli.Config.{Config, TorrentClientConfig, qbittorrent, connection, resolve_path}
use magnarr.Cli.Config.{resolve_download_dir, home_relative_or_absolute_path, default_app}
use magnarr.Cli.Config.{default_server, default_store, default_qbittorrent}
use magnarr.Cli.Load.{StartArgs, ConfigCrate, load_config}
use magnarr.Cli.Load.Layers.{Decoders, Layers, the_qbittorrent}
use magnarr.Cli.Load.Laws.{Chosen, outer, Precedence, IsMachine, load_config-Precedence}
use magnarr.Cli.Host.{Host, AppParts}
use magnarr.Cli.Open.{new}
use magnarr.Cli.Start.{serving, app_of, serve, launch, configured, run}

connection_keeps :
    (tc : TorrentClientConfig)
    → ((the_qbittorrent tc).host ≡ (connection tc).host)
      × ((the_qbittorrent tc).username ≡ (connection tc).username)
      × ((the_qbittorrent tc).password ≡ (connection tc).password)
unfolding connection
connection_keeps (qbittorrent qb) = (refl, refl, refl)

module _ (N : Host) where
  -- From the machine `s` to `s'`: the store is opened at `store_path`, the task of `app` is started, and
  -- the server of `app` is behind a listener that is bound to `listen_addr` after that.
  pub record Brought (store_path listen_addr : String) (max_page_size : ℕ) (app : AppParts N.Db)
      (s s' : N.State) : Type 0 where
    pub opened : N.State
    pub bound : N.State
    pub listener : N.Listener
    pub opens : new N store_path s ≡ (ok app.repository, opened)
    pub binds : N.bind listen_addr (N.start_app app opened) ≡ (ok listener, bound)
    pub serves : s' ≡ N.serve listener app max_page_size bound

  module _ (home : String) (cfg : Config) (s s' : N.State) where
    abbrev BroughtUp : N.Db → Type 0
    BroughtUp repo =
        Brought (resolve_path cfg.store home) cfg.server.listen_addr cfg.server.max_page_size
          (app_of N home cfg repo) s s'

    serve-Brought :
        (repo : N.Db) (opened : N.State) (r : Result N.Listener String × N.State)
        → new N (resolve_path cfg.store home) s ≡ (ok repo, opened)
        → N.bind cfg.server.listen_addr (N.start_app (app_of N home cfg repo) opened) ≡ r
        → serve N cfg (app_of N home cfg repo) r ≡ (serving, s')
        → BroughtUp repo
    unfolding serve app_of
    serve-Brought repo opened (err e, bound) opens binds h = cc
    serve-Brought repo opened (ok listener, bound) opens binds h = record {
      opened = opened;
      bound = bound;
      listener = listener;
      opens = opens;
      binds = binds;
      serves = sym (ap (λ p. p.1) h);
    }

    launch-Brought :
        (r : Result N.Db RepositoryError × N.State)
        → new N (resolve_path cfg.store home) s ≡ r
        → launch N home cfg r ≡ (serving, s')
        → (repo : N.Db) × BroughtUp repo
    unfolding launch
    launch-Brought (err e, opened) opens h = cc
    launch-Brought (ok repo, opened) opens h = (repo, serve-Brought repo opened _ opens refl h)

  configured-Brought :
      (K : ConfigCrate) (home : String) (loaded : Result Config K.ConfigError) (s s' : N.State)
      → configured K N home loaded s ≡ (serving, s')
      → (cfg : Config) × (loaded ≡ ok cfg) × (repo : N.Db) × BroughtUp home cfg s s' repo
  unfolding configured
  configured-Brought K home (err e) s s' h = cc
  configured-Brought K home (ok cfg) s s' h =
      let (repo, up) = launch-Brought home cfg s s' _ refl h in (cfg, refl, repo, up)

module _ (K : ConfigCrate) (D : Decoders K) (L : Layers K D) (N : Host) where
  -- The service that is brought up, and the arguments, the environment, the file and the defaults that
  -- each part of it is from.
  pub record Served (home : String) (args : StartArgs) (s s' : N.State) : Type 0 where
    pub store_path : String
    pub listen_addr : String
    pub max_page_size : ℕ
    pub app : AppParts N.Db
    pub brought :
        Brought N
          (home_relative_or_absolute_path home store_path)
          listen_addr
          max_page_size
          app
          s
          s'
    pub addr_from :
        Chosen D.as_text default_server.listen_addr args.listen_addr
          (outer K D L home "server.listen_addr")
          listen_addr
    pub size_from :
        Chosen D.as_whole default_server.max_page_size args.max_page_size
          (outer K D L home "server.max_page_size")
          max_page_size
    pub interval_from :
        Chosen D.as_duration default_app.poll_interval args.poll_interval
          (outer K D L home "app.poll_interval")
          app.poll_interval
    pub store_from :
        Chosen D.as_text default_store.path args.store_path
          (outer K D L home "store.path")
          store_path
    pub dir_from :
        (path : String) × Chosen D.as_text default_app.download_dir args.download_dir
          (outer K D L home "app.download_dir")
          path
        × (app.download_dir ≡ home_relative_or_absolute_path home path)
    pub host_from :
        Chosen D.as_text default_qbittorrent.host args.qb_host
          (outer K D L home "torrent_client.qbittorrent.host")
          app.torrent_client.host
    pub username_from :
        Chosen D.as_text default_qbittorrent.username args.qb_username
          (outer K D L home "torrent_client.qbittorrent.username")
          app.torrent_client.username
    pub password_from :
        Chosen D.as_text default_qbittorrent.password args.qb_password
          (outer K D L home "torrent_client.qbittorrent.password")
          app.torrent_client.password

  Brought-Served :
      (home : String) (args : StartArgs) (cfg : Config) (repo : N.Db) (s s' : N.State)
      → Precedence K D L home args cfg
      → BroughtUp N home cfg s s' repo
      → Served home args s s'
  unfolding app_of resolve_path resolve_download_dir
  Brought-Served home args cfg repo s s' p up =
      let (host, username, password) = connection_keeps cfg.torrent_client in
      record {
        store_path = cfg.store.path;
        listen_addr = cfg.server.listen_addr;
        max_page_size = cfg.server.max_page_size;
        app = app_of N home cfg repo;
        brought = up;
        addr_from = p.listen_addr;
        size_from = p.max_page_size;
        interval_from = p.poll_interval;
        store_from = p.store_path;
        dir_from = (cfg.app.download_dir, p.download_dir, refl);
        host_from = subst (Chosen D.as_text _ args.qb_host _) host p.host;
        username_from = subst (Chosen D.as_text _ args.qb_username _) username p.username;
        password_from = subst (Chosen D.as_text _ args.qb_password _) password p.password;
      }

  -- Where `start` ends up serving, it has opened the store at the path of the configuration, started the
  -- background task over that store, bound a listener to the address and put the server of that app
  -- behind it, in this order. The paths, the address, the page size, the interval and the client's
  -- host, name and password are each what the command line gives, or else the environment, or else
  -- the file, or else the default, where paths that are not absolute are those below the home
  -- directory; for a `config` crate that merges its sources and overrides in their order, and
  -- arguments within the widths of their types.
  pub run-Served :
      (home : String) (args : StartArgs) (s s' : N.State)
      → IsMachine K D L args
      → run K N home args s ≡ (serving, s')
      → Served home args s s'
  unfolding run
  run-Served home args s s' machine h =
      let (cfg, loaded, repo, up) = configured-Brought N K home (load_config K home args) s s' h in
      Brought-Served home args cfg repo s s'
        (load_config-Precedence K D L home args cfg machine loaded) up
