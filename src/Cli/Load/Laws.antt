-- ===== src/Cli/Load/Laws.antt =====
-- The precedence of the sources of `load_config` (cli/config.rs).
use magnarr.Prelude.{ℕ, false, ◌<◌, ◌*◌, ◌^◌, String, ◌≡◌, refl, sym, ap, subst, ◌∙◌, List, [], ◌∷◌}
use magnarr.Prelude.{Option, none, some, ok, ok-injective, >>=-eq-ok, str_eq, if◌then◌else◌}
use magnarr.Cli.Config.{Config, get_config_path, default_app, default_server, default_store}
use magnarr.Cli.Config.{default_qbittorrent}
use magnarr.Cli.Load.{
  Value, text, whole, StartArgs, ConfigCrate, overrides, set_overrides, load_config,
}
use magnarr.Cli.Load.Layers.{or_else, the_qbittorrent, Read, Decoders, Layers}
use mathlib.Core.Option
use mathlib.Core.Option.{some-injective}

-- What the overrides of a list make of the value `o` of the key `k`.
abbrev winner : String → List (String × Option Value) → Option Value → Option Value
winner k [] o = o
winner k ((key, value) ∷ rest) o = winner k rest (if str_eq k key then or_else value o else o)

-- A field is as the command line says, or else is read from the other sources.
abbrev pub Chosen : {A : Type 0} → (Value → Option A) → A → Option A → Option Value → A → Type 0
Chosen decode default (some given) value a = a ≡ given
Chosen decode default none value a = Read decode default value a

module _ {A : Type 0} (decode : Value → Option A) (default : A) (encode : A → Value) where
  Read-Chosen :
      (given : Option A) (value : Option Value) (a : A)
      → ((x : A) → given ≡ some x → decode (encode x) ≡ some x)
      → Read decode default (or_else (Option.map encode given) value) a
      → Chosen decode default given value a
  Read-Chosen none value a back read = read
  Read-Chosen (some x) value a back read = some-injective a x (sym read ∙ back x refl)

or_else-none : (o : Option Value) → or_else o none ≡ o
or_else-none none = refl
or_else-none (some v) = refl

module _ (K : ConfigCrate) (D : Decoders K) (L : Layers K D) where
  set_overrides-winner :
      (os : List (String × Option Value)) (b b' : K.Builder) (k : String)
      → set_overrides K os b ≡ ok b'
      → (L.set b' k ≡ winner k os (L.set b k)) × (L.read b' k ≡ L.read b k)
  unfolding set_overrides
  set_overrides-winner [] b b' k h =
      let same = sym (ok-injective h) in (ap (λ x. L.set x k) same, ap (λ x. L.read x k) same)
  set_overrides-winner ((key, value) ∷ rest) b b' k h =
      let (m, first, then_rest) = >>=-eq-ok (K.set_override_option key value b) _ h in
      let (set, read) = L.set_override_option_sets key value b m k first in
      let (set', read') = set_overrides-winner rest m b' k then_rest in
      (set' ∙ ap (winner k rest) set, read' ∙ read)

  -- What the environment and the file say of a key, the environment first.
  abbrev pub outer : String → String → Option Value
  outer home k = or_else (L.environment "MAGNARR" "_" k) (L.file (get_config_path home) k)

  -- Each field, from its argument, the environment, the file or its default.
  pub record Precedence (home : String) (args : StartArgs) (cfg : Config) : Type 0 where
    pub poll_interval :
        Chosen D.as_duration default_app.poll_interval args.poll_interval
          (outer home "app.poll_interval")
          cfg.app.poll_interval
    pub download_dir :
        Chosen D.as_text default_app.download_dir args.download_dir
          (outer home "app.download_dir")
          cfg.app.download_dir
    pub listen_addr :
        Chosen D.as_text default_server.listen_addr args.listen_addr
          (outer home "server.listen_addr")
          cfg.server.listen_addr
    pub max_page_size :
        Chosen D.as_whole default_server.max_page_size args.max_page_size
          (outer home "server.max_page_size")
          cfg.server.max_page_size
    pub store_path :
        Chosen D.as_text default_store.path args.store_path (outer home "store.path") cfg.store.path
    pub host :
        Chosen D.as_text default_qbittorrent.host args.qb_host
          (outer home "torrent_client.qbittorrent.host")
          (the_qbittorrent cfg.torrent_client).host
    pub username :
        Chosen D.as_text default_qbittorrent.username args.qb_username
          (outer home "torrent_client.qbittorrent.username")
          (the_qbittorrent cfg.torrent_client).username
    pub password :
        Chosen D.as_text default_qbittorrent.password args.qb_password
          (outer home "torrent_client.qbittorrent.password")
          (the_qbittorrent cfg.torrent_client).password

  -- The sources of a key, before any override.
  sources-outer :
      (home k : String)
      → let b =
          K.add_environment "MAGNARR" "_" (K.add_file (get_config_path home) false K.builder) in
        (L.set b k ≡ none) × (L.read b k ≡ outer home k)
  sources-outer home k =
      let from_file = L.add_file_reads (get_config_path home) false K.builder k in
      let from_environment =
        L.add_environment_reads "MAGNARR" "_" (K.add_file (get_config_path home) false K.builder)
          k in
      let empty = L.builder_is_empty k in
      (
        from_environment.0 ∙ from_file.0 ∙ empty.0,
        from_environment.1
            ∙ ap (or_else (L.environment "MAGNARR" "_" k)) (
                from_file.1
                ∙ ap (or_else (L.file (get_config_path home) k)) empty.1
                ∙ or_else-none (L.file (get_config_path home) k)),
      )

  -- The value of a key behind the whole chain.
  merged-winner :
      (home : String) (args : StartArgs) (b : K.Builder) (m : K.Merged) (k : String)
      → set_overrides K
          (overrides K args)
          (K.add_environment "MAGNARR" "_" (K.add_file (get_config_path home) false K.builder))
        ≡ ok b
      → K.build b ≡ ok m
      → L.merged m k ≡ or_else (winner k (overrides K args) none) (outer home k)
  merged-winner home args b m k chain built =
      let (set, read) = set_overrides-winner (overrides K args) _ b k chain in
      let (none_set, sources) = sources-outer home k in
      let won : L.set b k ≡ winner k (overrides K args) none =
        set ∙ ap (winner k (overrides K args)) none_set in
      let behind : L.read b k ≡ outer home k = read ∙ sources in
      L.build_merges b m k built
      ∙ ap (λ o. or_else o (L.read b k)) won
      ∙ ap (or_else (winner k (overrides K args) none)) behind

  -- A field, where its key is overridden by the argument `given` and by no other.
  field-Chosen :
      {A : Type 0} (decode : Value → Option A) (default : A) (encode : A → Value) (given : Option A)
      (value set outside : Option Value) (a : A)
      → ((x : A) → given ≡ some x → decode (encode x) ≡ some x)
      → value ≡ or_else set outside
      → set ≡ or_else (Option.map encode given) none
      → Read decode default value a
      → Chosen decode default given outside a
  field-Chosen decode default encode given value set outside a back merged only read =
      Read-Chosen decode default encode given outside a back (
        subst (λ o. Read decode default o a)
          (merged ∙ ap (λ o. or_else o outside) (only ∙ or_else-none (Option.map encode given)))
          read)

  -- Numbers and durations of the command line are as wide as their types.
  pub record IsMachine (args : StartArgs) : Type 0 where
    pub page : (n : ℕ) → args.max_page_size ≡ some n → n < 2 ^ 64
    pub interval : (d : ℕ) → args.poll_interval ≡ some d → d < 2 ^ 64 * 10 ^ 9

  -- When the configuration is loaded, each of its fields is the argument of the command line, if that is
  -- given, or else is read from the environment's value of its key, or else from the file's, or else is
  -- the default, for a `config` crate that merges its sources and overrides in their order, and
  -- arguments within the widths of their types.
  pub load_config-Precedence :
      (home : String) (args : StartArgs) (cfg : Config)
      → IsMachine args
      → load_config K home args ≡ ok cfg
      → Precedence home args cfg
  unfolding load_config overrides
  load_config-Precedence home args cfg machine h =
      let (b, chain, h') = >>=-eq-ok (set_overrides K (overrides K args) _) _ h in
      let (m, built, read) = >>=-eq-ok (K.build b) K.try_deserialize h' in
      let fields = L.try_deserialize_reads m cfg read in
      let won = λ (k : String). merged-winner home args b m k chain built in
      record {
        poll_interval =
            field-Chosen D.as_duration default_app.poll_interval (λ d. text (K.format_duration d))
              args.poll_interval _ _ _ cfg.app.poll_interval
              (λ d e. D.duration_as_duration d (machine.interval d e)) (won "app.poll_interval")
              refl fields.poll_interval;
        download_dir =
            field-Chosen D.as_text default_app.download_dir text args.download_dir _ _ _
              cfg.app.download_dir (λ s _. D.text_as_text s) (won "app.download_dir") refl
              fields.download_dir;
        listen_addr =
            field-Chosen D.as_text default_server.listen_addr text args.listen_addr _ _ _
              cfg.server.listen_addr (λ s _. D.text_as_text s) (won "server.listen_addr") refl
              fields.listen_addr;
        max_page_size =
            field-Chosen D.as_whole default_server.max_page_size whole args.max_page_size _ _ _
              cfg.server.max_page_size (λ n e. D.whole_as_whole n (machine.page n e))
              (won "server.max_page_size") refl fields.max_page_size;
        store_path =
            field-Chosen D.as_text default_store.path text args.store_path _ _ _ cfg.store.path
              (λ s _. D.text_as_text s) (won "store.path") refl fields.store_path;
        host =
            field-Chosen D.as_text default_qbittorrent.host text args.qb_host _ _ _
              (the_qbittorrent cfg.torrent_client).host (λ s _. D.text_as_text s)
              (won "torrent_client.qbittorrent.host") refl fields.host;
        username =
            field-Chosen D.as_text default_qbittorrent.username text args.qb_username _ _ _
              (the_qbittorrent cfg.torrent_client).username (λ s _. D.text_as_text s)
              (won "torrent_client.qbittorrent.username") refl fields.username;
        password =
            field-Chosen D.as_text default_qbittorrent.password text args.qb_password _ _ _
              (the_qbittorrent cfg.torrent_client).password (λ s _. D.text_as_text s)
              (won "torrent_client.qbittorrent.password") refl fields.password;
      }
