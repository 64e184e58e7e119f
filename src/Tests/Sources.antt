-- ===== src/Tests/Sources.antt =====
-- A `config` crate as concrete functions, and the witness of what is proved of `load_config`.
use magnarr.Prelude.{ℕ, zero, suc, ◌<◌, ◌^◌, ◌≡◌, refl, sym, ap, subst, String, arith}
use magnarr.Prelude.{Option, none, some, Result, ok, err, ◌>>=◌, >>=-eq-ok, ok-injective, str_eq}
use magnarr.Prelude.{if◌then◌else◌}
use magnarr.Cli.Config.{Config, qbittorrent, default_app, default_server}
use magnarr.Cli.Config.{default_store, default_qbittorrent}
use magnarr.Cli.Load.{Value, text, whole, StartArgs, ConfigCrate, load_config}
use magnarr.Cli.Load.Layers.{or_else, Read, Decoders, Fields, Layers}
use magnarr.Cli.Load.Laws.{Precedence, IsMachine, load_config-Precedence}
use mathlib.Core.Option.{some-injective}

-- A duration as so many letters.
abbrev letters : ℕ → String
letters zero = ""
letters (suc n) = String.◌∷◌ "n" (letters n)

abbrev count : String → ℕ
count String.[] = 0
count (String.◌∷◌ c s) = suc (count s)

pub count-letters : (n : ℕ) → count (letters n) ≡ n
count-letters zero = refl
count-letters (suc n) = ap suc (count-letters n)

abbrev as_text : Value → Option String
as_text (text s) = some s
as_text (whole n) = none

abbrev as_whole : Value → Option ℕ
as_whole (text s) = none
as_whole (whole n) = some n

-- A duration is a text that `read` reads.
abbrev as_duration : (String → Option ℕ) → Value → Option ℕ
as_duration read (text s) = read s
as_duration read (whole n) = none

abbrev or_invalid : {A : Type 0} → Option A → Result A String
or_invalid (some a) = ok a
or_invalid none = err "invalid type"

abbrev field : {A : Type 0} → (Value → Option A) → A → Option Value → Result A String
field decode default none = ok default
field decode default (some v) = or_invalid (decode v)

decoded : {A : Type 0} (o : Option A) (a : A) → or_invalid o ≡ ok a → o ≡ some a
decoded (some x) a h = ap some (ok-injective h)
decoded none a h = cc

field-Read :
    {A : Type 0} (decode : Value → Option A) (default : A) (o : Option Value) (a : A)
    → field decode default o ≡ ok a
    → Read decode default o a
field-Read decode default none a h = sym (ok-injective h)
field-Read decode default (some v) a h = decoded (decode v) a h

abbrev pub Keyed : Type 0
Keyed = String → Option Value

unfoldable pub deserialize : (String → Option ℕ) → Keyed → Result Config String
deserialize read m =
    field (as_duration read) default_app.poll_interval (m "app.poll_interval") >>= λ interval.
    field as_text default_app.download_dir (m "app.download_dir") >>= λ dir.
    field as_text default_server.listen_addr (m "server.listen_addr") >>= λ addr.
    field as_whole default_server.max_page_size (m "server.max_page_size") >>= λ size.
    field as_text default_store.path (m "store.path") >>= λ path.
    field as_text default_qbittorrent.host (m "torrent_client.qbittorrent.host") >>= λ host.
    field as_text default_qbittorrent.username (m "torrent_client.qbittorrent.username") >>= λ user.
    field as_text default_qbittorrent.password (m "torrent_client.qbittorrent.password") >>= λ pass.
    ok (record {
      app = record { poll_interval = interval; download_dir = dir };
      server = record { listen_addr = addr; max_page_size = size };
      store = record { path = path };
      torrent_client = qbittorrent (record { host = host; username = user; password = pass });
    })

-- The file sets the address and the store, and the environment the store.
abbrev in_file : String → Keyed
in_file path k =
    if str_eq k "server.listen_addr"
    then some (text "127.0.0.1:4000")
    else if str_eq k "store.path"
    then some (text "./file.redb")
    else none

abbrev in_environment : String → String → Keyed
in_environment prefix separator k = if str_eq k "store.path" then some (text "/env.redb") else none

-- A crate that reads the file and the environment from these tables, and durations with `read`.
abbrev pub crate_of :
    (String → Keyed) → (String → String → Keyed) → (String → Option ℕ) → (ℕ → String) → ConfigCrate
crate_of file environment read format = record {
  Builder = Keyed × Keyed;
  Merged = Keyed;
  ConfigError = String;
  builder = ((λ k. none), λ k. none);
  add_file = λ path required b. (b.0, λ k. or_else (file path k) (b.1 k));
  add_environment =
      λ prefix separator b. (b.0, λ k. or_else (environment prefix separator k) (b.1 k));
  set_override_option =
      λ key value b. ok ((λ k. if str_eq k key then or_else value (b.0 k) else b.0 k), b.1);
  build = λ b. ok (λ k. or_else (b.0 k) (b.1 k));
  try_deserialize = deserialize read;
  format_duration = format;
}

abbrev read_letters : String → Option ℕ
read_letters s = some (count s)

abbrev pub config_crate : ConfigCrate
config_crate = crate_of in_file in_environment read_letters letters

abbrev pub decoders : Decoders config_crate
decoders = record {
  as_text = as_text;
  as_whole = as_whole;
  as_duration = as_duration read_letters;
  text_as_text = λ s. refl;
  whole_as_whole = λ n _. refl;
  duration_as_duration = λ d _. ap some (count-letters d);
}

pub deserialize-Fields :
    (m : Keyed) (cfg : Config)
    → deserialize read_letters m ≡ ok cfg
    → Fields config_crate decoders m cfg
unfolding deserialize
deserialize-Fields m cfg h =
    let (a1, r1, h1) = >>=-eq-ok (field (as_duration read_letters) _ (m "app.poll_interval")) _ h in
    let (a2, r2, h2) = >>=-eq-ok (field as_text _ (m "app.download_dir")) _ h1 in
    let (a3, r3, h3) = >>=-eq-ok (field as_text _ (m "server.listen_addr")) _ h2 in
    let (a4, r4, h4) = >>=-eq-ok (field as_whole _ (m "server.max_page_size")) _ h3 in
    let (a5, r5, h5) = >>=-eq-ok (field as_text _ (m "store.path")) _ h4 in
    let (a6, r6, h6) = >>=-eq-ok (field as_text _ (m "torrent_client.qbittorrent.host")) _ h5 in
    let (a7, r7, h7) = >>=-eq-ok (field as_text _ (m "torrent_client.qbittorrent.username")) _ h6 in
    let (a8, r8, h8) = >>=-eq-ok (field as_text _ (m "torrent_client.qbittorrent.password")) _ h7 in
    subst (Fields config_crate decoders m) (ok-injective h8) (record {
      poll_interval = field-Read (as_duration read_letters) _ _ _ r1;
      download_dir = field-Read as_text _ _ _ r2;
      listen_addr = field-Read as_text _ _ _ r3;
      max_page_size = field-Read as_whole _ _ _ r4;
      store_path = field-Read as_text _ _ _ r5;
      host = field-Read as_text _ _ _ r6;
      username = field-Read as_text _ _ _ r7;
      password = field-Read as_text _ _ _ r8;
    })

abbrev pub layers : Layers config_crate decoders
layers = record {
  file = in_file;
  environment = in_environment;
  set = λ b. b.0;
  read = λ b. b.1;
  merged = λ m. m;
  builder_is_empty = λ k. (refl, refl);
  add_file_reads = λ path required b k. (refl, refl);
  add_environment_reads = λ prefix separator b k. (refl, refl);
  set_override_option_sets = λ key value b b' k h.
      let same = sym (ok-injective h) in
      (ap (λ (x : Keyed × Keyed). x.0 k) same, ap (λ (x : Keyed × Keyed). x.1 k) same);
  build_merges = λ b m k h. ap (λ (x : Keyed). x k) (sym (ok-injective h));
  try_deserialize_reads = deserialize-Fields;
}

-- `magnarr start --listen-addr 0.0.0.0:6000 --max-page-size 90`
abbrev pub args : StartArgs
args = record {
  poll_interval = none;
  download_dir = none;
  listen_addr = some "0.0.0.0:6000";
  max_page_size = some 90;
  store_path = none;
  qb_host = none;
  qb_username = none;
  qb_password = none;
}

abbrev loaded : Config
loaded = record {
  app = default_app;
  server = record { listen_addr = "0.0.0.0:6000"; max_page_size = 90 };
  store = record { path = "/env.redb" };
  torrent_client = qbittorrent default_qbittorrent;
}

args-loaded : load_config config_crate "/home/user/.magnarr" args ≡ ok loaded
unfolding load_config deserialize
args-loaded = refl

pub args-IsMachine : IsMachine config_crate decoders layers args
args-IsMachine = record {
  page = λ n e. subst (λ k. k < 2 ^ 64) (some-injective 90 n e) (omega arith);
  interval = λ d e. cc;
}

load_config-Precedence_example :
    Precedence config_crate decoders layers "/home/user/.magnarr" args loaded
load_config-Precedence_example =
    load_config-Precedence config_crate decoders layers "/home/user/.magnarr" args loaded
      args-IsMachine args-loaded
