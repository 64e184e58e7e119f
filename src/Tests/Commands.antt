-- ===== src/Tests/Commands.antt =====
-- A machine as concrete functions, and the witnesses of what is proved of the commands of src/cli.
use magnarr.Prelude.{◌≡◌, refl, String, Bool, true, false, arith, eq_iff}
use magnarr.Prelude.{Option, none, some, Result, ok, str_eq, ◌⊎◌}
use magnarr.Prelude.{if◌then◌else◌}
use magnarr.Prelude.FilePath.{is_absolute, join, parent}
use magnarr.Cli.Config.{Config}
use magnarr.Cli.Config.{default_config, get_config_path, resolve_path}
use magnarr.Cli.Host.{Host}
use magnarr.Cli.Start.{serving}
use magnarr.Cli.Start as Start
use magnarr.Cli.Start.Laws.{Served, run-Served}
use magnarr.Cli.Init as Init
use magnarr.Cli.Init.Laws.{Files, Leaves, run-Leaves}
use magnarr.Tests.Sources.{config_crate, decoders, layers, deserialize, args, args-IsMachine}

-- Whether the home directory is there, and the text of each file.
abbrev Disk : Type 0
Disk = Bool × (String → Option String)

abbrev filled : String → String → Disk → Disk
filled p t s = (s.0, λ q. if str_eq q p then some t else s.1 q)

abbrev host : Host
host = record {
  State = Disk;
  Db = String;
  Listener = String;
  exists = λ p s. s.0;
  create_dir_all = λ p s. (ok tt, (true, s.1));
  write = λ p t s. (ok tt, filled p t s);
  create_db = λ p s. (ok p, filled p "redb" s);
  bind = λ addr s. (ok addr, s);
  start_app = λ app s. filled "task" app.repository s;
  serve = λ listener app size s. filled "server" listener s;
}

filled_there : (p t : String) (s : Disk) → (filled p t s).1 p ≡ some t
filled_there p t s = ground (arith, eq_iff p p)

filled_elsewhere : (p t q : String) (s : Disk) → str_eq q p ≡ false → (filled p t s).1 q ≡ s.1 q
filled_elsewhere p t q s apart = ground (arith, apart)

abbrev files : Files host
files = record {
  content = λ s. s.1;
  Apart = λ p q. str_eq q p ≡ false;
  create_dir_all_keeps = λ p q s. refl;
  write_puts = λ p t s _. filled_there p t s;
  write_keeps = filled_elsewhere;
  create_db_keeps = λ p. filled_elsewhere p "redb";
}

abbrev fresh : Disk
fresh = (false, λ q. none)

abbrev home : String
home = "/home/user/.magnarr"

-- The store is open, the task is started, and the server listens.
abbrev brought_up : Disk
brought_up =
    filled "server" "0.0.0.0:6000"
      (filled "task" "/env.redb" (filled "/env.redb" "redb" (true, λ q. none)))

args_served : Start.run config_crate host home args fresh ≡ (serving, brought_up)
unfolding Start.run parent deserialize is_absolute join
args_served = refl

run-Served_example : Served config_crate decoders layers host home args fresh brought_up
run-Served_example =
    run-Served config_crate decoders layers host home args fresh brought_up args-IsMachine
      args_served

abbrev to_yaml : Config → Result String String
to_yaml cfg = ok "app:"

files-Apart : files.Apart (resolve_path default_config.store home) (get_config_path home)
unfolding resolve_path get_config_path join
files-Apart = refl

run-Leaves_example :
    ((host.exists home fresh ≡ true) × (Init.run host to_yaml home fresh ≡ (1, fresh)))
    ⊎ ((host.exists home fresh ≡ false)
        × Leaves host files to_yaml home fresh (Init.run host to_yaml home fresh))
run-Leaves_example = run-Leaves host files to_yaml home files-Apart fresh

initialized : (Init.run host to_yaml home fresh).0 ≡ 0
unfolding Init.run parent is_absolute join
initialized = refl

data_dir : parent "/home/user/.magnarr/./data/magnarr.redb" ≡ some "/home/user/.magnarr/./data"
unfolding parent
data_dir = refl
