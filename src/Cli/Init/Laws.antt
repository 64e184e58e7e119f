-- ===== src/Cli/Init/Laws.antt =====
-- What cli/init.rs leaves on the machine.
use magnarr.Prelude.{String, ◌≡◌, refl, ◌∙◌, true, false, Bool-cases, inl, inr, ◌⊎◌}
use magnarr.Prelude.{Option, none, some, Result, ok, err, str_eq}
use magnarr.Prelude.FilePath.{parent}
use magnarr.App.Repository.{RepositoryError}
use magnarr.Cli.Config.{Config, default_config, get_config_path, resolve_path}
use magnarr.Cli.Host.{Host}
use magnarr.Cli.Open.{new, create_parent, then_open}
use magnarr.Cli.Init.{Exit, opened, open_store, write_config, fill_home, run}

-- The text of the file at a path, and which paths lead to files that are not the same.
pub record Files (N : Host) : Type 1 where
  pub content : N.State → String → Option String
  pub Apart : String → String → Type 0
  pub create_dir_all_keeps :
      (p q : String) (s : N.State) → content (N.create_dir_all p s).1 q ≡ content s q
  pub write_puts :
      (p t : String) (s : N.State)
      → (N.write p t s).0 ≡ ok tt
      → content (N.write p t s).1 p ≡ some t
  pub write_keeps :
      (p t q : String) (s : N.State) → Apart p q → content (N.write p t s).1 q ≡ content s q
  pub create_db_keeps :
      (p q : String) (s : N.State) → Apart p q → content (N.create_db p s).1 q ≡ content s q

module _ (N : Host) (F : Files N) (to_yaml : Config → Result String String) (home : String) where
  abbrev config_path : String
  config_path = get_config_path home

  abbrev store_path : String
  store_path = resolve_path default_config.store home

  create_parent-kept :
      (o : Option String) (q : String) (s : N.State)
      → F.content (create_parent N o s).1 q ≡ F.content s q
  unfolding create_parent
  create_parent-kept none q s = refl
  create_parent-kept (some dir) q s = elim (Bool-cases (str_eq dir "")) [
    | inl bare ↦ rw (bare, create_parent) refl
    | inr named ↦ rw (named, create_parent) (F.create_dir_all_keeps dir q s)
  ]

  then_open-kept :
      (r : Result (Unit {0}) RepositoryError) (path q : String) (s : N.State)
      → F.Apart path q
      → F.content (then_open N path r s).1 q ≡ F.content s q
  then_open-kept (err e) path q s apart = refl
  then_open-kept (ok _) path q s apart = F.create_db_keeps path q s apart

  new-kept :
      (path q : String) (s : N.State)
      → F.Apart path q
      → F.content (new N path s).1 q ≡ F.content s q
  unfolding new
  new-kept path q s apart = then_open-kept _ path q _ apart ∙ create_parent-kept (parent path) q s

  -- From the machine `s` to the end: only the two files change, and the end is an exit with 1, or
  -- one with 0 that leaves the configuration file with the defaults.
  abbrev pub Leaves : N.State → Exit N to_yaml → Type 0
  Leaves s (code, s') =
      ((q : String) → F.Apart config_path q → F.Apart store_path q → F.content s' q ≡ F.content s q)
      × ((code ≡ 1)
          ⊎ ((code ≡ 0)
              × (yaml : String) × (to_yaml default_config ≡ ok yaml)
              × (F.content s' config_path ≡ some yaml)))

  module _ (apart : F.Apart store_path config_path) (before : N.State) where
    -- Only the two files have changed so far.
    abbrev Kept : N.State → Type 0
    Kept s =
        (q : String)
        → F.Apart config_path q
        → F.Apart store_path q
        → F.content s q ≡ F.content before q

    opened-Leaves :
        (yaml : String) (end : Result N.Db RepositoryError × N.State)
        → Kept end.1
        → to_yaml default_config ≡ ok yaml
        → F.content end.1 config_path ≡ some yaml
        → Leaves before (opened N to_yaml end)
    opened-Leaves yaml (ok _, s) kept written there = (kept, inr (refl, yaml, written, there))
    opened-Leaves yaml (err e, s) kept written there = (kept, inl refl)

    open_store-Leaves :
        (yaml : String) (wrote : Result (Unit {0}) String × N.State)
        → Kept wrote.1
        → to_yaml default_config ≡ ok yaml
        → (wrote.0 ≡ ok tt → F.content wrote.1 config_path ≡ some yaml)
        → Leaves before (open_store N to_yaml home wrote)
    unfolding open_store
    open_store-Leaves yaml (err e, s) kept written there = (kept, inl refl)
    open_store-Leaves yaml (ok _, s) kept written there =
        opened-Leaves yaml (new N store_path s)
          (λ q from_config from_store.
            new-kept store_path q s from_store ∙ kept q from_config from_store)
          written (new-kept store_path config_path s apart ∙ there refl)

    write_config-Leaves :
        (made : Result String String) (s : N.State)
        → to_yaml default_config ≡ made
        → Kept s
        → Leaves before (write_config N to_yaml home made s)
    unfolding write_config
    write_config-Leaves (err e) s written kept = (kept, inl refl)
    write_config-Leaves (ok yaml) s written kept =
        open_store-Leaves yaml (N.write config_path yaml s)
          (λ q from_config from_store.
            F.write_keeps config_path yaml q s from_config ∙ kept q from_config from_store)
          written (F.write_puts config_path yaml s)

    fill_home-Leaves :
        (made : Result (Unit {0}) String × N.State)
        → Kept made.1
        → Leaves before (fill_home N to_yaml home made)
    unfolding fill_home
    fill_home-Leaves (err e, s) kept = (kept, inl refl)
    fill_home-Leaves (ok _, s) kept = write_config-Leaves _ s refl kept

    -- `init` exits with 1 and leaves the machine as it is where the home directory exists. Where it does
    -- not, `init` changes no files but the configuration file and the store, and either exits with 1, or
    -- exits with 0 and the configuration file holds the default configuration as YAML. That is where the
    -- two files are apart.
    pub run-Leaves :
        ((N.exists home before ≡ true) × (run N to_yaml home before ≡ (1, before)))
        ⊎ ((N.exists home before ≡ false) × Leaves before (run N to_yaml home before))
    unfolding run
    run-Leaves = elim (Bool-cases (N.exists home before)) [
      | inl there ↦ inl (there, rw (there, run) refl)
      | inr absent ↦ inr (
        absent,
        rw (absent, run)
            (fill_home-Leaves (N.create_dir_all home before)
              (λ q _ _. F.create_dir_all_keeps home q before)),
      )
    ]
