-- ===== src/Cli/Config/Laws.antt =====
-- Where the paths of cli/config.rs lie.
use magnarr.Prelude.{String, ◌≡◌, ◌∙◌, ap, true, Bool-cases, inl, inr, ◌<>◌, str_eq, ◌||◌}
use magnarr.Prelude.FilePath.{is_absolute, ends_in_slash, join}
use magnarr.Cli.Config.{Config, home_relative_or_absolute_path, resolve_download_dir, resolve_path}
use magnarr.Cli.Config.{get_config_path}
use text.Mathlib.TextLemmas.{cons-append}

is_absolute-append : (s t : String) → is_absolute s ≡ true → is_absolute (s <> t) ≡ true
unfolding is_absolute
is_absolute-append String.[] t h = cc
is_absolute-append (String.◌∷◌ c s) t h = ap is_absolute (cons-append c s t) ∙ h

is_absolute-join :
    (home path : String) → is_absolute home ≡ true → is_absolute (join home path) ≡ true
unfolding join
is_absolute-join home path h = elim (Bool-cases (is_absolute path)) [
  | inl there ↦ rw there there
  | inr relative ↦ elim (Bool-cases (str_eq home "" || ends_in_slash home)) [
    | inl bare ↦ rw (relative, bare) (is_absolute-append home path h)
    | inr named ↦ rw (relative, named) (is_absolute-append home ("/" <> path) h)
  ]
]

is_absolute-home_relative_or_absolute_path :
    (home path : String)
    → is_absolute home ≡ true
    → is_absolute (home_relative_or_absolute_path home path) ≡ true
unfolding home_relative_or_absolute_path
is_absolute-home_relative_or_absolute_path home path h = elim (Bool-cases (is_absolute path)) [
  | inl there ↦ rw there there
  | inr relative ↦ rw relative (is_absolute-join home path h)
]

-- With an absolute home, whatever the configuration says, the download directory, the store and the
-- configuration file are absolute paths, so that none depends on the working directory.
pub resolved_absolute :
    (cfg : Config) (home : String)
    → is_absolute home ≡ true
    → (is_absolute (resolve_download_dir cfg.app home) ≡ true)
      × (is_absolute (resolve_path cfg.store home) ≡ true)
      × (is_absolute (get_config_path home) ≡ true)
unfolding resolve_download_dir resolve_path get_config_path
resolved_absolute cfg home h = (
  is_absolute-home_relative_or_absolute_path home cfg.app.download_dir h,
  is_absolute-home_relative_or_absolute_path home cfg.store.path h,
  is_absolute-join home "config.yaml" h,
)
