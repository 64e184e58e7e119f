-- ===== src/Tests/Settings.antt =====
-- The witness of what is proved of cli/config.rs.
use magnarr.Prelude.{◌≡◌, refl, true}
use magnarr.Prelude.FilePath.{is_absolute}
use magnarr.Cli.Config.{default_config, resolve_download_dir, resolve_path, get_config_path}
use magnarr.Cli.Config.Laws.{resolved_absolute}

home_absolute : is_absolute "/home/user/.magnarr" ≡ true
unfolding is_absolute
home_absolute = refl

resolved_absolute_example :
    (is_absolute (resolve_download_dir default_config.app "/home/user/.magnarr") ≡ true)
    × (is_absolute (resolve_path default_config.store "/home/user/.magnarr") ≡ true)
    × (is_absolute (get_config_path "/home/user/.magnarr") ≡ true)
resolved_absolute_example = resolved_absolute default_config "/home/user/.magnarr" home_absolute
