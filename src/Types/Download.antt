-- ===== src/Types/Download.antt =====
-- types/download.rs: a download record and its life in statuses.
use magnarr.Prelude.{String, Bool, Option, none, some, ℕ, ◌==◌}
use magnarr.Prelude.Int.{ℤ}
use magnarr.Types.Magnet.{Magnet}

-- An instant of `chrono::DateTime<Utc>`, in nanoseconds from the epoch.
abbrev pub DateTime : Type 0
DateTime = ℤ

pub data DownloadStatus : Type 0 where
  queued submitted downloading importing imported failed : DownloadStatus

-- The derived `PartialEq` compares the discriminants.
unfoldable pub discriminant : DownloadStatus → ℕ
discriminant queued = 0
discriminant submitted = 1
discriminant downloading = 2
discriminant importing = 3
discriminant imported = 4
discriminant failed = 5

unfoldable pub status_eq : DownloadStatus → DownloadStatus → Bool
unfolding discriminant
status_eq a b = discriminant a == discriminant b

pub record Download : Type 0 where
  pub info_hash : String
  pub magnet : Magnet
  pub name : String
  pub content_name : String
  pub status : DownloadStatus
  pub target_dir : String
  pub created_at : DateTime
  pub updated_at : DateTime
  pub imported_path : Option String
  pub error : Option String

-- `now` is what `Utc::now()` returns.
unfoldable pub touch : DateTime → Download → Download
touch now d = record d { updated_at = now }

abbrev unwrap_or_empty : Option String → String
unwrap_or_empty none = ""
unwrap_or_empty (some s) = s

unfoldable pub new : DateTime → Magnet → String → Download
new now magnet target_dir = record {
  info_hash = magnet.info_hash;
  magnet = magnet;
  name = unwrap_or_empty magnet.name;
  content_name = "";
  status = queued;
  target_dir = target_dir;
  created_at = now;
  updated_at = now;
  imported_path = none;
  error = none;
}
