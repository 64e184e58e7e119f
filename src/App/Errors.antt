-- ===== src/App/Errors.antt =====
-- app/error.rs
use magnarr.App.Repository.{RepositoryError}
use magnarr.App.Torrent.{TorrentClientError}

-- The `#[from]` conversions are the constructors `repository` and `torrent_client`.
pub data AppError : Type 0 where
  already_exists : AppError
  repository : RepositoryError → AppError
  torrent_client : TorrentClientError → AppError
