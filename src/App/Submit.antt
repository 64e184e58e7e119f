-- ===== src/App/Submit.antt =====
-- `App::download` of app/mod.rs: submitting a new download.
pub mod Laws
use magnarr.Prelude.{String, Result, ok, err}
use magnarr.Types.Magnet.{Magnet}
use magnarr.Types.Download.{Download, new, touch, submitted}
use magnarr.App.Repository.{RepositoryError, not_found}
use magnarr.App.Torrent.{TorrentClientError}
use magnarr.App.Errors.{AppError, already_exists, repository, torrent_client}
use magnarr.App.World.{Deps, World, Action, ◌>>=◌, pure, throw, lift, now, write, request, or_throw}

-- Only `NotFound` lets the request go on.
unfoldable pub check_absent : Result Download RepositoryError → Result (Unit {0}) AppError
check_absent (ok _) = err already_exists
check_absent (err not_found) = ok tt
check_absent (err e) = err (repository e)

module _ (A : Deps) where
  -- The rollback's own error is only logged.
  unfoldable pub rollback : Download → TorrentClientError → Action A Download
  rollback d e = do removed ← write A (A.R.remove d.info_hash); throw (torrent_client e)

  unfoldable pub mark_submitted : Download → Action A Download
  mark_submitted d = do
    t ← now A
    let d' = touch t (record d { status = submitted })
    updated ← write A (A.R.update d')
    _ ← or_throw A updated
    pure d'

  unfoldable pub handed_over : Download → Result (Unit {0}) TorrentClientError → Action A Download
  unfolding rollback mark_submitted
  handed_over d (err e) = rollback d e
  handed_over d (ok _) = mark_submitted d

  -- From `Download::new` on.
  unfoldable pub persist : Magnet → String → Action A Download
  unfolding handed_over
  persist magnet target_dir = do
    t ← now A
    let d = new t magnet target_dir
    inserted ← write A (A.R.insert d)
    _ ← or_throw A inserted
    answer ← request A (A.T.download d.magnet)
    handed_over d answer

  unfoldable pub download : Magnet → String → Action A Download
  unfolding check_absent persist
  download magnet target_dir = do
    _ ← lift (λ w. check_absent (A.R.get magnet.info_hash w.repository))
    persist magnet target_dir
