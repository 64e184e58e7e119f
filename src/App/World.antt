-- ===== src/App/World.antt =====
-- What the methods of `App` (app/mod.rs) act on: the repository, the torrent client and the system
-- clock, whose successive readings are a parameter.
use magnarr.Prelude.{ℕ, suc, Result, ok, err}
use magnarr.Types.Download.{DateTime}
use magnarr.App.Repository.{DownloadRepository, RepositoryError}
use magnarr.App.Torrent.{TorrentClient, TorrentClientError}
use magnarr.App.Errors.{AppError, repository}

-- The fields `repository` and `torrent_client` of `App`, and the readings of `Utc::now()`.
pub record Deps : Type 1 where
  pub R : DownloadRepository
  pub T : TorrentClient
  pub reading : ℕ → DateTime

pub record World (A : Deps) : Type 0 where
  pub repository : A.R.State
  pub torrent_client : A.T.State
  pub ticks : ℕ

-- A call that may fail; what was done before the error stays done.
abbrev pub Action : Deps → Type 0 → Type 0
Action A B = World A → Result B AppError × World A

module _ {A : Deps} {B C : Type 0} where
  infixl 5 ◌>>=◌
  abbrev pub ◌>>=◌ : Action A B → (B → Action A C) → Action A C
  ◌>>=◌ m f w = let (r, w') = m w in elim r [ ok b ↦ f b w' | err e ↦ (err e, w') ]

module _ {A : Deps} {B : Type 0} where
  abbrev pub pure : B → Action A B
  pure b w = (ok b, w)

  abbrev pub throw : AppError → Action A B
  throw e w = (err e, w)

  abbrev pub lift : (World A → Result B AppError) → Action A B
  lift f w = (f w, w)

module _ (A : Deps) where
  abbrev pub now : Action A DateTime
  now w = (ok (A.reading w.ticks), record w { ticks = suc w.ticks })

  -- A write to the repository, with its error as a value.
  abbrev pub write :
      (A.R.State → Result (Unit {0}) RepositoryError × A.R.State)
      → Action A (Result (Unit {0}) RepositoryError)
  write f w = let (r, s) = f w.repository in (ok r, record w { repository = s })

  -- A call of the torrent client, with its error as a value.
  abbrev pub request :
      {B : Type 0}
      → (A.T.State → Result B TorrentClientError × A.T.State)
      → Action A (Result B TorrentClientError)
  request f w = let (r, s) = f w.torrent_client in (ok r, record w { torrent_client = s })

  -- `?` on a repository's or a client's result.
  abbrev pub or_throw : Result (Unit {0}) RepositoryError → Action A (Unit {0})
  or_throw (ok _) w = (ok tt, w)
  or_throw (err e) w = (err (repository e), w)
