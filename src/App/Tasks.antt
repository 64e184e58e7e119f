-- ===== src/App/Tasks.antt =====
-- The tasks of a running service (app/mod.rs): any number of `App::download` calls, and the background
-- task that `App::start` spawns. They share the repository and the client, and run interleaved: a
-- call or the loop takes one step per call of the repository or of the client.
pub mod Calls
pub mod Rounds
pub mod Edges
pub mod Effects
pub mod Due
pub mod Sweeps
pub mod Invariant
pub mod Laws
use magnarr.Prelude.{ℕ, suc, String, ◌<>◌, ◌==◌, Bool, true, false, if◌then◌else◌, ◌≡◌}
use magnarr.Prelude.{Option, none, some, List, [], ◌∷◌, ◌++◌, map, Result, ok, err}
use magnarr.Prelude.{update, collect, map_ok, ◌>>=◌}
use magnarr.Types.Magnet.{Magnet}
use magnarr.Types.Torrent.{TorrentStatus}
use magnarr.Types.Download.{Download, DownloadStatus, new, touch}
use magnarr.App.Repository.{DownloadEntry, Entries, RepositoryError, Scan, asc}
use magnarr.App.Torrent.{TorrentClientError}
use magnarr.App.Errors.{AppError, repository, torrent_client}
use magnarr.App.World.{Deps, World}
use magnarr.App.Files.{Node, copy_recursive}
use magnarr.App.Submit.{check_absent}
use magnarr.App.Poll.{apply_status}
use magnarr.App.Import.{Site, source, destination, concluded, get_importing}

-- Where a call of `App::download` stands. It awaits the client in `waiting`, and nowhere else.
pub data Call : Type 0 where
  idle : Call
  arrived absent : Magnet → String → Call
  waiting accepted : Download → Call
  refused : Download → TorrentClientError → Call
  returned : Result Download AppError → Call

-- The record that the call has inserted and not yet settled.
abbrev pub owner : Call → Option Download
owner (waiting d) = some d
owner (accepted d) = some d
owner (refused d e) = some d
owner _ = none

unfoldable pub looked_up : Magnet → String → Result (Unit {0}) AppError → Call
looked_up magnet target_dir (ok _) = absent magnet target_dir
looked_up magnet target_dir (err e) = returned (err e)

unfoldable pub inserted : Download → Result (Unit {0}) RepositoryError → Call
inserted d (ok _) = waiting d
inserted d (err e) = returned (err (repository e))

unfoldable pub answered : Download → Result (Unit {0}) TorrentClientError → Call
answered d (ok _) = accepted d
answered d (err e) = refused d e

unfoldable pub updated : Download → Result (Unit {0}) RepositoryError → Call
updated d (ok _) = returned (ok d)
updated d (err e) = returned (err (repository e))

-- Where the task of `App::start` stands: in `poll_downloads` up to `settling`, in `import_downloads` up
-- to `concluding`, and then in the `select!` of the loop.
pub data Loop : Type 0 where
  scanning : Loop
  chaining : Entries → Loop
  polling : List Download → Loop
  settling : Download → Result TorrentStatus TorrentClientError → List Download → Loop
  listing : Loop
  taking : List Download → Loop
  copying concluding : Download → List Download → Loop
  resting stopped : Loop

unfoldable pub scanned : Scan → Loop
scanned (ok downloading_iter) = chaining downloading_iter
scanned (err e) = listing

unfoldable pub collected : Result (List Download) RepositoryError → Loop
collected (ok pending) = polling pending
collected (err e) = listing

unfoldable pub listed : Result (List Download) RepositoryError → Loop
listed (ok importing) = taking importing
listed (err e) = resting

-- The record of an import whose copying task has panicked.
unfoldable pub panicked : String → Download → Download
panicked message d = record d {
  status = DownloadStatus.failed;
  error = some ("Import task panicked: " <> message);
}

module _ (A : Deps) where
  -- One step of a call.
  unfoldable pub advance : Call → World A → Call × World A
  unfolding looked_up inserted answered updated check_absent touch
  advance (arrived magnet target_dir) w =
      (looked_up magnet target_dir (check_absent (A.R.get magnet.info_hash w.repository)), w)
  advance (absent magnet target_dir) w =
      let d = new (A.reading w.ticks) magnet target_dir in
      let (r, s) = A.R.insert d w.repository in
      (inserted d r, record w { repository = s; ticks = suc w.ticks })
  advance (waiting d) w =
      let (r, s) = A.T.download d.magnet w.torrent_client in
      (answered d r, record w { torrent_client = s })
  advance (accepted d) w =
      let d' = touch (A.reading w.ticks) (record d { status = DownloadStatus.submitted }) in
      let (r, s) = A.R.update d' w.repository in
      (updated d' r, record w { repository = s; ticks = suc w.ticks })
  advance (refused d e) w = (
    returned (err (torrent_client e)),
    record w { repository = (A.R.remove d.info_hash w.repository).1 },
  )
  advance idle w = (idle, w)
  advance (returned r) w = (returned r, w)

  module _ (S : Site) where
    -- One step of the task, with what the token answers; it waits where it copies and where it rests.
    unfoldable pub turn : Bool → Loop → World A → Loop × World A
    unfolding scanned collected listed apply_status get_importing touch
    turn cancelled scanning w =
        (scanned (A.R.scan_by_status DownloadStatus.downloading none asc w.repository), w)
    turn cancelled (chaining downloading_iter) w =
        let pending = A.R.scan_by_status DownloadStatus.submitted none asc w.repository >>= λ iter.
        collect (map (map_ok (λ (e : DownloadEntry). e.download)) (downloading_iter ++ iter)) in
        (collected pending, w)
    turn cancelled (polling []) w = (listing, w)
    turn cancelled (polling (d ∷ ds)) w =
        let (r, s) = A.T.status d.info_hash w.torrent_client in
        (settling d r ds, record w { torrent_client = s })
    turn cancelled (settling d r ds) w = (polling ds, apply_status A d r w)
    turn cancelled listing w = (listed (get_importing S A w.repository), w)
    turn cancelled (taking []) w = (resting, w)
    turn cancelled (taking (d ∷ ds)) w = (if cancelled then resting else copying d ds, w)
    turn cancelled (copying d ds) w = (copying d ds, w)
    turn cancelled (concluding d ds) w = (
      taking ds,
      record w {
        repository = (A.R.update (touch (A.reading w.ticks) d) w.repository).1;
        ticks = suc w.ticks;
      },
    )
    turn cancelled resting w = (resting, w)
    turn cancelled stopped w = (stopped, w)

-- The service: the calls are numbered, and `cancelled` is the token's state.
pub record Service (A : Deps) : Type 0 where
  pub world : World A
  pub root : Node
  pub calls : ℕ → Call
  pub loop : Loop
  pub cancelled : Bool

module _ (S : Site) (A : Deps) where
  -- A step of the background task by itself: a turn, or the end of a copy.
  pub data Own (a : Service A) : Service A → Type 0 where
    turns : Own a (record a {
      world = (turn A S a.cancelled a.loop a.world).1;
      loop = (turn A S a.cancelled a.loop a.world).0;
    })
    copies :
        (fuel : ℕ) (d : Download) (ds : List Download)
        → a.loop ≡ copying d ds
        → {end : Result (Unit {0}) _ × Node}
        → copy_recursive fuel (source S d) (destination S d) a.root ≡ some end
        → Own a (record a { root = end.1; loop = concluding (concluded S end.0 d) ds })

  -- A step of the service. A call may be dropped where it awaits, the process may end and start again
  -- anywhere, and the torrents and the files change by themselves.
  pub data Step (a : Service A) : Service A → Type 0 where
    arrives :
        (i : ℕ) (magnet : Magnet) (target_dir : String)
        → a.calls i ≡ idle
        → Step a (record a { calls = update a.calls i (arrived magnet target_dir) })
    advances :
        (i : ℕ)
        → Step a (record a {
          world = (advance A (a.calls i) a.world).1;
          calls = update a.calls i (advance A (a.calls i) a.world).0;
        })
    drops :
        (i : ℕ) (d : Download)
        → a.calls i ≡ waiting d
        → Step a (record a { calls = update a.calls i idle })
    works : {b : Service A} → Own a b → Step a b
    panics :
        (message : String) (d : Download) (ds : List Download)
        → a.loop ≡ copying d ds
        → Step a (record a { loop = concluding (panicked message d) ds })
    wakes : a.loop ≡ resting → Step a (record a { loop = scanning })
    stops : a.cancelled ≡ true → a.loop ≡ resting → Step a (record a { loop = stopped })
    cancels : Step a (record a { cancelled = true })
    restarts : Step a (record a { calls = λ _. idle; loop = scanning; cancelled = false })
    outside :
        (s : A.T.State) (root : Node)
        → Step a (record a { world = record a.world { torrent_client = s }; root = root })

  pub data Reach (a : Service A) : Service A → Type 0 where
    start : Reach a a
    later : {b c : Service A} → Reach a b → Step b c → Reach a c

  -- A service that has just been started, over any repository.
  pub record IsStarted (a : Service A) : Type 0 where
    pub no_call : (i : ℕ) → a.calls i ≡ idle
    pub first : a.loop ≡ scanning

  pub Reach-trans : (a b c : Service A) → Reach a b → Reach b c → Reach a c
  Reach-trans a b c before start = before
  Reach-trans a b c before (later {b = m} on step) = later (Reach-trans a b m before on) step
