-- ===== src/App/Progress.antt =====
-- A poll of app/mod.rs when nothing goes wrong: what it makes of a finished torrent's record.
pub mod Laws
use magnarr.Prelude.{
  ℕ, suc, String, ◌≡◌, refl, ◌≢◌, ◌⊎◌, inl, inr, sym, ap, subst, ◌∙◌, ◌<◌, arith, false, Bool,
}
use magnarr.Prelude.{
  Option, none, some, List, [], ◌∷◌, map, Result, ok, err, ok-injective, All, Any, eq_iff,
  >>=-eq-ok, if◌then◌else◌,
}
use magnarr.Types.Torrent.{TorrentState, TorrentStatus, seeding}
use magnarr.Types.Download.{Download, status_eq, importing, touch}
use magnarr.App.Repository.{DownloadRepository, DownloadEntry, RepositoryError, asc}
use magnarr.App.Repository.Contract.{Contract, View, Writes, put, Lists}
use magnarr.App.Torrent.{TorrentClient, TorrentClientError}
use magnarr.App.World.{Deps, World}
use magnarr.App.Files.{Node, IoError}
use magnarr.App.Files.Ends.{depth_of, copy_recursive-Ends}
use magnarr.App.Poll.{
  apply_status, poll_download, poll_each, next_status, refreshed, get_pending_downloads,
  poll_downloads,
}
use magnarr.App.Poll.Step.{poll_download-Round, IsPending, Reports, Settles, Settled}
use magnarr.App.Poll.Pending.{collect-map}
use magnarr.App.Poll.Pending as Poll
use magnarr.App.Poll.Laws.{poll_each-others, Queue-tail as poll_tail}
use magnarr.App.Import.{
  Site, source, destination, conclude, concluded, import_download, import_each,
}
use magnarr.App.Import.{get_importing, import_downloads}
use magnarr.App.Import.Step.{Finished, Round, Queue, Queue-tail, conclude-Round, concluded-Finished}
use magnarr.App.Import.Laws.{Waits, Apart, Fits, Ended, import_each-Ended, get_importing-Queue}
use mathlib.Core.Option

-- The client reports that it has finished the torrent, whenever it is asked.
abbrev pub Seeds : TorrentClient → String → Type 0
Seeds T h = (s : T.State) → (ts : TorrentStatus) × ((T.status h s).0 ≡ ok ts) × (ts.state ≡ seeding)

-- `e` is `d` as the poll leaves it: it waits for its import, and is to go where `d` is.
abbrev pub Ready : Download → Download → Type 0
Ready d e =
    (e.status ≡ importing)
    × (e.info_hash ≡ d.info_hash)
    × (e.magnet ≡ d.magnet)
    × (e.target_dir ≡ d.target_dir)

-- The repository refuses no update of a record that it holds.
abbrev pub Accepts : (R : DownloadRepository) → Contract R → Type 0
Accepts R C =
    (d e : Download) (s : R.State) → C.view s d.info_hash ≡ some e → (R.update d s).0 ≡ ok tt

pub accepted_write :
    (d d' : Download) (v v' : View) (r : Result (Unit {0}) RepositoryError)
    → r ≡ ok tt
    → d'.info_hash ≡ d.info_hash
    → Writes v (put d'.info_hash (some d') v) v' r
    → v' d.info_hash ≡ some d'
accepted_write d d' v v' (err e) fine same write = cc
accepted_write d d' v v' (ok _) fine same write =
    ground (arith, write d.info_hash, same, eq_iff d.info_hash d'.info_hash)

-- A report of a finished torrent is news to a pending download.
status_eq-seeding :
    (st : TorrentState) (d : Download)
    → IsPending d.status
    → st ≡ seeding
    → status_eq (next_status st d.status) d.status ≡ false
unfolding next_status status_eq
status_eq-seeding st d pending state =
    ap (λ x. status_eq (next_status x d.status) d.status) state
    ∙ (elim pending [ inl e ↦ ap (status_eq importing) e | inr e ↦ ap (status_eq importing) e ])

module _ (A : Deps) (C : Contract A.R) (accepts : Accepts A.R C) where
  apply_status-Ready :
      (d : Download) (ts : TorrentStatus) (r : Result TorrentStatus TorrentClientError)
      (w : World A)
      → C.view w.repository d.info_hash ≡ some d
      → IsPending d.status
      → ts.state ≡ seeding
      → r ≡ ok ts
      → (e : Download) × (C.view (apply_status A d r w).repository d.info_hash ≡ some e) × Ready d e
  unfolding refreshed next_status apply_status
  apply_status-Ready d ts (err e) w held pending state told = cc
  apply_status-Ready d ts (ok ts') w held pending state told =
      let state' : ts'.state ≡ seeding =
        ap (λ (x : TorrentStatus). x.state) (ok-injective told) ∙ state in
      let d' = refreshed (A.reading w.ticks) ts' (next_status ts'.state d.status) d in
      (
        d',
        rw (status_eq-seeding ts'.state d pending state', apply_status)
            (accepted_write d d' _ _ _ (accepts d' d w.repository held) refl
              (C.update_writes d' w.repository)),
        (ap (λ x. next_status x d.status) state', refl, refl, refl),
      )

  -- The poll of `d` makes it ready, and what follows leaves it.
  poll_each-Ready :
      (d : Download) (ds : List Download) (w : World A)
      → Poll.Queue (C.view w.repository) ds
      → Seeds A.T d.info_hash
      → Any (λ e. e ≡ d) ds
      → (e : Download) × (C.view (poll_each A ds w).repository d.info_hash ≡ some e) × Ready d e
  unfolding poll_each poll_download
  poll_each-Ready d [] w q seeds listed = absurd listed
  poll_each-Ready d (x ∷ ds) w q seeds (inl here) =
      let round = poll_download-Round A C x w q.stored.0 q.pending.0 in
      let w' = poll_download A x w in
      let others =
        poll_each-others A C x.info_hash ds w' (poll_tail A C x ds w w' q round) q.distinct.0 in
      let (ts, told, state) =
        subst (λ (y : Download). Seeds A.T y.info_hash) (sym here) seeds w.torrent_client in
      let (e, now, ready) =
        apply_status-Ready x ts _
          (record w { torrent_client = (A.T.status x.info_hash w.torrent_client).1 }) q.stored.0
          q.pending.0 state told in
      subst
        (λ y.
          (e : Download) × (C.view (poll_each A ds w').repository y.info_hash ≡ some e) × Ready y e)
        here (e, others ∙ now, ready)
  poll_each-Ready d (x ∷ ds) w q seeds (inr later) =
      let round = poll_download-Round A C x w q.stored.0 q.pending.0 in
      poll_each-Ready d ds _ (poll_tail A C x ds w _ q round) seeds later

  pub poll_downloads-Ready :
      (d : Download) (ds : List Download) (w : World A)
      → get_pending_downloads A w.repository ≡ ok ds
      → C.view w.repository d.info_hash ≡ some d
      → IsPending d.status
      → Seeds A.T d.info_hash
      → (e : Download) × (C.view (poll_downloads A w).repository d.info_hash ≡ some e) × Ready d e
  unfolding poll_downloads
  poll_downloads-Ready d ds w found held pending seeds =
      let (q, covers) = Poll.get_pending_downloads-Queue A C w.repository ds found in
      rw (found, poll_downloads) (poll_each-Ready d ds w q seeds (covers d held pending))
