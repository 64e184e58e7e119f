-- ===== src/App/Poll/Laws.antt =====
-- What a whole poll of app/mod.rs does to every record.
use magnarr.Prelude.{
  String, ◌≡◌, refl, ◌≢◌, inl, inr, ok, Any, ◌∙◌, sym, subst, some, arith, Bool-cases,
}
use magnarr.Prelude.{List, [], ◌∷◌, All, Result-cases, str_eq, eq_iff}
use magnarr.Types.Download.{Download}
use magnarr.App.Repository.Contract.{Contract}
use magnarr.App.World.{Deps, World}
use magnarr.App.Poll.{get_pending_downloads, poll_download, poll_each, poll_downloads}
use magnarr.App.Poll.Step.{IsPending, Life, Settled, Round, poll_download-Round}
use magnarr.App.Poll.Pending.{Queue, get_pending_downloads-Queue}

module _ (A : Deps) (C : Contract A.R) where
  -- What is left of the queue after a round is still stored as the loop knows it.
  pub Queue-tail :
      (d : Download) (ds : List Download) (w w' : World A)
      → Queue (C.view w.repository) (d ∷ ds)
      → Round A C d w w'
      → Queue (C.view w'.repository) ds
  Queue-tail d ds w w' q round = record {
    stored = kept ds q.stored.1 q.distinct.0;
    pending = q.pending.1;
    distinct = q.distinct.1;
  }
    where
      kept :
          (es : List Download)
          → All (λ (e : Download). C.view w.repository e.info_hash ≡ some e) es
          → All (λ (e : Download). e.info_hash ≢ d.info_hash) es
          → All (λ (e : Download). C.view w'.repository e.info_hash ≡ some e) es
      kept [] h ne = tt
      kept (e ∷ es) h ne = (round.elsewhere e.info_hash ne.0 ∙ h.0, kept es h.1 ne.1)

  -- The loop does not touch an info hash that it does not poll.
  pub poll_each-others :
      (h : String) (ds : List Download) (w : World A)
      → Queue (C.view w.repository) ds
      → All (λ (d : Download). d.info_hash ≢ h) ds
      → C.view (poll_each A ds w).repository h ≡ C.view w.repository h
  unfolding poll_each
  poll_each-others h [] w q ne = refl
  poll_each-others h (d ∷ ds) w q ne =
      let round = poll_download-Round A C d w q.stored.0 q.pending.0 in
      poll_each-others h ds (poll_download A d w) (Queue-tail d ds w _ q round) ne.1
      ∙ round.elsewhere h (λ e. ne.0 (sym e))

  poll_each-Life :
      (h : String) (ds : List Download) (w : World A)
      → Queue (C.view w.repository) ds
      → Life A.T (C.view w.repository h) (C.view (poll_each A ds w).repository h)
  unfolding poll_each
  poll_each-Life h [] w q = inl refl
  poll_each-Life h (d ∷ ds) w q =
      let round = poll_download-Round A C d w q.stored.0 q.pending.0 in
      let q' = Queue-tail d ds w _ q round in
      let w' = poll_download A d w in
      let end = poll_each A ds w' in
      elim (Bool-cases (str_eq h d.info_hash)) [
        | inl here ↦
            let others = poll_each-others d.info_hash ds w' q' q.distinct.0 in
            subst (λ k. Life A.T (C.view w.repository k) (C.view end.repository k))
              (sym ((eq_iff h d.info_hash).0 here))
              (subst (Life A.T (C.view w.repository d.info_hash)) (sym others) round.at)
        | inr there ↦
            subst (λ o. Life A.T o (C.view end.repository h))
              (round.elsewhere h (ground (arith, eq_iff h d.info_hash))) (poll_each-Life h ds w' q')
      ]

  poll_each-Settled :
      (d : Download) (ds : List Download) (w : World A)
      → Queue (C.view w.repository) ds
      → Any (λ e. e ≡ d) ds
      → Settled A d (C.view (poll_each A ds w).repository d.info_hash)
  unfolding poll_each
  poll_each-Settled d [] w q listed = absurd listed
  poll_each-Settled d (e ∷ ds) w q (inl here) =
      let round = poll_download-Round A C e w q.stored.0 q.pending.0 in
      let w' = poll_download A e w in
      let others = poll_each-others e.info_hash ds w' (Queue-tail e ds w w' q round) q.distinct.0 in
      subst (λ x. Settled A x (C.view (poll_each A ds w').repository x.info_hash)) here
        (subst (Settled A e) (sym others) round.settled)
  poll_each-Settled d (e ∷ ds) w q (inr later) =
      let round = poll_download-Round A C e w q.stored.0 q.pending.0 in
      poll_each-Settled d ds _ (Queue-tail e ds w _ q round) later

  -- A poll leaves every record as it is, or takes one step of its life: a record that is `Submitted`
  -- or `Downloading` is removed if the client does not know its torrent, and else it takes the status
  -- and names of a report whose status is another; then nothing else of it changes but the time.
  pub poll_downloads-Life :
      (w : World A) (h : String)
      → Life A.T (C.view w.repository h) (C.view (poll_downloads A w).repository h)
  unfolding poll_downloads
  poll_downloads-Life w h = elim (Result-cases (get_pending_downloads A w.repository)) [
    | inr (e, failed) ↦ rw (failed, poll_downloads) (inl refl)
    | inl (ds, found) ↦
        rw (found, poll_downloads)
          (poll_each-Life h ds w (get_pending_downloads-Queue A C w.repository ds found).0)
  ]

  -- A poll that could list the pending downloads asks the client about each of them, and settles its
  -- answer. A report of the same status leaves the record; a report of another gives it the refreshed
  -- record, unless the repository refuses the update; a torrent that the client does not know removes
  -- it, unless the repository refuses the removal; any other error leaves it for the next poll.
  pub poll_downloads-Settled :
      (w : World A) (ds : List Download) (d : Download)
      → get_pending_downloads A w.repository ≡ ok ds
      → C.view w.repository d.info_hash ≡ some d
      → IsPending d.status
      → Settled A d (C.view (poll_downloads A w).repository d.info_hash)
  unfolding poll_downloads
  poll_downloads-Settled w ds d found held pending =
      let (q, covers) = get_pending_downloads-Queue A C w.repository ds found in
      rw (found, poll_downloads) (poll_each-Settled d ds w q (covers d held pending))
