-- ===== src/App/Submit/Laws.antt =====
-- What `App::download` (app/mod.rs) leaves in the repository, for every way that it can end.
use magnarr.Prelude.{String, ◌≡◌, refl, ◌≢◌, ◌⊎◌, inl, inr, ◌∙◌, subst, arith}
use magnarr.Prelude.{Option, none, some, Result, ok, err, eq_iff}
use magnarr.Types.Magnet.{Magnet}
use magnarr.Types.Download.{DateTime, Download, new, touch, queued, submitted}
use magnarr.App.Repository.{DownloadRepository, RepositoryError, not_found}
use magnarr.App.Repository.Contract.{
  Contract, View, put, Same, Finds, Writes, RemoveFails, UpdateFails,
}
use magnarr.App.Torrent.{TorrentClientError}
use magnarr.App.Errors.{AppError, already_exists, repository, torrent_client}
use magnarr.App.World.{Deps, World, ◌>>=◌, pure, or_throw, request, write, lift, Action}
use magnarr.App.Submit.{check_absent, rollback, mark_submitted, handed_over, persist, download}

-- The record of a magnet in its first status.
pub record IsFresh (magnet : Magnet) (target_dir : String) (d : Download) : Type 0 where
  pub info_hash : d.info_hash ≡ magnet.info_hash
  pub magnet_kept : d.magnet ≡ magnet
  pub target_dir_kept : d.target_dir ≡ target_dir
  pub imported_path : d.imported_path ≡ none
  pub error : d.error ≡ none

-- The map has gained a record of the magnet that is still `Queued`.
abbrev pub Stranded : Magnet → String → View → View → Type 0
Stranded magnet target_dir v w =
    (d : Download) × IsFresh magnet target_dir d
    × (d.status ≡ queued)
    × Same (put magnet.info_hash (some d) v) w

-- How the map `w` after the call, and its result, follow from the map `v` before it.
abbrev pub Submission :
    DownloadRepository → Magnet → String → View → View → Result Download AppError → Type 0
Submission R magnet target_dir v w (ok d) =
    (v magnet.info_hash ≡ none)
    × IsFresh magnet target_dir d
    × (d.status ≡ submitted)
    × Same (put magnet.info_hash (some d) v) w
Submission R magnet target_dir v w (err already_exists) = (v magnet.info_hash ≢ none) × Same v w
Submission R magnet target_dir v w (err (repository e)) =
    Same v w
    ⊎ ((v magnet.info_hash ≡ none)
        × UpdateFails R magnet.info_hash
        × Stranded magnet target_dir v w)
Submission R magnet target_dir v w (err (torrent_client e)) =
    (v magnet.info_hash ≡ none)
    × (Same v w ⊎ (RemoveFails R magnet.info_hash × Stranded magnet target_dir v w))

put-put :
    (h : String) (o p : Option Download) (v v' w : View)
    → Same (put h o v) v'
    → Same (put h p v') w
    → Same (put h p v) w
put-put h o p v v' w a b j = ground (arith, a j, b j)

put-none :
    (h : String) (o : Option Download) (v v' w : View)
    → v h ≡ none
    → Same (put h o v) v'
    → Same (put h none v') w
    → Same v w
put-none h o v v' w e a b j = ground (arith, a j, b j, eq_iff j h)

Same-trans : (u v w : View) → Same u v → Same v w → Same u w
Same-trans u v w a b j = b j ∙ a j

module _ (A : Deps) (C : Contract A.R) (magnet : Magnet) (target_dir : String) where
  -- From a queued record to the end of the call.
  module _ (v : View) (d : Download) (absent : v magnet.info_hash ≡ none)
      (fresh : IsFresh magnet target_dir d) (is_queued : d.status ≡ queued) where
    removed_or_Stranded :
        (u w : View) (s : A.R.State) (r : Result (Unit {0}) RepositoryError)
        → (A.R.remove d.info_hash s).0 ≡ r
        → Same (put magnet.info_hash (some d) v) u
        → Writes u (put d.info_hash none u) w r
        → Same v w ⊎ (RemoveFails A.R magnet.info_hash × Stranded magnet target_dir v w)
    removed_or_Stranded u w s (ok _) call held write = inl (
        put-none magnet.info_hash (some d) v u w absent held
          (subst (λ h. Same (put h none u) w) fresh.info_hash write))
    removed_or_Stranded u w s (err e) call held write = inr (
      subst (RemoveFails A.R) fresh.info_hash (s, λ fine. cc),
      (d, fresh, is_queued, Same-trans _ u w held write),
    )

    rollback-Submission :
        (w : World A) (e : TorrentClientError)
        → Same (put magnet.info_hash (some d) v) (C.view w.repository)
        → Submission A.R magnet target_dir v
            (C.view (rollback A d e w).1.repository)
            (rollback A d e w).0
    unfolding rollback
    rollback-Submission w e held = (
      absent,
      removed_or_Stranded _ _ w.repository _ refl held (C.remove_writes d.info_hash w.repository),
    )

    -- The end of `mark_submitted`, once the update has answered `r`.
    updated-Submission :
        (t : DateTime) (u : View) (w : World A) (s : A.R.State)
        (r : Result (Unit {0}) RepositoryError)
        → Same (put magnet.info_hash (some d) v) u
        → let d' : Download = record d { status = submitted; updated_at = t } in
          (A.R.update d' s).0 ≡ r
          → Writes u (put d.info_hash (some d') u) (C.view w.repository) r
          → let end = (or_throw A r >>= λ _. pure d') w in
            Submission A.R magnet target_dir v (C.view end.1.repository) end.0
    updated-Submission t u w s (ok _) held call write = (
      absent,
      record {
        info_hash = fresh.info_hash;
        magnet_kept = fresh.magnet_kept;
        target_dir_kept = fresh.target_dir_kept;
        imported_path = fresh.imported_path;
        error = fresh.error;
      },
      refl,
      put-put magnet.info_hash (some d) (some (record d { status = submitted; updated_at = t })) v u
          (C.view w.repository) held
          (subst
            (λ h.
              Same (put h (some (record d { status = submitted; updated_at = t })) u)
                (C.view w.repository))
            fresh.info_hash write),
    )
    updated-Submission t u w s (err e) held call write = inr (
      absent,
      (record d { status = submitted; updated_at = t }, s, fresh.info_hash, λ fine. cc),
      (d, fresh, is_queued, Same-trans _ u _ held write),
    )

    mark_submitted-Submission :
        (w : World A)
        → Same (put magnet.info_hash (some d) v) (C.view w.repository)
        → Submission A.R magnet target_dir v
            (C.view (mark_submitted A d w).1.repository)
            (mark_submitted A d w).0
    unfolding mark_submitted touch
    mark_submitted-Submission w held =
        updated-Submission (A.reading w.ticks) (C.view w.repository) _ w.repository _ held refl
          (C.update_writes _ w.repository)

    handed_over-Submission :
        (w : World A) (r : Result (Unit {0}) TorrentClientError)
        → Same (put magnet.info_hash (some d) v) (C.view w.repository)
        → Submission A.R magnet target_dir v
            (C.view (handed_over A d r w).1.repository)
            (handed_over A d r w).0
    unfolding handed_over
    handed_over-Submission w (err e) held = rollback-Submission w e held
    handed_over-Submission w (ok _) held = mark_submitted-Submission w held

    -- From the answer of the insertion.
    inserted-Submission :
        (w : World A) (r : Result (Unit {0}) RepositoryError)
        → Writes v (put d.info_hash (some d) v) (C.view w.repository) r
        → let end =
            (or_throw A r >>= λ _. request A (A.T.download d.magnet) >>= handed_over A d) w in
          Submission A.R magnet target_dir v (C.view end.1.repository) end.0
    inserted-Submission w (ok _) write =
        handed_over-Submission _ _
          (subst (λ h. Same (put h (some d) v) (C.view w.repository)) fresh.info_hash write)
    inserted-Submission w (err e) write = inl write

  new-IsFresh : (t : DateTime) → IsFresh magnet target_dir (new t magnet target_dir)
  unfolding new
  new-IsFresh t = record {
    info_hash = refl;
    magnet_kept = refl;
    target_dir_kept = refl;
    imported_path = refl;
    error = refl;
  }

  new-queued : (t : DateTime) → (new t magnet target_dir).status ≡ queued
  unfolding new
  new-queued t = refl

  persist-Submission :
      (w : World A)
      → C.view w.repository magnet.info_hash ≡ none
      → Submission A.R magnet target_dir
          (C.view w.repository)
          (C.view (persist A magnet target_dir w).1.repository)
          (persist A magnet target_dir w).0
  unfolding persist
  persist-Submission w absent =
      inserted-Submission _ (new (A.reading w.ticks) magnet target_dir) absent (new-IsFresh _)
        (new-queued _) _ _ (C.insert_writes _ w.repository)

  -- From the answer of the lookup.
  looked_up-Submission :
      (w : World A) (r : Result Download RepositoryError) (more : Action A Download)
      → Finds (C.view w.repository magnet.info_hash) r
      → (C.view w.repository magnet.info_hash ≡ none
          → Submission A.R magnet target_dir
              (C.view w.repository)
              (C.view (more w).1.repository)
              (more w).0)
      → let end = (lift (λ _. check_absent r) >>= λ _. more) w in
        Submission A.R magnet target_dir (C.view w.repository) (C.view end.1.repository) end.0
  unfolding check_absent
  looked_up-Submission w (ok d) more found rest = ((λ e. cc), λ j. refl)
  looked_up-Submission w (err not_found) more found rest = rest found
  looked_up-Submission w (err e) more found rest = inl (λ j. refl)

  -- Submitting a download has one of these ends. `Ok`: there was no record of the info hash, and the
  -- map gains the returned record, which is `Submitted`, at it. `AlreadyExists`: there was a record, and
  -- nothing has changed. `Repository`: nothing has changed, or there was no record, the
  -- repository has refused an update of it, and one has been left as `Queued`. `TorrentClient`: there
  -- was no record, and nothing has changed or, where the repository has refused the removal, one has
  -- been left as `Queued`. Records of other info hashes never change.
  pub download-Submission :
      (w : World A)
      → Submission A.R magnet target_dir
          (C.view w.repository)
          (C.view (download A magnet target_dir w).1.repository)
          (download A magnet target_dir w).0
  unfolding download
  download-Submission w =
      looked_up-Submission w (A.R.get magnet.info_hash w.repository) (persist A magnet target_dir)
        (C.get_finds magnet.info_hash w.repository) (persist-Submission w)
