-- ===== src/App/Tasks/Sweeps.antt =====
-- What one step of the background task of app/mod.rs does to the records.
use magnarr.Prelude.{String, ◌≡◌, refl, ◌≢◌, ◌∙◌, sym, subst, Bool, true, false, arith}
use magnarr.Prelude.{
  List, [], ◌∷◌, none, some, inl, inr, if◌then◌else◌, Result, ok, err, Bool-cases, str_eq, eq_iff,
}
use magnarr.Types.Download.{DateTime, Download, queued, downloading, touch}
use magnarr.App.Repository.{RepositoryError, Scan, asc}
use magnarr.App.Repository.Contract.{Contract, View, Same}
use magnarr.App.World.{Deps, World}
use magnarr.App.Files.{IoError}
use magnarr.App.Poll.Step.{IsPending, apply_status-Round}
use magnarr.App.Import.{Site, get_importing, concluded}
use magnarr.App.Import.Step.{Finished, written-Round, concluded-Finished}
use magnarr.App.Tasks.{Loop, scanning, chaining, polling, settling, listing, taking, copying}
use magnarr.App.Tasks.{concluding, resting, stopped, scanned, collected, listed, panicked, turn}
use magnarr.App.Tasks.Edges.{Edge, Life-Edge, Import-Edge, stays}
use magnarr.App.Tasks.Due.{
  Due, IsImporting, Due-tail, IsPending-past, Knows, scanned-Due, chained-Due, listed-Due,
}

module _ (S : Site) (A : Deps) where
  -- From the map `v` to `w`: each record takes an edge, none that is `Queued` changes, and the task
  -- knows what it has to where it stands.
  pub record Sweep (v w : View) (l : Loop) : Type 0 where
    pub edges : (h : String) → Edge (v h) (w h)
    pub queued_kept :
        (d : Download) → v d.info_hash ≡ some d → d.status ≡ queued → w d.info_hash ≡ some d
    pub knows : Knows S A w l

  pub still : (v w : View) (l : Loop) → Same v w → Knows S A w l → Sweep v w l
  still v w l same knows = record {
    edges = λ h. stays (same h);
    queued_kept = λ d held _. same d.info_hash ∙ held;
    knows = knows;
  }

  -- Where only the record of `d` changes, which is not `Queued`.
  touched :
      (v w : View) (l : Loop) (d : Download)
      → v d.info_hash ≡ some d
      → d.status ≢ queued
      → Edge (v d.info_hash) (w d.info_hash)
      → ((h : String) → h ≢ d.info_hash → w h ≡ v h)
      → Knows S A w l
      → Sweep v w l
  touched v w l d held past edge elsewhere knows = record {
    edges = λ h. elim (Bool-cases (str_eq h d.info_hash)) [
      | inl here ↦ subst (λ k. Edge (v k) (w k)) (sym ((eq_iff h d.info_hash).0 here)) edge
      | inr there ↦ stays (elsewhere h (ground (arith, eq_iff h d.info_hash)))
    ];
    queued_kept = λ e held_e st. elim (Bool-cases (str_eq e.info_hash d.info_hash)) [
      | inl here ↦ let k = (eq_iff e.info_hash d.info_hash).0 here in absurd (past (cc))
      | inr there ↦ elsewhere e.info_hash (ground (arith, eq_iff e.info_hash d.info_hash)) ∙ held_e
    ];
    knows = knows;
  }

  Finished-touch : (d d' : Download) (t : DateTime) → Finished S d d' → Finished S d (touch t d')
  unfolding touch
  Finished-touch d d' t fin = record { outcome = fin.outcome; kept = fin.kept }

  pub panicked-Finished : (message : String) (d : Download) → Finished S d (panicked message d)
  unfolding panicked
  panicked-Finished message d = record {
    outcome = inr (refl, refl, (_, refl));
    kept = (refl, refl, refl, refl, refl, refl);
  }

  module _ (C : Contract A.R) where
    pub concluded-copied :
        (r : Result (Unit {0}) IoError) (d : Download) → Finished S d (concluded S r d)
    unfolding touch concluded
    concluded-copied r d =
        let fin = concluded-Finished S A C d.updated_at r d in
        record { outcome = fin.outcome; kept = fin.kept }

    scanned-Knows :
        (s : A.R.State) (r : Scan)
        → A.R.scan_by_status downloading none asc s ≡ r
        → Knows S A (C.view s) (scanned r)
    unfolding scanned
    scanned-Knows s (ok iter) ran =
        λ es collected. scanned-Due S A C s downloading iter es ran collected
    scanned-Knows s (err e) ran = tt

    collected-Knows :
        (v : View) (r : Result (List Download) RepositoryError)
        → ((ds : List Download) → r ≡ ok ds → Due IsPending v ds)
        → Knows S A v (collected r)
    unfolding collected
    collected-Knows v (ok ds) due = due ds refl
    collected-Knows v (err e) due = tt

    listed-Knows :
        (s : A.R.State) (r : Result (List Download) RepositoryError)
        → get_importing S A s ≡ r
        → Knows S A (C.view s) (listed r)
    unfolding listed
    listed-Knows s (ok ds) ran = listed-Due S A C s ds ran
    listed-Knows s (err e) ran = tt

    taken-Knows :
        (v : View) (d : Download) (ds : List Download) (cancelled : Bool)
        → Knows S A v (taking (d ∷ ds))
        → Knows S A v (if cancelled then resting else copying d ds)
    taken-Knows v d ds true due = tt
    taken-Knows v d ds false due = due

    pub turn-Sweep :
        (cancelled : Bool) (l : Loop) (w : World A)
        → Knows S A (C.view w.repository) l
        → Sweep
            (C.view w.repository)
            (C.view (turn A S cancelled l w).1.repository)
            (turn A S cancelled l w).0
    unfolding turn
    turn-Sweep cancelled scanning w knows =
        still _ _ _ (λ h. refl) (scanned-Knows w.repository _ refl)
    turn-Sweep cancelled (chaining iter) w knows =
        still _ _ _ (λ h. refl)
          (collected-Knows _ _ (λ ds. chained-Due S A C w.repository iter ds knows))
    turn-Sweep cancelled (polling []) w knows = still _ _ _ (λ h. refl) tt
    turn-Sweep cancelled (polling (d ∷ ds)) w knows =
        still _ _ _ (λ h. refl) (knows, (w.torrent_client, refl))
    turn-Sweep cancelled (settling d r ds) w ((held, once), told) =
        let round = apply_status-Round A C d r w held.0.0 held.0.1 told in
        touched _ _ _ d held.0.0 (IsPending-past d held.0.1) (Life-Edge A.T _ _ round.at)
          round.elsewhere (Due-tail IsPending _ _ d ds round.elsewhere (held, once))
    turn-Sweep cancelled listing w knows =
        still _ _ _ (λ h. refl) (listed-Knows w.repository _ refl)
    turn-Sweep cancelled (taking []) w knows = still _ _ _ (λ h. refl) tt
    turn-Sweep cancelled (taking (d ∷ ds)) w knows =
        still _ _ _ (λ h. refl) (taken-Knows _ d ds cancelled knows)
    turn-Sweep cancelled (copying d ds) w knows = still _ _ _ (λ h. refl) knows
    turn-Sweep cancelled (concluding d' ds) w (d, due, fin) =
        let round =
          written-Round S A C d _ _ _ _ due.0.0.0 due.0.0.1
            (Finished-touch d d' (A.reading w.ticks) fin) (C.update_writes _ w.repository) in
        touched _ _ _ d due.0.0.0 (λ st. cc) (Import-Edge S _ _ round.at) round.elsewhere
          (Due-tail IsImporting _ _ d ds round.elsewhere due)
    turn-Sweep cancelled resting w knows = still _ _ _ (λ h. refl) tt
    turn-Sweep cancelled stopped w knows = still _ _ _ (λ h. refl) tt
