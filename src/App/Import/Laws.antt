-- ===== src/App/Import/Laws.antt =====
-- The import of all finished torrents (app/mod.rs), as the life of every record.
use magnarr.Prelude.{
  ℕ, suc, ◌<◌, String, ◌≡◌, refl, ◌≢◌, inl, inr, ◌∙◌, sym, subst, arith, Bool-cases,
}
use magnarr.Prelude.{Option, none, some, List, [], ◌∷◌, ok, Result-cases, All, All-map}
use magnarr.Prelude.{str_eq, eq_iff, >>=-eq-ok}
use magnarr.Types.Download.{Download, importing}
use magnarr.App.Repository.{DownloadEntry, asc}
use magnarr.App.Repository.Contract.{Contract, View, Distinct, Lists}
use magnarr.App.World.{Deps, World}
use magnarr.App.Files.{Node, lookup}
use magnarr.App.Files.Lookup.{Disjoint}
use magnarr.App.Files.Ends.{depth_of, copy_recursive-Ends}
use magnarr.App.Poll.Pending.{collect-map}
use magnarr.App.Import.{Site, source, destination, import_download, import_each, get_importing}
use magnarr.App.Import.{conclude, import_downloads}
use magnarr.App.Import.Step.{Import, Round, Queue, Queue-tail, conclude-Round}
use mathlib.Core.Option

-- The record waits for its import.
abbrev pub Waits : View → Download → Type 0
Waits v d = (v d.info_hash ≡ some d) × (d.status ≡ importing)

-- No source of a waiting record is at, above or below the destination of one.
abbrev pub Apart : Site → View → Type 0
Apart S v = (d e : Download) → Waits v d → Waits v e → Disjoint (source S d) (destination S e)

-- The sources of the waiting records are lower than the fuel.
abbrev pub Fits : Site → View → ℕ → Node → Type 0
Fits S v fuel root = (d : Download) → Waits v d → depth_of (lookup (source S d) root) < fuel

module _ (S : Site) (A : Deps) (C : Contract A.R) where
  -- The loop over `ds` has ended; each record has taken a step, and none but those of `ds` did.
  abbrev pub Ended : View → List Download → Option (World A × Node) → Type 0
  Ended v ds none = ⊥
  Ended v ds (some (w, root)) =
      (h : String)
      → Import S (v h) (C.view w.repository h)
        × (All (λ (d : Download). d.info_hash ≢ h) ds → C.view w.repository h ≡ v h)

  Round-Ended :
      (d : Download) (ds : List Download) (v v' : View) (run : Option (World A × Node))
      → Distinct (d ∷ ds)
      → Round S A C d v v'
      → Ended v' ds run
      → Ended v (d ∷ ds) run
  Round-Ended d ds v v' none distinct round end = end
  Round-Ended d ds v v' (some (w, root)) distinct round end = λ h. (
    elim (Bool-cases (str_eq h d.info_hash)) [
      | inl here ↦
          let e = (eq_iff h d.info_hash).0 here in
          subst (λ k. Import S (v k) (C.view w.repository k)) (sym e)
            (subst (Import S (v d.info_hash)) (sym ((end d.info_hash).1 distinct.0)) round.at)
      | inr there ↦
          subst (λ o. Import S o (C.view w.repository h))
            (round.elsewhere h (ground (arith, eq_iff h d.info_hash))) (end h).0
    ],
    λ ne. (end h).1 ne.1 ∙ round.elsewhere h (λ e. ne.0 (sym e)),
  )

  module _ (fuel : ℕ) (v : View) (apart : Apart S v) where
    pub import_each-Ended :
        (n : ℕ) (ds : List Download) (w : World A) (root : Node)
        → Queue S A C (C.view w.repository) ds
        → All (Waits v) ds
        → Fits S v fuel root
        → Ended (C.view w.repository) ds (import_each S A fuel n ds w root)
    unfolding import_each import_download Option.bind
    import_each-Ended n [] w root q waits fits = λ h. (inl refl, λ _. refl)
    import_each-Ended n (d ∷ ds) w root q waits fits = elim (Bool-cases (S.cancelled n)) [
      | inl stop ↦ rw (stop, import_each) (λ h. (inl refl, λ _. refl))
      | inr on ↦
          let (r, root', ran, f) =
            copy_recursive-Ends fuel (source S d) (destination S d) root (apart d d waits.0 waits.0)
              (fits d waits.0) in
          let round = conclude-Round S A C r d w q.stored.0 q.importing_all.0 in
          let still : Fits S v fuel root' = λ e we.
            subst (λ o. depth_of o < fuel) (sym (f (source S e) (apart e d we waits.0)))
              (fits e we) in
          rw (on, import_each, ran)
            (Round-Ended d ds _ _ _ q.distinct round (
              import_each-Ended (suc n) ds (conclude S A r d w) root'
                (Queue-tail S A C d ds _ _ q round) waits.1 still))
    ]

  pub get_importing-Queue :
      (s : A.R.State) (ds : List Download)
      → get_importing S A s ≡ ok ds
      → Queue S A C (C.view s) ds × All (Waits (C.view s)) ds
  unfolding get_importing
  get_importing-Queue s ds h =
      let (iter, ran, h1) = >>=-eq-ok (A.R.scan_by_status importing none asc s) _ h in
      let (es, collected, same) = collect-map (λ (e : DownloadEntry). e.download) iter ds h1 in
      let lists =
        subst (Lists (C.view s) importing) (sym same)
          (C.scan_by_status_lists importing asc s iter es ran collected) in
      (
        record {
          stored = All-map (Waits (C.view s)) _ ds (λ d w. w.0) lists.stored;
          importing_all = All-map (Waits (C.view s)) _ ds (λ d w. w.1) lists.stored;
          distinct = lists.distinct;
        },
        lists.stored,
      )

  Ended-some :
      (v : View) (ds : List Download) (run : Option (World A × Node))
      → Ended v ds run
      → (w : World A) × (root : Node) × (run ≡ some (w, root))
        × ((h : String) → Import S (v h) (C.view w.repository h))
  Ended-some v ds none end = absurd end
  Ended-some v ds (some (w, root)) end = (w, root, refl, λ h. (end h).0)

  -- An import ends, and leaves every record as it is or finishes it: only a record that was
  -- `Importing` changes, to `Imported` with the path of the copy or to `Failed` with an error, and
  -- nothing else of it changes but the time. That is whenever the token is cancelled, provided that no
  -- source is at, above or below a destination, and that the fuel exceeds the heights of the sources.
  pub import_downloads-Import :
      (fuel : ℕ) (w : World A) (root : Node)
      → Apart S (C.view w.repository)
      → Fits S (C.view w.repository) fuel root
      → (w' : World A) × (root' : Node) × (import_downloads S A fuel w root ≡ some (w', root'))
        × ((h : String) → Import S (C.view w.repository h) (C.view w'.repository h))
  unfolding import_downloads
  import_downloads-Import fuel w root apart fits =
      elim (Result-cases (get_importing S A w.repository)) [
        | inr (e, failed) ↦ rw (failed, import_downloads) (w, root, refl, λ h. inl refl)
        | inl (ds, found) ↦
            let (q, waits) = get_importing-Queue w.repository ds found in
            rw (found, import_downloads)
              (Ended-some _ ds _
                (import_each-Ended fuel (C.view w.repository) apart 0 ds w root q waits fits))
      ]
