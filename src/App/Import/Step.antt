-- ===== src/App/Import/Step.antt =====
-- What the import of one download (app/mod.rs) does to its record.
use magnarr.Prelude.{String, ◌≡◌, refl, ◌≢◌, ◌⊎◌, inl, inr, ◌∙◌, arith}
use magnarr.Prelude.{Option, some, List, [], ◌∷◌, Result, ok, err, All}
use magnarr.Prelude.{eq_iff}
use magnarr.Types.Download.{DateTime, Download, importing, imported, failed, touch}
use magnarr.App.Repository.{RepositoryError}
use magnarr.App.Repository.Contract.{Contract, View, put, Writes, Distinct}
use magnarr.App.World.{Deps, World}
use magnarr.App.Files.{IoError}
use magnarr.App.Import.{Site, import_path, concluded, conclude}

-- `d'` is `d` after its import: `Imported` with the path, or `Failed` with an error, and nothing else but
-- the time.
pub record Finished (S : Site) (d d' : Download) : Type 0 where
  pub outcome :
      ((d'.status ≡ imported) × (d'.imported_path ≡ some (import_path S d)) × (d'.error ≡ d.error))
      ⊎ ((d'.status ≡ failed)
          × (d'.imported_path ≡ d.imported_path)
          × ((message : String) × (d'.error ≡ some message)))
  pub kept :
      (d'.info_hash ≡ d.info_hash)
      × (d'.magnet ≡ d.magnet)
      × (d'.name ≡ d.name)
      × (d'.content_name ≡ d.content_name)
      × (d'.target_dir ≡ d.target_dir)
      × (d'.created_at ≡ d.created_at)

-- What an import may do to the record `o` of one info hash: leave it, or finish it if it is `Importing`.
abbrev pub Import : Site → Option Download → Option Download → Type 0
Import S o o' =
    (o' ≡ o)
    ⊎ ((d : Download) × (d' : Download) × (o ≡ some d)
        × (d.status ≡ importing)
        × (o' ≡ some d')
        × Finished S d d')

module _ (S : Site) (A : Deps) (C : Contract A.R) where
  pub concluded-Finished :
      (t : DateTime) (r : Result (Unit {0}) IoError) (d : Download)
      → Finished S d (touch t (concluded S r d))
  unfolding concluded touch
  concluded-Finished t (ok _) d = record {
    outcome = inl (refl, refl, refl);
    kept = (refl, refl, refl, refl, refl, refl);
  }
  concluded-Finished t (err e) d = record {
    outcome = inr (refl, refl, (_, refl));
    kept = (refl, refl, refl, refl, refl, refl);
  }

  -- What one import does to the map.
  pub record Round (d : Download) (v v' : View) : Type 0 where
    pub at : Import S (v d.info_hash) (v' d.info_hash)
    pub elsewhere : (h : String) → h ≢ d.info_hash → v' h ≡ v h

  pub written-Round :
      (d d' : Download) (v v' : View) (r : Result (Unit {0}) RepositoryError)
      → v d.info_hash ≡ some d
      → d.status ≡ importing
      → Finished S d d'
      → Writes v (put d'.info_hash (some d') v) v' r
      → Round d v v'
  written-Round d d' v v' (err e) held st fin write = record {
    at = inl (write d.info_hash);
    elsewhere = λ h _. write h;
  }
  written-Round d d' v v' (ok _) held st fin write = record {
    at = inr (
      d,
      d',
      held,
      st,
      ground (arith, write d.info_hash, fin.kept.0, eq_iff d.info_hash d'.info_hash),
      fin,
    );
    elsewhere = λ h ne. ground (arith, write h, fin.kept.0, eq_iff h d'.info_hash);
  }

  pub conclude-Round :
      (r : Result (Unit {0}) IoError) (d : Download) (w : World A)
      → C.view w.repository d.info_hash ≡ some d
      → d.status ≡ importing
      → Round d (C.view w.repository) (C.view (conclude S A r d w).repository)
  unfolding conclude
  conclude-Round r d w held st =
      written-Round d _ _ _ _ held st (concluded-Finished (A.reading w.ticks) r d)
        (C.update_writes _ w.repository)

  -- The loop from a list of records that are stored as they stand.
  pub record Queue (v : View) (ds : List Download) : Type 0 where
    pub stored : All (λ (d : Download). v d.info_hash ≡ some d) ds
    pub importing_all : All (λ (d : Download). d.status ≡ importing) ds
    pub distinct : Distinct ds

  pub Queue-tail :
      (d : Download) (ds : List Download) (v v' : View)
      → Queue v (d ∷ ds)
      → Round d v v'
      → Queue v' ds
  Queue-tail d ds v v' q round = record {
    stored = kept ds q.stored.1 q.distinct.0;
    importing_all = q.importing_all.1;
    distinct = q.distinct.1;
  }
    where
      kept :
          (es : List Download)
          → All (λ (e : Download). v e.info_hash ≡ some e) es
          → All (λ (e : Download). e.info_hash ≢ d.info_hash) es
          → All (λ (e : Download). v' e.info_hash ≡ some e) es
      kept [] h ne = tt
      kept (e ∷ es) h ne = (round.elsewhere e.info_hash ne.0 ∙ h.0, kept es h.1 ne.1)
