-- ===== src/App/Import/Placed.antt =====
-- Where the files of a download are that an import of app/mod.rs has finished.
use magnarr.Prelude.{ℕ, ◌<◌, ◌≡◌, refl, ◌⊎◌, inl, inr, sym, ap, ◌∙◌, arith, eq_iff, List, ◌++◌}
use magnarr.Prelude.{Option, none, some, Result, ok, err}
use magnarr.Types.Download.{Download, importing, imported, touch}
use magnarr.App.Repository.{RepositoryError}
use magnarr.App.Repository.Contract.{Contract, View, put, Writes}
use magnarr.App.World.{Deps, World}
use magnarr.App.Files.{Node, file, IoError, Components, lookup, copy_recursive}
use magnarr.App.Files.Lookup.{Disjoint}
use magnarr.App.Files.Ends.{depth_of}
use magnarr.App.Files.Copies.{copy_recursive_copies}
use magnarr.App.Import.{
  Site, source, destination, import_path, concluded, conclude, import_download,
}
use mathlib.Core.Option
use mathlib.Core.Option.{some-injective}

-- After an update of the record `d` to `d'`, the map holds the one or the other.
written_at :
    (v v' : View) (d d' : Download) (r : Result (Unit {0}) RepositoryError)
    → v d.info_hash ≡ some d
    → d'.info_hash ≡ d.info_hash
    → Writes v (put d'.info_hash (some d') v) v' r
    → (v' d.info_hash ≡ some d') ⊎ (v' d.info_hash ≡ some d)
written_at v v' d d' (ok _) held same write =
    inl (ground (arith, write d.info_hash, same, eq_iff d.info_hash d'.info_hash))
written_at v v' d d' (err e) held same write = inr (write d.info_hash ∙ held)

module _ (S : Site) (A : Deps) (C : Contract A.R) (d : Download) (w : World A)
    (held : C.view w.repository d.info_hash ≡ some d) (st : d.status ≡ importing) where
  -- The import has stored `d'`, which is `Imported`, so that the copy has answered `Ok`.
  concluded-imported :
      (r : Result (Unit {0}) IoError) (d' : Download)
      → C.view (conclude S A r d w).repository d.info_hash ≡ some d'
      → d'.status ≡ imported
      → (r ≡ ok tt) × (d'.imported_path ≡ some (import_path S d))
  unfolding conclude concluded touch
  concluded-imported (ok _) d' now done =
      elim (written_at _ _ d _ _ held refl (C.update_writes _ w.repository)) [
        | inl new ↦
            (refl, ap (λ (x : Download). x.imported_path) (some-injective d' _ (sym now ∙ new)))
        | inr old ↦
            let same = some-injective d' d (sym now ∙ old) in
            absurd (cc (ap (λ (x : Download). x.status) same))
      ]
  concluded-imported (err e) d' now done =
      elim (written_at _ _ d _ _ held refl (C.update_writes _ w.repository)) [
        | inl new ↦
            let same = ap (λ (x : Download). x.status) (some-injective d' _ (sym now ∙ new)) in
            absurd (cc (same))
        | inr old ↦
            let same = ap (λ (x : Download). x.status) (some-injective d' d (sym now ∙ old)) in
            absurd (cc (same))
      ]

  -- Where an import of a record that is stored, and `Importing`, leaves it stored as `Imported`, each file
  -- at or below the source is at the same place at or below the destination, and the record has the
  -- destination's path; if neither of the two is at or below the other and the fuel exceeds the height
  -- of the source.
  pub import_download-Placed :
      (fuel : ℕ) (root root' : Node) (w' : World A) (d' : Download) (rel : Components) (b : List ℕ)
      → Disjoint (source S d) (destination S d)
      → depth_of (lookup (source S d) root) < fuel
      → import_download S A fuel d w root ≡ some (w', root')
      → C.view w'.repository d.info_hash ≡ some d'
      → d'.status ≡ imported
      → lookup (source S d ++ rel) root ≡ some (file b)
      → (d'.imported_path ≡ some (import_path S d))
        × (lookup (destination S d ++ rel) root' ≡ some (file b))
  unfolding import_download
  import_download-Placed fuel root root' w' d' rel b apart low run now done there =
      copied (copy_recursive fuel (source S d) (destination S d) root) refl run
    where
      copied :
          (ran : Option (Result (Unit {0}) IoError × Node))
          → copy_recursive fuel (source S d) (destination S d) root ≡ ran
          → Option.map {B = World A × Node} (λ (r, root1). (conclude S A r d w, root1)) ran
            ≡ some (w', root')
          → (d'.imported_path ≡ some (import_path S d))
            × (lookup (destination S d ++ rel) root' ≡ some (file b))
      copied none e h = cc
      copied (some (r, root1)) e h =
          let both = some-injective (conclude S A r d w, root1) (w', root') h in
          let (fine, path) =
            concluded-imported r d'
              (ap (λ (p : World A × Node). C.view p.0.repository d.info_hash) both ∙ now) done in
          (
            path,
            copy_recursive_copies fuel (source S d) (destination S d) root root' rel b apart low
                (e
                  ∙ ap (λ x. some (x, root1)) fine
                  ∙ ap (λ (p : World A × Node). some (ok tt, p.1)) both)
                there,
          )
