-- ===== src/App/Repository/Contract.antt =====
-- The contract of app/repository.rs's trait: the records as a map from info hash, and what each
-- method does to it when it returns `Ok` and when it returns an error.
use magnarr.Prelude.{String, ◌≡◌, ◌≢◌, List, [], ◌∷◌, map, Option, none, some, Result, ok, err}
use magnarr.Prelude.{All, Any, collect, str_eq, if◌then◌else◌}
use magnarr.Types.Download.{Download, DownloadStatus}
use magnarr.App.Repository.{DownloadRepository, DownloadEntry, RepositoryError, SortOrder}
use magnarr.App.Repository.{not_found}

abbrev pub View : Type 0
View = String → Option Download

-- The map `v` with the record `o` at `h`.
abbrev pub put : String → Option Download → View → View
put h o v j = if str_eq j h then o else v j

abbrev pub Same : View → View → Type 0
Same v w = (j : String) → w j ≡ v j

-- `get` answers what the map holds, or fails for a reason that says nothing of the map.
abbrev pub Finds : Option Download → Result Download RepositoryError → Type 0
Finds o (ok d) = o ≡ some d
Finds o (err not_found) = o ≡ none
Finds o (err _) = Unit

-- A write either takes effect and returns `Ok`, or returns an error and changes nothing.
abbrev pub Writes : {E : Type 0} → View → View → View → Result (Unit {0}) E → Type 0
Writes v written w (ok _) = Same written w
Writes v written w (err _) = Same v w

-- No info hash twice.
abbrev pub Distinct : List Download → Type 0
Distinct [] = Unit
Distinct (d ∷ ds) = All (λ (e : Download). e.info_hash ≢ d.info_hash) ds × Distinct ds

-- The records of a scan by status: all of that status in the map, each once.
pub record Lists (v : View) (status : DownloadStatus) (ds : List Download) : Type 0 where
  pub stored : All (λ (d : Download). (v d.info_hash ≡ some d) × (d.status ≡ status)) ds
  pub distinct : Distinct ds
  pub complete : (d : Download) → v d.info_hash ≡ some d → d.status ≡ status → Any (λ e. e ≡ d) ds

pub record Contract (R : DownloadRepository) : Type 0 where
  pub view : R.State → View
  pub keyed : (s : R.State) (h : String) (d : Download) → view s h ≡ some d → d.info_hash ≡ h
  pub get_finds : (h : String) (s : R.State) → Finds (view s h) (R.get h s)
  pub insert_writes :
      (d : Download) (s : R.State)
      → Writes (view s) (put d.info_hash (some d) (view s)) (view (R.insert d s).1) (R.insert d s).0
  pub insert_fresh :
      (d : Download) (s : R.State) → (R.insert d s).0 ≡ ok tt → view s d.info_hash ≡ none
  pub update_writes :
      (d : Download) (s : R.State)
      → Writes (view s) (put d.info_hash (some d) (view s)) (view (R.update d s).1) (R.update d s).0
  pub remove_writes :
      (h : String) (s : R.State)
      → Writes (view s) (put h none (view s)) (view (R.remove h s).1) (R.remove h s).0
  pub scan_by_status_lists :
      (status : DownloadStatus) (order : SortOrder) (s : R.State)
      (entries : List (Result DownloadEntry RepositoryError)) (es : List DownloadEntry)
      → R.scan_by_status status none order s ≡ ok entries
      → collect entries ≡ ok es
      → Lists (view s) status (map (λ (e : DownloadEntry). e.download) es)

-- The repository refused to remove, or to update, the record of `h`.
abbrev pub RemoveFails : DownloadRepository → String → Type 0
RemoveFails R h = (s : R.State) × ((R.remove h s).0 ≢ ok tt)

abbrev pub UpdateFails : DownloadRepository → String → Type 0
UpdateFails R h = (d : Download) × (s : R.State) × (d.info_hash ≡ h) × ((R.update d s).0 ≢ ok tt)
