-- ===== src/Store/Laws.antt =====
-- `DownloadStore` (store/download.rs) as the repository of the orchestrator.
use magnarr.Prelude.{◌≡◌, refl, ◌∙◌, sym, ap, subst, List, [], ◌∷◌, map, Option, none, some}
use magnarr.Prelude.{Result, ok, err, map_ok, map_err, collect, ◌>>=◌, >>=-eq-ok, ok-injective}
use magnarr.Prelude.{All-map, arith}
use magnarr.Prelude.Int.{ℤ}
use magnarr.Types.Download.{DateTime, Download, DownloadStatus}
use magnarr.App.Repository.{DownloadCursor, DownloadEntry, Entries, SortOrder}
use magnarr.App.Repository.Contract.{Contract, View, Finds, Writes, Lists}
use magnarr.Store.{CollectionError, no_key, key, ScanRequest, IndexEntry, Collection, status_key}
use magnarr.Store.{
  scan_item, scan_entry, run_scan, from_collection_error, download_store, direction_of,
}
use magnarr.Store.{insert, get, update, remove, scan_by_status, to_collette_cursor, found}
use magnarr.Store.{status_and_created_at, created_at, Index, Cursor}
use mathlib.Core.Option
use magnarr.Store.Promises.{IsCollection, Gets, Scanned}

pub status_key-injective : (a b : DownloadStatus) → status_key a ≡ status_key b → a ≡ b
unfolding status_key
status_key-injective a b h = ground arith

module _ {ℓ} {A B E : Type ℓ} where
  pub map_ok-ok :
      (f : A → B) (r : Result A E) {b : B} → map_ok f r ≡ ok b → (a : A) × (r ≡ ok a) × (f a ≡ b)
  map_ok-ok f (ok a) h = (a, refl, ok-injective h)
  map_ok-ok f (err e) h = cc

  pub map_err-ok : (f : E → B) (r : Result A E) {a : A} → map_err f r ≡ ok a → r ≡ ok a
  map_err-ok f (ok a) h = cc
  map_err-ok f (err e) h = cc

-- The scan that the store asks for a status, a start and a position.
abbrev pub index_of : Option DownloadStatus → Index
index_of none = created_at
index_of (some _) = status_and_created_at

abbrev pub request_of :
    (DateTime → ℤ)
    → Option DownloadStatus
    → Option DateTime
    → Option DownloadCursor
    → SortOrder
    → ScanRequest
request_of micros status from after order = record {
  index = index_of status;
  prefix = status;
  range_from = Option.map micros from;
  direction = direction_of order;
  after = to_collette_cursor after;
}

-- A scan item that became an entry was an index entry of the same record.
scan_item-ok :
    (r : Result IndexEntry CollectionError) (e : DownloadEntry)
    → scan_item r ≡ ok e
    → (i : IndexEntry) × (r ≡ ok i) × (i.item ≡ e.download)
unfolding scan_item scan_entry
scan_item-ok (err e') e h = cc
scan_item-ok (ok i) e h = (i, refl, item_of i.key i.item h)
  where
    item_of :
        (c : Cursor) (d : Download)
        → scan_entry (record { key = c; item = d }) ≡ ok e
        → d ≡ e.download
    item_of no_key d h = cc
    item_of (key k) d h = ap (λ (x : DownloadEntry). x.download) (ok-injective h)

collect-scan_item :
    (items : List (Result IndexEntry CollectionError)) (es : List DownloadEntry)
    → collect (map scan_item items) ≡ ok es
    → (is : List IndexEntry) × (collect items ≡ ok is)
      × (map (λ (i : IndexEntry). i.item) is ≡ map (λ (e : DownloadEntry). e.download) es)
collect-scan_item [] es h =
    ([], refl, ap (map (λ (e : DownloadEntry). e.download)) (ok-injective h))
collect-scan_item (r ∷ rs) es h =
    let (e, first, h1) = >>=-eq-ok (scan_item r) _ h in
    let (rest, more, h2) = >>=-eq-ok (collect (map scan_item rs)) _ h1 in
    let (i, isok, same) = scan_item-ok r e first in
    let (is, collected, sames) = collect-scan_item rs rest more in
    (
      i ∷ is,
      ap (λ x. collect (x ∷ rs)) isok ∙ ap (λ l. l >>= λ rest'. ok (i ∷ rest')) collected,
      ap (λ x. x ∷ map (λ (i : IndexEntry). i.item) is) same
          ∙ ap (◌∷◌ e.download) sames
          ∙ ap (map (λ (e : DownloadEntry). e.download)) (ok-injective h2),
    )

module _ (K : Collection) (micros : DateTime → ℤ) (C : IsCollection K micros) where
  Writes-converted :
      (v written w : View) (r : Result (Unit {0}) CollectionError)
      → Writes v written w r
      → Writes v written w (map_err from_collection_error r)
  Writes-converted v written w (ok _) h = h
  Writes-converted v written w (err e) h = h

  Gets-Finds :
      (o : Option Download) (r : Result (Option Download) CollectionError)
      → Gets o r
      → Finds o (map_err from_collection_error r >>= found K micros)
  unfolding from_collection_error
  Gets-Finds o (ok none) h = sym h
  Gets-Finds o (ok (some d)) h = sym h
  Gets-Finds o (err (CollectionError.not_found m)) h = h
  Gets-Finds o (err e) h = tt

  insert-fresh :
      (d : Download) (s : K.State) → (insert K micros d s).0 ≡ ok tt → C.view s d.info_hash ≡ none
  unfolding insert
  insert-fresh d s h = C.insert_fresh d s (map_err-ok from_collection_error (K.insert d s).0 h)

  -- The records behind a scan that yields no error.
  pub run_scan-Scanned :
      (request : ScanRequest) (s : K.State) (entries : Entries) (es : List DownloadEntry)
      → request.after ≡ no_key
      → run_scan K micros request s ≡ ok entries
      → collect entries ≡ ok es
      → Scanned K micros (C.view s) request (map (λ (e : DownloadEntry). e.download) es)
  unfolding run_scan
  run_scan-Scanned request s entries es start ran collected =
      let (items, listed, same) =
        map_ok-ok (map scan_item) (map_err from_collection_error (K.iter request s)) ran in
      let (is, found, sames) =
        collect-scan_item items es (subst (λ l. collect l ≡ ok es) (sym same) collected) in
      subst (Scanned K micros (C.view s) request) sames
        (C.scans request s items is start (map_err-ok from_collection_error _ listed) found)

  Scanned-Lists :
      (v : View) (status : DownloadStatus) (order : SortOrder) (ds : List Download)
      → Scanned K micros v (request_of micros (some status) none none order) ds
      → Lists v status ds
  Scanned-Lists v status order ds scan = record {
    stored = All-map _ _ ds (λ d h. (h.0, status_key-injective d.status status h.1.0)) scan.stored;
    distinct = scan.distinct;
    complete = λ d held same. scan.complete d held (ap status_key same, tt);
  }

  -- The store keeps the contract of a repository, over the same map from info hash to record as its
  -- collection, for any collection that keeps its promises.
  pub download_store-Contract : (c : Contract (download_store K micros)) × (c.view ≡ C.view)
  unfolding insert get update remove scan_by_status to_collette_cursor
  download_store-Contract = (store_contract, refl)
    where
      store_contract : Contract (download_store K micros)
      store_contract = record {
        view = C.view;
        keyed = C.keyed;
        get_finds = λ h s. Gets-Finds (C.view s h) (K.get h s) (C.gets h s);
        insert_writes = λ d s. Writes-converted _ _ _ _ (C.insert_writes d s);
        insert_fresh = insert-fresh;
        update_writes = λ d s. Writes-converted _ _ _ _ (C.update_writes d s);
        remove_writes = λ h s. Writes-converted _ _ _ _ (C.remove_writes h s);
        scan_by_status_lists = λ status order s entries es ran collected.
            Scanned-Lists (C.view s) status order _
              (run_scan-Scanned _ s entries es refl ran collected);
      }
