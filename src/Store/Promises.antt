-- ===== src/Store/Promises.antt =====
-- What store/download.rs relies on in `collette`: a collection is a map by key, a scan reads an index
-- in the order of its keys and within its bounds, and a cursor marks where a scan goes on.
use magnarr.Prelude.{String, ◌≡◌, ◌⊎◌, ◌<◌, ℕ, List, [], ◌∷◌, ◌++◌, map, Option, none, some, Result}
use magnarr.Prelude.{ok, err, All, Any, collect}
use magnarr.Prelude.Int.{ℤ, ◌≤ℤ◌}
use magnarr.Types.Download.{DateTime, Download, DownloadStatus}
use magnarr.App.Repository.Contract.{View, put, Writes, Distinct}
use magnarr.Store.{CollectionError, not_found, no_key, key, Direction, left_to_right}
use magnarr.Store.{right_to_left, ScanRequest, IndexEntry, Collection, status_key, index_key}

-- `get` answers what the map holds, or fails for a reason that says nothing of the map.
abbrev pub Gets : Option Download → Result (Option Download) CollectionError → Type 0
Gets o (ok p) = p ≡ o
Gets o (err (not_found m)) = o ≡ none
Gets o (err _) = Unit

-- The records that the prefix and the range of a request let through.
abbrev pub HasPrefix : Option DownloadStatus → Download → Type 0
HasPrefix none d = Unit
HasPrefix (some st) d = status_key d.status ≡ status_key st

abbrev pub InRange : (DateTime → ℤ) → Option ℤ → Download → Type 0
InRange micros none d = Unit
InRange micros (some t) d = t ≤ℤ micros d.created_at

-- The order of index keys, the first component first.
abbrev pub KeyLe : ℕ × ℤ → ℕ × ℤ → Type 0
KeyLe a b = (a.0 < b.0) ⊎ ((a.0 ≡ b.0) × (a.1 ≤ℤ b.1))

abbrev pub Ordered : {A : Type 0} → (A → A → Type 0) → Direction → List A → Type 0
Ordered le dir [] = Unit
Ordered le left_to_right (a ∷ rest) = All (le a) rest × Ordered le left_to_right rest
Ordered le right_to_left (a ∷ rest) = All (λ b. le b a) rest × Ordered le right_to_left rest

module _ (K : Collection) (micros : DateTime → ℤ) where
  abbrev pub Selected : ScanRequest → Download → Type 0
  Selected request d = HasPrefix request.prefix d × InRange micros request.range_from d

  -- The records of a whole scan.
  pub record Scanned (v : View) (request : ScanRequest) (ds : List Download) : Type 0 where
    pub stored : All (λ (d : Download). (v d.info_hash ≡ some d) × Selected request d) ds
    pub distinct : Distinct ds
    pub complete :
        (d : Download) → v d.info_hash ≡ some d → Selected request d → Any (λ e. e ≡ d) ds
    pub ordered :
        Ordered
          (λ d e. KeyLe (index_key K micros request.index d) (index_key K micros request.index e))
          request.direction
          ds

  pub record IsCollection : Type 0 where
    pub view : K.State → View
    pub keyed : (s : K.State) (h : String) (d : Download) → view s h ≡ some d → d.info_hash ≡ h
    pub gets : (h : String) (s : K.State) → Gets (view s h) (K.get h s)
    pub insert_writes :
        (d : Download) (s : K.State)
        → Writes
            (view s)
            (put d.info_hash (some d) (view s))
            (view (K.insert d s).1)
            (K.insert d s).0
    pub insert_fresh :
        (d : Download) (s : K.State) → (K.insert d s).0 ≡ ok tt → view s d.info_hash ≡ none
    pub update_writes :
        (d : Download) (s : K.State)
        → Writes
            (view s)
            (put d.info_hash (some d) (view s))
            (view (K.update d s).1)
            (K.update d s).0
    pub remove_writes :
        (h : String) (s : K.State)
        → Writes (view s) (put h none (view s)) (view (K.remove h s).1) (K.remove h s).0
    pub scans :
        (request : ScanRequest) (s : K.State) (items : List (Result IndexEntry CollectionError))
        (es : List IndexEntry)
        → request.after ≡ no_key
        → K.iter request s ≡ ok items
        → collect items ≡ ok es
        → Scanned (view s) request (map (λ (e : IndexEntry). e.item) es)
    -- A scan after the key of one of its entries gives what stood behind that entry.
    pub resumes :
        (request : ScanRequest) (s : K.State)
        (before behind : List (Result IndexEntry CollectionError)) (d : Download) (k : List ℕ)
        → request.after ≡ no_key
        → K.iter request s ≡ ok (before ++ ok (record { key = key k; item = d }) ∷ behind)
        → K.iter (record request { after = key k }) s ≡ ok behind
