-- ===== src/Store/Listing.antt =====
-- `App::downloads` (app/mod.rs) over `DownloadStore` (store/download.rs): what a listing holds.
use magnarr.Prelude.{
  ℕ, ok-injective, sym, subst, ◌≡◌, refl, ap, inl, inr, List, [], ◌∷◌, map, Option, none, some, ok,
}
use magnarr.Prelude.{map_err, collect, >>=-eq-ok, All, All-map, Any, arith, ◌∙◌}
use magnarr.Prelude.Int.{ℤ, ◌≤ℤ◌}
use magnarr.Types.Download.{DateTime, Download, DownloadStatus}
use magnarr.App.Repository.{DownloadEntry, Entries, SortOrder}
use magnarr.App.Repository.Contract.{View, Distinct}
use magnarr.App.Errors.{repository}
use magnarr.App.Torrent.{TorrentClient}
use magnarr.App.World.{Deps, World}
use magnarr.App.Service.{ServiceEntries, download_iter}
use magnarr.App.Listing.{scan, downloads}
use magnarr.Store.{Collection, Direction, left_to_right, right_to_left, status_key, download_store}
use magnarr.Store.{
  index_key, direction_of, scan_all, scan_by_status, scan_since, scan_by_status_since,
}
use magnarr.Store.{to_collette_cursor, run_scan}
use magnarr.Store.Promises.{IsCollection, Scanned, Ordered, HasPrefix, InRange, KeyLe}
use magnarr.Store.Laws.{
  request_of, index_of, run_scan-Scanned, status_key-injective, map_ok-ok, map_err-ok,
}
use mathlib.Core.Option

abbrev pub HasStatus : Option DownloadStatus → Download → Type 0
HasStatus none d = Unit
HasStatus (some status) d = d.status ≡ status

-- Creation times are compared in microseconds.
abbrev pub Since : (DateTime → ℤ) → Option DateTime → Download → Type 0
Since micros none d = Unit
Since micros (some from) d = micros from ≤ℤ micros d.created_at

-- The records of a listing: those of the status that were created at the start or later, each once,
-- in the order of their creation.
pub record Listed (micros : DateTime → ℤ) (v : View) (status : Option DownloadStatus)
    (from : Option DateTime) (order : SortOrder) (ds : List Download) : Type 0 where
  pub stored :
      All (λ (d : Download). (v d.info_hash ≡ some d) × HasStatus status d × Since micros from d) ds
  pub distinct : Distinct ds
  pub complete :
      (d : Download)
      → v d.info_hash ≡ some d
      → HasStatus status d
      → Since micros from d
      → Any (λ e. e ≡ d) ds
  pub chronological :
      Ordered
        (λ (d e : Download). micros d.created_at ≤ℤ micros e.created_at)
        (direction_of order)
        ds

module _ {A : Type 0} (P : A → Type 0) (le le' : A → A → Type 0)
    (weaken : (a b : A) → P a → P b → le a b → le' a b) where
  All-weaken :
      (R S : A → Type 0) (as' : List A)
      → ((b : A) → P b → R b → S b)
      → All P as'
      → All R as'
      → All S as'
  All-weaken R S [] f p h = tt
  All-weaken R S (a ∷ rest) f p h = (f a p.0 h.0, All-weaken R S rest f p.1 h.1)

  Ordered-weaken :
      (dir : Direction) (as' : List A) → All P as' → Ordered le dir as' → Ordered le' dir as'
  Ordered-weaken dir [] p h = tt
  Ordered-weaken left_to_right (a ∷ rest) p h = (
    All-weaken (le a) (le' a) rest (λ b. weaken a b p.0) p.1 h.0,
    Ordered-weaken left_to_right rest p.1 h.1,
  )
  Ordered-weaken right_to_left (a ∷ rest) p h = (
    All-weaken (λ b. le b a) (λ b. le' b a) rest (λ b q. weaken b a q p.0) p.1 h.0,
    Ordered-weaken right_to_left rest p.1 h.1,
  )

-- The iterator of the service yields the entries of the repository's.
collect-download_iter :
    (entries : Entries) (es : List DownloadEntry)
    → collect (download_iter entries) ≡ ok es
    → collect entries ≡ ok es
unfolding download_iter
collect-download_iter [] es h = ap ok (ok-injective h)
collect-download_iter (r ∷ rs) es h =
    let (e, first, h1) = >>=-eq-ok (map_err repository r) _ h in
    let (rest, more, h2) = >>=-eq-ok (collect (map (map_err repository) rs)) _ h1 in
    rw (map_err-ok repository r first, collect-download_iter rs rest more) (ap ok (ok-injective h2))

module _ (K : Collection) (micros : DateTime → ℤ) where
  -- The request of a listing lets through what the listing asks for.
  InRange-eq :
      (from : Option DateTime) (d : Download)
      → InRange micros (Option.map micros from) d ≡ Since micros from d
  InRange-eq none d = refl
  InRange-eq (some t) d = refl

  HasPrefix-HasStatus :
      (status : Option DownloadStatus) (d : Download) → HasPrefix status d → HasStatus status d
  HasPrefix-HasStatus none d h = tt
  HasPrefix-HasStatus (some st) d h = status_key-injective d.status st h

  HasStatus-HasPrefix :
      (status : Option DownloadStatus) (d : Download) → HasStatus status d → HasPrefix status d
  HasStatus-HasPrefix none d h = tt
  HasStatus-HasPrefix (some st) d h = ap status_key h

  -- Within a listing, the order of the index is the order of creation.
  KeyLe-created_at :
      (status : Option DownloadStatus) (d e : Download)
      → HasStatus status d
      → HasStatus status e
      → KeyLe (index_key K micros (index_of status) d) (index_key K micros (index_of status) e)
      → micros d.created_at ≤ℤ micros e.created_at
  unfolding index_key
  KeyLe-created_at none d e a b (inl l) = absurd (omega arith)
  KeyLe-created_at none d e a b (inr l) = l.1
  KeyLe-created_at (some st) d e a b (inl l) =
      absurd (omega (arith, ap status_key a, ap status_key b))
  KeyLe-created_at (some st) d e a b (inr l) = l.1

  Scanned-Listed :
      (v : View) (status : Option DownloadStatus) (from : Option DateTime) (order : SortOrder)
      (ds : List Download)
      → Scanned K micros v (request_of micros status from none order) ds
      → Listed micros v status from order ds
  Scanned-Listed v status from order ds scanned = record {
    stored = stored;
    distinct = scanned.distinct;
    complete = λ d held st since.
        scanned.complete d held
          (HasStatus-HasPrefix status d st, subst (λ T. T) (sym (InRange-eq from d)) since);
    chronological =
        Ordered-weaken (HasStatus status) _ _ (KeyLe-created_at status) (direction_of order) ds
          (All-map (λ d. (v d.info_hash ≡ some d) × HasStatus status d × Since micros from d)
            (HasStatus status) ds (λ d h. h.1) stored)
          scanned.ordered;
  }
    where
      stored :
          All
            (λ (d : Download). (v d.info_hash ≡ some d) × HasStatus status d × Since micros from d)
            ds
      stored =
          All-map _ _ ds
            (λ d h.
              (h.0, HasPrefix-HasStatus status d h.1.0, subst (λ T. T) (InRange-eq from d) h.1.1))
            scanned.stored

  -- `App` over the store.
  abbrev pub app : TorrentClient → (ℕ → DateTime) → Deps
  app T reading = record { R = download_store K micros; T = T; reading = reading }

  module _ (C : IsCollection K micros) (T : TorrentClient) (reading : ℕ → DateTime) where
    scan-request :
        (status : Option DownloadStatus) (from : Option DateTime) (order : SortOrder) (s : K.State)
        → scan (app T reading) status from none order s
          ≡ run_scan K micros (request_of micros status from none order) s
    unfolding scan scan_all scan_by_status scan_since scan_by_status_since
    scan-request none none order s = refl
    scan-request none (some from) order s = refl
    scan-request (some st) none order s = refl
    scan-request (some st) (some from) order s = refl

    -- A listing that starts without a cursor and yields no error holds exactly the stored records that
    -- have the status, if one is asked for, and were created at the start or later, if one is given:
    -- each once, in the order of creation that is asked for. That is for any collection that scans its
    -- indexes in the order of their keys.
    pub downloads-Listed :
        (status : Option DownloadStatus) (from : Option DateTime) (order : SortOrder)
        (w : World (app T reading)) (entries : ServiceEntries) (es : List DownloadEntry)
        → downloads (app T reading) status from none order w ≡ ok entries
        → collect entries ≡ ok es
        → Listed micros
            (C.view w.repository)
            status
            from
            order
            (map (λ (e : DownloadEntry). e.download) es)
    unfolding downloads to_collette_cursor
    downloads-Listed status from order w entries es ran collected =
        let (items, scanned, same) =
          map_ok-ok download_iter
            (map_err repository (scan (app T reading) status from none order w.repository)) ran in
        let listed =
          sym (scan-request status from order w.repository) ∙ map_err-ok repository _ scanned in
        Scanned-Listed (C.view w.repository) status from order _ (
          run_scan-Scanned K micros C (request_of micros status from none order) w.repository items
            es refl listed
            (collect-download_iter items es (subst (λ l. collect l ≡ ok es) (sym same) collected)))
