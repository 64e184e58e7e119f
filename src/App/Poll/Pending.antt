-- ===== src/App/Poll/Pending.antt =====
-- `App::get_pending_downloads` of app/mod.rs: what the loop is given, from the repository's contract.
use magnarr.Prelude.{◌≡◌, refl, ◌≢◌, ◌⊎◌, inl, inr, sym, subst, arith, ok, err}
use magnarr.Prelude.{List, [], ◌∷◌, ◌++◌, map, some, Result, collect, map_ok, All, All-map, Any}
use magnarr.Prelude.{All-append, Result-cases, ◌>>=◌}
use magnarr.Types.Download.{Download, DownloadStatus, downloading, submitted}
use magnarr.App.Repository.{DownloadEntry, Entries, Scan, asc}
use magnarr.App.Repository.Contract.{Contract, View, Lists, Distinct}
use magnarr.App.World.{Deps}
use magnarr.App.Poll.{get_pending_downloads}
use magnarr.App.Poll.Step.{IsPending}

-- The records of a poll: stored as they stand, pending, and each once.
pub record Queue (v : View) (ds : List Download) : Type 0 where
  pub stored : All (λ (d : Download). v d.info_hash ≡ some d) ds
  pub pending : All (λ (d : Download). IsPending d.status) ds
  pub distinct : Distinct ds

-- The pending records are all there.
abbrev pub Covers : View → List Download → Type 0
Covers v ds = (d : Download) → v d.info_hash ≡ some d → IsPending d.status → Any (λ e. e ≡ d) ds

module _ {ℓ} {A B E : Type ℓ} (f : A → B) where
  pub collect-map :
      (ys : List (Result A E)) (zs : List B)
      → collect (map (map_ok f) ys) ≡ ok zs
      → (bs : List A) × (collect ys ≡ ok bs) × (zs ≡ map f bs)
  collect-map [] zs h = ([], refl, (cc))
  collect-map (err e ∷ ys) zs h = cc
  collect-map (ok y ∷ ys) zs h = elim (Result-cases (collect (map (map_ok f) ys))) [
    | inr (e, k) ↦ ground (arith, k)
    | inl (ts, k) ↦
        let (bs, collected, e) = collect-map ys ts k in (y ∷ bs, rw collected, ground (arith, k))
  ]

  -- `collect` over two chained iterators.
  pub collect-append :
      (xs ys : List (Result A E)) (zs : List B)
      → collect (map (map_ok f) (xs ++ ys)) ≡ ok zs
      → (us vs : List A) × (collect xs ≡ ok us) × (collect ys ≡ ok vs) × (zs ≡ map f us ++ map f vs)
  collect-append [] ys zs h = let (bs, k, e) = collect-map ys zs h in ([], bs, refl, k, e)
  collect-append (err e ∷ xs) ys zs h = cc
  collect-append (ok x ∷ xs) ys zs h = elim (Result-cases (collect (map (map_ok f) (xs ++ ys)))) [
    | inr (e, k) ↦ ground (arith, k)
    | inl (ts, k) ↦
        let (us, vs, cu, cv, e) = collect-append xs ys ts k in
        (x ∷ us, vs, rw cu, cv, ground (arith, k))
  ]

pub Distinct-append :
    (xs ys : List Download)
    → Distinct xs
    → Distinct ys
    → All (λ (x : Download). All (λ (y : Download). y.info_hash ≢ x.info_hash) ys) xs
    → Distinct (xs ++ ys)
Distinct-append [] ys dx dy apart = dy
Distinct-append (x ∷ xs) ys dx dy apart = (
  All-append (λ (e : Download). e.info_hash ≢ x.info_hash) xs ys dx.0 apart.0,
  Distinct-append xs ys dx.1 dy apart.1,
)

abbrev pub Holds : View → DownloadStatus → Download → Type 0
Holds v st d = (v d.info_hash ≡ some d) × (d.status ≡ st)

-- One info hash holds one record, and that has one status.
pub apart :
    (v : View) (a b : DownloadStatus) (xs ys : List Download)
    → a ≢ b
    → All (Holds v a) xs
    → All (Holds v b) ys
    → All (λ (x : Download). All (λ (y : Download). y.info_hash ≢ x.info_hash) ys) xs
apart v a b xs ys ne hx hy =
    All-map (Holds v a) _ xs
      (λ x (vx, sx). All-map (Holds v b) _ ys (λ y (vy, sy) same. ne (ground arith)) hy) hx

Lists-Queue :
    (v : View) (xs ys : List Download)
    → Lists v downloading xs
    → Lists v submitted ys
    → Queue v (xs ++ ys)
Lists-Queue v xs ys lx ly = record {
  stored =
      All-append _ xs ys (All-map (Holds v downloading) _ xs (λ x h. h.0) lx.stored)
        (All-map (Holds v submitted) _ ys (λ y h. h.0) ly.stored);
  pending =
      All-append _ xs ys (All-map (Holds v downloading) _ xs (λ x h. inl h.1) lx.stored)
        (All-map (Holds v submitted) _ ys (λ y h. inr h.1) ly.stored);
  distinct =
      Distinct-append xs ys lx.distinct ly.distinct
        (apart v downloading submitted xs ys (λ e. cc) lx.stored ly.stored);
}

-- Both scans have succeeded when the chain has.
both_scanned :
    (a b : Scan) (ds : List Download)
    → (a >>= λ xs.
        b >>= λ ys. collect (map (map_ok (λ (e : DownloadEntry). e.download)) (xs ++ ys)))
      ≡ ok ds
    → (xs ys : Entries) × (a ≡ ok xs)
      × (b ≡ ok ys)
      × (collect (map (map_ok (λ (e : DownloadEntry). e.download)) (xs ++ ys)) ≡ ok ds)
both_scanned (ok xs) (ok ys) ds h = (xs, ys, refl, refl, h)
both_scanned (ok xs) (err e) ds h = cc
both_scanned (err e) b ds h = cc

Any-append :
    (P : Download → Type 0) (xs ys : List Download) → Any P xs ⊎ Any P ys → Any P (xs ++ ys)
Any-append P [] ys (inl a) = absurd a
Any-append P [] ys (inr a) = a
Any-append P (x ∷ xs) ys (inl (inl p)) = inl p
Any-append P (x ∷ xs) ys (inl (inr a)) = inr (Any-append P xs ys (inl a))
Any-append P (x ∷ xs) ys (inr a) = inr (Any-append P xs ys (inr a))

Lists-Covers :
    (v : View) (xs ys : List Download)
    → Lists v downloading xs
    → Lists v submitted ys
    → Covers v (xs ++ ys)
Lists-Covers v xs ys lx ly d held (inl st) = Any-append _ xs ys (inl (lx.complete d held st))
Lists-Covers v xs ys lx ly d held (inr st) = Any-append _ xs ys (inr (ly.complete d held st))

module _ (A : Deps) (C : Contract A.R) where
  pub get_pending_downloads-Queue :
      (s : A.R.State) (ds : List Download)
      → get_pending_downloads A s ≡ ok ds
      → Queue (C.view s) ds × Covers (C.view s) ds
  unfolding get_pending_downloads
  get_pending_downloads-Queue s ds h =
      let (xs, ys, scanned, scanned', joined) = both_scanned _ _ ds h in
      let (us, vs, collected, collected', e) =
        collect-append (λ (e : DownloadEntry). e.download) xs ys ds joined in
      let lx = C.scan_by_status_lists downloading asc s xs us scanned collected in
      let ly = C.scan_by_status_lists submitted asc s ys vs scanned' collected' in
      subst (λ q. Queue (C.view s) q × Covers (C.view s) q) (sym e)
        (Lists-Queue (C.view s) _ _ lx ly, Lists-Covers (C.view s) _ _ lx ly)
