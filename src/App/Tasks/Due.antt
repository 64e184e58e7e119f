-- ===== src/App/Tasks/Due.antt =====
-- The records that the background task of app/mod.rs still has to work through.
use magnarr.Prelude.{
  String, ◌≡◌, ◌≢◌, ◌∙◌, List, [], ◌∷◌, ◌++◌, map, none, some, All, All-map, All-append,
}
use magnarr.Prelude.{ok, collect, inl, inr, sym, subst, map_ok, ◌>>=◌, >>=-eq-ok}
use magnarr.Types.Download.{Download, DownloadStatus, downloading, queued, submitted, importing}
use magnarr.App.Repository.{DownloadEntry, Entries, asc}
use magnarr.App.Repository.Contract.{Contract, View, Distinct}
use magnarr.App.World.{Deps}
use magnarr.App.Poll.Step.{IsPending, Reports}
use magnarr.App.Poll.Pending.{Distinct-append, Holds, apart, collect-append}
use magnarr.App.Import.{Site, get_importing}
use magnarr.App.Import.Step.{Finished}
use magnarr.App.Import.Laws.{get_importing-Queue}
use magnarr.App.Tasks.{Loop, scanning, chaining, polling, settling, listing, taking, copying}
use magnarr.App.Tasks.{concluding, resting, stopped}

-- Each is stored as the task knows it, has a status of `P`, and is there once.
abbrev pub Due : (DownloadStatus → Type 0) → View → List Download → Type 0
Due P v ds = All (λ (d : Download). (v d.info_hash ≡ some d) × P d.status) ds × Distinct ds

abbrev pub IsDownloading : DownloadStatus → Type 0
IsDownloading st = st ≡ downloading

abbrev pub IsImporting : DownloadStatus → Type 0
IsImporting st = st ≡ importing

pub IsPending-past : (d : Download) → IsPending d.status → d.status ≢ queued
IsPending-past d (inl e) st = cc
IsPending-past d (inr e) st = cc

-- What the task knows of the records, where it stands.
abbrev pub Knows : Site → Deps → View → Loop → Type 0
Knows S A v scanning = Unit
Knows S A v (chaining downloading_iter) =
    (es : List DownloadEntry)
    → collect downloading_iter ≡ ok es
    → Due IsDownloading v (map (λ (e : DownloadEntry). e.download) es)
Knows S A v (polling ds) = Due IsPending v ds
Knows S A v (settling d r ds) = Due IsPending v (d ∷ ds) × Reports A.T d.info_hash r
Knows S A v listing = Unit
Knows S A v (taking ds) = Due IsImporting v ds
Knows S A v (copying d ds) = Due IsImporting v (d ∷ ds)
Knows S A v (concluding d' ds) = (d : Download) × Due IsImporting v (d ∷ ds) × Finished S d d'
Knows S A v resting = Unit
Knows S A v stopped = Unit

module _ (P : DownloadStatus → Type 0) (v w : View) where
  -- Where no record of such a status changes.
  pub Due-kept :
      (ds : List Download)
      → ((d : Download) → v d.info_hash ≡ some d → P d.status → w d.info_hash ≡ some d)
      → Due P v ds
      → Due P w ds
  Due-kept ds same (held, once) = (
    All-map (λ (d : Download). (v d.info_hash ≡ some d) × P d.status) _ ds
        (λ d (h, p). (same d h p, p)) held,
    once,
  )

  -- Where none but the first record changes.
  pub Due-tail :
      (d : Download) (ds : List Download)
      → ((h : String) → h ≢ d.info_hash → w h ≡ v h)
      → Due P v (d ∷ ds)
      → Due P w ds
  Due-tail d [] same due = (tt, tt)
  Due-tail d (e ∷ es) same (held, once) =
      let (rest, once') = Due-tail d es same ((held.0, held.1.1), (once.0.1, once.1.1)) in
      (((same e.info_hash once.0.0 ∙ held.1.0.0, held.1.0.1), rest), once.1)

Due-append :
    (v : View) (xs ys : List Download)
    → Due IsDownloading v xs
    → Due (λ st. st ≡ submitted) v ys
    → Due IsPending v (xs ++ ys)
Due-append v xs ys (hx, ox) (hy, oy) = (
  All-append _ xs ys (All-map (Holds v downloading) _ xs (λ x (h, st). (h, inl st)) hx)
      (All-map (Holds v submitted) _ ys (λ y (h, st). (h, inr st)) hy),
  Distinct-append xs ys ox oy (apart v downloading submitted xs ys (λ e. cc) hx hy),
)

module _ (S : Site) (A : Deps) (C : Contract A.R) (s : A.R.State) where
  pub scanned-Due :
      (st : DownloadStatus) (iter : Entries) (es : List DownloadEntry)
      → A.R.scan_by_status st none asc s ≡ ok iter
      → collect iter ≡ ok es
      → Due (λ x. x ≡ st) (C.view s) (map (λ (e : DownloadEntry). e.download) es)
  scanned-Due st iter es ran collected =
      let lists = C.scan_by_status_lists st asc s iter es ran collected in
      (lists.stored, lists.distinct)

  -- The queue of a poll, from a first scan that still holds and a second one.
  pub chained-Due :
      (iter : Entries) (ds : List Download)
      → Knows S A (C.view s) (chaining iter)
      → (A.R.scan_by_status submitted none asc s >>= λ iter'.
          collect (map (map_ok (λ (e : DownloadEntry). e.download)) (iter ++ iter')))
        ≡ ok ds
      → Due IsPending (C.view s) ds
  chained-Due iter ds known h =
      let (iter', ran, h') = >>=-eq-ok (A.R.scan_by_status submitted none asc s) _ h in
      let (us, vs, collected, collected', e) =
        collect-append (λ (e : DownloadEntry). e.download) iter iter' ds h' in
      subst (Due IsPending (C.view s)) (sym e) (
        Due-append (C.view s) _ _ (known us collected)
          (scanned-Due submitted iter' vs ran collected'))

  pub listed-Due :
      (ds : List Download) → get_importing S A s ≡ ok ds → Due IsImporting (C.view s) ds
  listed-Due ds h = let (q, waits) = get_importing-Queue S A C s ds h in (waits, q.distinct)
