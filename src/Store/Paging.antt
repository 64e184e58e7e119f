-- ===== src/Store/Paging.antt =====
-- The query `downloads` (graphql/schema.rs), page after page, over `App` (app/mod.rs) and
-- `DownloadStore` (store/download.rs).
use magnarr.Prelude.{
  ℕ, suc, ◌≤◌, ◌<◌, ◌≡◌, refl, ap, sym, ◌∙◌, List, [], ◌∷◌, ◌++◌, map, length, Option, none, some,
  Result, ok, err,
}
use magnarr.Prelude.{map_ok, map_err, collect, ok-injective}
use magnarr.Prelude.Int.{ℤ, pos}
use magnarr.Types.Download.{DateTime, Download, DownloadStatus}
use magnarr.App.Repository.{DownloadCursor, DownloadEntry, SortOrder}
use magnarr.App.Errors.{AppError, repository}
use magnarr.App.Torrent.{TorrentClient}
use magnarr.App.World.{World}
use magnarr.App.Service.{download_iter}
use magnarr.App.Listing.{downloads, scan, app_service}
use magnarr.Graphql.Types.{into_domain, into_app}
use magnarr.Graphql.Schema.{Base64, DownloadsArgs, to_edge, or_default}
use magnarr.Graphql.Schema.Laws.{listing}
use magnarr.Graphql.Schema.Pages.{IsCodec, walk, walk-listing}
use magnarr.Store.{
  Collection, CollectionError, IndexEntry, Cursor, no_key, key, scan_item, scan_entry,
  from_collection_error,
}
use magnarr.Store.{
  run_scan, scan_all, scan_by_status, scan_since, scan_by_status_since, to_collette_cursor,
}
use magnarr.Store.Promises.{IsCollection}
use magnarr.Store.Laws.{request_of, map_ok-ok, map_err-ok}
use magnarr.Store.Listing.{app, Listed, downloads-Listed}
use mathlib.Core.Option

abbrev index_entry : DownloadEntry → Result IndexEntry CollectionError
index_entry x = ok (record { key = key x.cursor.raw; item = x.download })

-- An item of the service's iterator that is an entry comes from an index entry with that key.
item_of :
    (r : Result IndexEntry CollectionError) (e : DownloadEntry)
    → map_err repository (scan_item r) ≡ ok e
    → r ≡ ok (record { key = key e.cursor.raw; item = e.download })
unfolding scan_item scan_entry
item_of (err e') e h = cc
item_of (ok i) e h = entry_of i.key i.item h
  where
    entry_of :
        (c : Cursor) (d : Download)
        → map_err repository (scan_item (ok (record { key = c; item = d }))) ≡ ok e
        → ◌≡◌ {A = Result IndexEntry CollectionError}
            (ok (record { key = c; item = d }))
            (ok (record { key = key e.cursor.raw; item = e.download }))
    entry_of no_key d h = cc
    entry_of (key k) d h = ap index_entry (ok-injective h)

-- Behind the entry `e` of the service's iterator stands what is behind its index entry.
split_items :
    (items : List (Result IndexEntry CollectionError)) (before : List DownloadEntry)
    (e : DownloadEntry) (behind : List DownloadEntry)
    → download_iter (map scan_item items) ≡ map ok (before ++ e ∷ behind)
    → (before' : List (Result IndexEntry CollectionError)) × (behind' : List
        (Result IndexEntry CollectionError))
      × (items ≡ before' ++ ok (record { key = key e.cursor.raw; item = e.download }) ∷ behind')
      × (download_iter (map scan_item behind') ≡ map ok behind)
unfolding download_iter
split_items [] [] e behind h = cc
split_items [] (b ∷ before) e behind h = cc
split_items (r ∷ items) [] e behind h = ([], items, ap (λ x. x ∷ items) (item_of r e (cc)), (cc))
split_items (r ∷ items) (b ∷ before) e behind h =
    let (before', behind', split, rest) = split_items items before e behind (cc) in
    (r ∷ before', behind', ap (◌∷◌ r) split, rest)

collect-ok :
    (es : List DownloadEntry)
    → ◌≡◌ {A = Result (List DownloadEntry) AppError} (collect (map ok es)) (ok es)
collect-ok [] = refl
collect-ok (e ∷ es) = rw (collect-ok es)

module _ (K : Collection) (micros : DateTime → ℤ) (C : IsCollection K micros) (T : TorrentClient)
    (reading : ℕ → DateTime) where
  scan-after :
      (status : Option DownloadStatus) (from : Option DateTime) (after : Option DownloadCursor)
      (order : SortOrder) (s : K.State)
      → scan (app K micros T reading) status from after order s
        ≡ run_scan K micros (request_of micros status from after order) s
  unfolding scan scan_all scan_by_status scan_since scan_by_status_since
  scan-after none none after order s = refl
  scan-after none (some from) after order s = refl
  scan-after (some st) none after order s = refl
  scan-after (some st) (some from) after order s = refl

  -- The listing goes on behind an entry whose cursor it is given.
  downloads-resume :
      (status : Option DownloadStatus) (from : Option DateTime) (order : SortOrder)
      (w : World (app K micros T reading)) (before : List DownloadEntry) (e : DownloadEntry)
      (behind : List DownloadEntry)
      → downloads (app K micros T reading) status from none order w
        ≡ ok (map ok (before ++ e ∷ behind))
      → downloads (app K micros T reading) status from (some e.cursor) order w ≡ ok (map ok behind)
  unfolding downloads run_scan to_collette_cursor
  downloads-resume status from order w before e behind h =
      let (entries, scanned, same) =
        map_ok-ok download_iter
          (map_err repository (scan (app K micros T reading) status from none order w.repository))
          h in
      let (items, listed, same') =
        map_ok-ok (map scan_item) _ (
          sym (scan-after status from none order w.repository) ∙ map_err-ok repository _ scanned) in
      let (before', behind', split, rest) =
        split_items items before e behind (ap download_iter same' ∙ same) in
      let more =
        C.resumes (request_of micros status from none order) w.repository before' behind' e.download
          e.cursor.raw refl (map_err-ok _ _ listed ∙ ap ok split) in
      ap (λ r. map_ok download_iter (map_err repository r))
        (scan-after status from (some e.cursor) order w.repository)
      ∙ ap
          (λ r.
            map_ok download_iter
              (map_err repository (map_ok (map scan_item) (map_err from_collection_error r))))
          more
      ∙ ap ok rest

  module _ (B : Base64) (max : ℕ) where
    -- A client that follows `endCursor` while `hasNextPage` holds, with a positive `first` within the
    -- maximum, ends after a number of pages that the length of the listing bounds, and has then
    -- an edge for each stored record that its status and start let through, each once and in the order
    -- of creation. That is for a store that does not change meanwhile, a listing without errors, a
    -- collection that keeps its promises, and cursors that survive base64.
    pub walk-Listed :
        (args : DownloadsArgs) (w : World (app K micros T reading)) (es : List DownloadEntry)
        (k fuel : ℕ)
        → IsCodec B
        → args.first ≡ pos (suc k)
        → suc k ≤ max
        → listing B (app_service (app K micros T reading)) max args none w ≡ ok (map ok es)
        → length es < fuel
        → (walk B (app_service (app K micros T reading)) max fuel (record args { after = none }) w
            ≡ ok (map (to_edge B) es))
          × Listed micros
              (C.view w.repository)
              (Option.map into_domain args.status)
              args.from
              (into_app (or_default args.order))
              (map (λ (e : DownloadEntry). e.download) es)
    walk-Listed args w es k fuel codec f bound listed enough = (
      walk-listing B (app_service (app K micros T reading)) max args w es k fuel codec
          (record {
            start = listed;
            resume = λ before e behind split.
                downloads-resume _ _ _ w before e behind (listed ∙ ap (λ l. ok (map ok l)) split);
          })
          f bound enough,
      downloads-Listed K micros C T reading _ _ _ w (map ok es) es listed (collect-ok es),
    )
