-- ===== src/Store/Shown.antt =====
-- From the mutation `download` to the query `downloads` (graphql/schema.rs), over `App` and
-- `DownloadStore`.
use magnarr.Prelude.{
  ℕ, suc, String, ◌≤◌, ◌<◌, ◌≡◌, refl, ap, sym, subst, ◌∙◌, inl, inr, arith, eq_iff,
}
use magnarr.Prelude.{
  List, [], ◌∷◌, map, length, Option, none, some, Result, ok, err, map_ok, map_err, Any,
  ok-injective,
}
use magnarr.Prelude.Int.{ℤ, pos}
use magnarr.Types.Magnet.{Magnet}
use magnarr.Types.Download as Types
use magnarr.Types.Download.{DateTime}
use magnarr.App.Repository.{DownloadEntry, DownloadRepository}
use magnarr.App.Repository.Contract.{View}
use magnarr.App.Errors.{AppError}
use magnarr.App.Torrent.{TorrentClient}
use magnarr.App.World.{World}
use magnarr.App.Submit as Submit
use magnarr.App.Submit.Laws.{Submission, download-Submission}
use magnarr.App.Listing.{app_service}
use magnarr.Graphql.Types.{Download, show, from_domain, submitted, SortOrder}
use magnarr.Graphql.Schema.{Base64, DownloadsArgs, Edge, to_edge, download, Error}
use magnarr.Graphql.Schema.Laws.{listing}
use magnarr.Graphql.Schema.Pages.{IsCodec, walk}
use magnarr.Store.{Collection}
use magnarr.Store.Promises.{IsCollection}
use magnarr.Store.Laws.{download_store-Contract}
use magnarr.Store.Listing.{app}
use magnarr.Store.Paging.{walk-Listed}

-- What a mutation shows is what the app returned.
shown_of :
    (wrap : AppError → Error) (r : Result Types.Download AppError) (d : Download)
    → map_ok show (map_err wrap r) ≡ ok d
    → (x : Types.Download) × (r ≡ ok x) × (show x ≡ d)
shown_of wrap (ok x) d h = (x, refl, ok-injective h)
shown_of wrap (err e) d h = cc

Submission-stored :
    (R : DownloadRepository) (magnet : Magnet) (target_dir : String) (v w : View)
    (r : Result Types.Download AppError) (d : Types.Download)
    → Submission R magnet target_dir v w r
    → r ≡ ok d
    → (w d.info_hash ≡ some d)
      × (d.status ≡ Types.submitted)
      × (d.magnet ≡ magnet)
      × (d.target_dir ≡ target_dir)
Submission-stored R magnet target_dir v w (err e) d sub h = cc
Submission-stored R magnet target_dir v w (ok x) d (absent, fresh, st, same) h =
    subst
      (λ (y : Types.Download).
        (w y.info_hash ≡ some y)
        × (y.status ≡ Types.submitted)
        × (y.magnet ≡ magnet)
        × (y.target_dir ≡ target_dir))
      (ok-injective h)
      (
        ground (arith, same x.info_hash, fresh.info_hash, eq_iff x.info_hash magnet.info_hash),
        st,
        fresh.magnet_kept,
        fresh.target_dir_kept,
      )

-- A listed record has an edge that shows it.
Any-to_edge :
    (B : Base64) (d : Types.Download) (es : List DownloadEntry)
    → Any (λ e. e ≡ d) (map (λ (e : DownloadEntry). e.download) es)
    → Any (λ (x : Edge). x.node ≡ show d) (map (to_edge B) es)
unfolding to_edge
Any-to_edge B d [] listed = absurd listed
Any-to_edge B d (e ∷ es) (inl here) = inl (ap show here)
Any-to_edge B d (e ∷ es) (inr later) = inr (Any-to_edge B d es later)

-- The arguments of a query for everything, in some order.
abbrev pub everything : ℕ → Option SortOrder → DownloadsArgs
everything k order = record {
  status = none;
  from = none;
  after = none;
  first = pos (suc k);
  order = order;
}

module _ (K : Collection) (micros : DateTime → ℤ) (C : IsCollection K micros) (T : TorrentClient)
    (reading : ℕ → DateTime) (B : Base64) (max : ℕ) where
  -- When the mutation `download` shows a download, that is `Submitted`, with the magnet and the target
  -- directory of the request, and a client that then follows the pages of the query for everything, in
  -- either order and with a positive `first` within the maximum, ends with an edge that shows it. That is
  -- for a store that does not change meanwhile, a listing without errors, a collection that keeps its
  -- promises, and cursors that survive base64.
  pub download-walk :
      (magnet : Magnet) (target_dir : String) (w w' : World (app K micros T reading)) (d : Download)
      (es : List DownloadEntry) (k fuel : ℕ) (order : Option SortOrder)
      → IsCodec B
      → suc k ≤ max
      → download B (app_service (app K micros T reading)) max magnet target_dir w ≡ (ok d, w')
      → listing B (app_service (app K micros T reading)) max (everything k order) none w'
        ≡ ok (map ok es)
      → length es < fuel
      → (d.status ≡ submitted)
        × (d.magnet ≡ magnet)
        × (d.target_dir ≡ target_dir)
        × (walk B (app_service (app K micros T reading)) max fuel (everything k order) w'
            ≡ ok (map (to_edge B) es))
        × Any (λ (x : Edge). x.node ≡ d) (map (to_edge B) es)
  unfolding download show from_domain
  download-walk magnet target_dir w w' d es k fuel order codec bound made listed enough =
      let A = app K micros T reading in
      let end = Submit.download A magnet target_dir w in
      let (x, returned, shown) = shown_of _ end.0 d (ap (λ p. p.0) made) in
      let left : end.1 ≡ w' = ap (λ p. p.1) made in
      let (c, same) = download_store-Contract K micros C in
      let (stored, st, kept, dir) =
        Submission-stored A.R magnet target_dir (c.view w.repository) (c.view end.1.repository)
          end.0 x (download-Submission A c magnet target_dir w) returned in
      let held : C.view w'.repository x.info_hash ≡ some x =
        subst (λ (u : World A). C.view u.repository x.info_hash ≡ some x) left
          (subst (λ (view : A.R.State → View). view end.1.repository x.info_hash ≡ some x) same
            stored) in
      let (walked, all) =
        walk-Listed K micros C T reading B max (everything k order) w' es k fuel codec refl bound
          listed enough in
      (
        sym (ap (λ (y : Download). y.status) shown) ∙ ap from_domain st,
        sym (ap (λ (y : Download). y.magnet) shown) ∙ kept,
        sym (ap (λ (y : Download). y.target_dir) shown) ∙ dir,
        walked,
        subst (λ y. Any (λ (e : Edge). e.node ≡ y) (map (to_edge B) es)) shown
            (Any-to_edge B x es (all.complete x held tt tt)),
      )
