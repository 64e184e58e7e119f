-- ===== src/Graphql/Schema/Laws.antt =====
-- One page of the query `downloads` (graphql/schema.rs).
use magnarr.Prelude.{ℕ, zero, suc, ◌≤◌, String, ◌≡◌, refl, Bool, false, inl, inr}
use magnarr.Prelude.{Option, none, some, List, [], ◌∷◌, map, Result, ok, collect, map_ok, map_err}
use magnarr.Prelude.{ltb, length, length-map, length-take, take, take-map, take-take, is_some}
use magnarr.Prelude.{arith, Result-cases, >>=-eq-ok, ok-injective, subst}
use magnarr.Prelude.Int.{ℤ, pos, negsuc}
use magnarr.App.Repository.{DownloadCursor, DownloadEntry}
use magnarr.App.Errors.{AppError}
use magnarr.App.Service.{DownloadService, ServiceEntries}
use magnarr.Graphql.Types.{into_domain, into_app}
use magnarr.Graphql.Schema.{Base64, Error, Connection, DownloadsArgs, transpose, or_default}
use magnarr.Graphql.Schema.{decode_downloads_cursor, to_edge, to_edges}
use magnarr.Graphql.Schema.{to_connection, check_first, downloads, app}
use mathlib.Core.Option

module _ (B : Base64) where
  collect-take-ok :
      (n : ℕ) (es : List DownloadEntry)
      → collect (map (map_ok {E = AppError} (to_edge B)) (take n (map ok es)))
        ≡ ok (map (to_edge B) (take n es))
  collect-take-ok zero es = refl
  collect-take-ok (suc n) [] = refl
  collect-take-ok (suc n) (e ∷ es) = rw (collect-take-ok n es)

  to_edges-ok :
      (limit : ℕ) (es : List DownloadEntry)
      → to_edges B limit (map ok es) ≡ ok (map (to_edge B) (take (suc limit) es))
  unfolding to_edges
  to_edges-ok limit es = rw (collect-take-ok (suc limit) es)

  -- The page of a listing `es`.
  abbrev pub page : Bool → ℕ → List DownloadEntry → Connection
  page has_previous limit es = record {
    has_previous_page = has_previous;
    has_next_page = ltb limit (length es);
    edges = map (to_edge B) (take limit es);
  }

  to_connection-page :
      (has_previous : Bool) (limit : ℕ) (es : List DownloadEntry)
      → to_connection has_previous limit (map (to_edge B) (take (suc limit) es))
        ≡ page has_previous limit es
  unfolding to_connection
  to_connection-page has_previous limit es =
      rw (length-map, length-take (suc limit) es, take-map, take-take) (ground arith)

check_first-ok :
    (max : ℕ) (first : ℤ) (limit : ℕ)
    → check_first max first ≡ ok limit
    → (first ≡ pos limit) × (limit ≤ max)
unfolding check_first
check_first-ok max (negsuc n) limit h = cc
check_first-ok max (pos n) limit h = ground arith

is_some-transpose :
    (B : Base64) (raw : Option String) (after : Option DownloadCursor)
    → transpose (Option.map (decode_downloads_cursor B) raw) ≡ ok after
    → is_some after ≡ is_some raw
is_some-transpose B none after h = ground arith
is_some-transpose B (some raw) after h = elim (Result-cases (decode_downloads_cursor B raw)) [
  | inl (c, e) ↦ ground (arith, e)
  | inr (e, failed) ↦ ground (arith, failed)
]

module _ (B : Base64) (S : DownloadService) (max : ℕ) where
  -- The listing that the service gives to a query, from a position.
  abbrev pub listing :
      DownloadsArgs → Option DownloadCursor → S.State → Result ServiceEntries AppError
  listing args after s =
      S.downloads (Option.map into_domain args.status) args.from after
        (into_app (or_default args.order)) s

  abbrev pub decoded : DownloadsArgs → Result (Option DownloadCursor) Error
  decoded args = transpose (Option.map (decode_downloads_cursor B) args.after)

  -- A query with a cursor that decodes and a `first` within bounds, over a listing without errors, gets
  -- the first `first` entries of it, and `has_next_page` says whether there are more.
  pub downloads-page :
      (args : DownloadsArgs) (s : S.State) (after : Option DownloadCursor) (limit : ℕ)
      (es : List DownloadEntry)
      → decoded args ≡ ok after
      → args.first ≡ pos limit
      → limit ≤ max
      → listing args after s ≡ ok (map ok es)
      → downloads B S max args s ≡ ok (page B (is_some after) limit es)
  unfolding downloads check_first
  downloads-page args s after limit es d f bound l =
      let fits : ltb max limit ≡ false = ground arith in
      rw (d, f, fits, l, collect-take-ok B (suc limit) es, to_connection-page)

  -- A page has `first` edges at most, and never more than `max_page_size`; a negative `first` and one
  -- beyond the maximum get no page.
  pub downloads-bounds :
      (args : DownloadsArgs) (s : S.State) {c : Connection}
      → downloads B S max args s ≡ ok c
      → (limit : ℕ) × (args.first ≡ pos limit)
        × (limit ≤ max)
        × (length c.edges ≤ limit)
        × (c.has_previous_page ≡ is_some args.after)
  unfolding downloads
  downloads-bounds args s {c} h =
      let (after, d, h1) = >>=-eq-ok (decoded args) _ h in
      let (limit, bounds, h2) = >>=-eq-ok (check_first max args.first) _ h1 in
      let (iter, l, h3) = >>=-eq-ok (map_err app (listing args after s)) _ h2 in
      let (edges, e, h4) = >>=-eq-ok (to_edges B limit iter) _ h3 in
      let built = ok-injective h4 in
      let (f, bound) = check_first-ok max args.first limit bounds in
      (
        limit,
        f,
        bound,
        subst (λ (x : Connection). length x.edges ≤ limit) built
            (omega (arith, length-take limit edges)),
        subst (λ (x : Connection). x.has_previous_page ≡ is_some args.after) built
            (is_some-transpose B args.after after d),
      )
