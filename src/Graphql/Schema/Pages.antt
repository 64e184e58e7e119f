-- ===== src/Graphql/Schema/Pages.antt =====
-- A client that follows `endCursor` while `hasNextPage` holds, over graphql/schema.rs.
use magnarr.Prelude.{ℕ, zero, suc, ◌≤◌, ◌<◌, String, ◌≡◌, refl, ◌∙◌, sym, ap, true, false}
use magnarr.Prelude.{Option, none, some, List, [], ◌∷◌, ◌++◌, map, Result, ok, ◌>>=◌, arith}
use magnarr.Prelude.{ltb, length, take, drop, take-append-drop}
use magnarr.Prelude.{length-drop-le, take-all, last, last-append, last-map, inl, inr, Bool-cases}
use magnarr.Prelude.Int.{pos}
use magnarr.App.Repository.{DownloadCursor, DownloadEntry}
use magnarr.App.Service.{DownloadService}
use magnarr.Graphql.Schema.{Base64, Error, Edge, DownloadsArgs, to_edge, downloads}
use magnarr.Graphql.Schema.{encode_downloads_cursor, decode_downloads_cursor}
use magnarr.Graphql.Schema.Laws.{listing, decoded, downloads-page}
use mathlib.Core.List.{append_assoc, map-append}

-- What base64 promises.
pub record IsCodec (B : Base64) : Type 0 where
  pub decode-encode : (bytes : List ℕ) → B.decode (B.encode bytes) ≡ some bytes

-- The query from the last edge of a page on.
abbrev pub next_args : DownloadsArgs → List Edge → DownloadsArgs
next_args args edges = record args { after = cursor_of (last edges) }
  where
    cursor_of : Option Edge → Option String
    cursor_of none = none
    cursor_of (some e) = some e.cursor

module _ (B : Base64) (S : DownloadService) (max : ℕ) where
  -- All edges of a query, page after page, with fuel for the number of pages.
  pub walk : ℕ → DownloadsArgs → S.State → Result (List Edge) Error
  walk zero args s = ok []
  walk (suc fuel) args s = downloads B S max args s >>= λ c. elim c.has_next_page [
    | false ↦ ok c.edges
    | true ↦ walk fuel (next_args args c.edges) s >>= λ rest. ok (c.edges ++ rest)
  ]

  -- The service resumes a listing `es` behind the entry whose cursor it is given.
  pub record Resumes (args : DownloadsArgs) (s : S.State) (es : List DownloadEntry) : Type 0 where
    pub start : listing B S max args none s ≡ ok (map ok es)
    pub resume :
        (before : List DownloadEntry) (e : DownloadEntry) (behind : List DownloadEntry)
        → es ≡ before ++ e ∷ behind
        → listing B S max args (some e.cursor) s ≡ ok (map ok behind)

  module _ (codec : IsCodec B) (args : DownloadsArgs) (s : S.State) (es : List DownloadEntry)
      (k : ℕ) (R : Resumes args s es) (f : args.first ≡ pos (suc k)) (bound : suc k ≤ max) where
    abbrev at : Option String → DownloadsArgs
    at raw = record args { after = raw }

    abbrev edges_of : List DownloadEntry → List Edge
    edges_of = map (to_edge B)

    decoded-cursor :
        (e : DownloadEntry) → decoded B S max (at (some (to_edge B e).cursor)) ≡ ok (some e.cursor)
    unfolding decode_downloads_cursor encode_downloads_cursor to_edge
    decoded-cursor e = rw (codec.decode-encode e.cursor.raw, decode_downloads_cursor)

    next_args-edges :
        (raw : Option String) (front : List DownloadEntry) (x : DownloadEntry)
        → last front ≡ some x
        → next_args (at raw) (edges_of front) ≡ at (some (to_edge B x).cursor)
    next_args-edges raw front x ends = rw (last-map (to_edge B) front x ends)

    -- Where a next page begins.
    record Next (before behind : List DownloadEntry) : Type 0 where
      x : DownloadEntry
      ends : last (take (suc k) behind) ≡ some x
      shorter : length (drop (suc k) behind) < length behind
      split : es ≡ (before ++ take (suc k) behind) ++ drop (suc k) behind
      resumed : listing B S max args (some x.cursor) s ≡ ok (map ok (drop (suc k) behind))

    Next-of :
        (before : List DownloadEntry) (e : DownloadEntry) (rest : List DownloadEntry)
        → es ≡ before ++ (e ∷ rest)
        → Next before (e ∷ rest)
    Next-of before e rest split =
        let (init, x, front, ends) = last-append e (take k rest) in
        let whole : (e ∷ rest) ≡ take (suc k) (e ∷ rest) ++ drop (suc k) (e ∷ rest) =
          sym (take-append-drop (suc k) (e ∷ rest)) in
        record {
          x = x;
          ends = ends;
          shorter = omega (arith, length-drop-le k rest);
          split = split ∙ ap (◌++◌ before) whole ∙ sym (append_assoc before _ _);
          resumed = R.resume (before ++ init) x (drop k rest) (
              split
              ∙ ap (◌++◌ before) (
                  whole
                  ∙ ap (λ l. l ++ drop k rest) front
                  ∙ append_assoc init (x ∷ []) (drop k rest))
              ∙ sym (append_assoc before init (x ∷ drop k rest)));
        }

    -- The walk from the position `after`, behind which the entries `behind` are listed.
    walk-behind :
        (fuel : ℕ) (raw : Option String) (after : Option DownloadCursor)
        (before behind : List DownloadEntry)
        → length behind < fuel
        → es ≡ before ++ behind
        → decoded B S max (at raw) ≡ ok after
        → listing B S max args after s ≡ ok (map ok behind)
        → walk fuel (at raw) s ≡ ok (edges_of behind)
    unfolding walk
    walk-behind zero raw after before behind enough split d l = absurd (omega arith)
    walk-behind (suc fuel) raw after before [] enough split d l =
        let end : ltb (suc k) 0 ≡ false = ground arith in
        rw (downloads-page B S max (at raw) s after (suc k) [] d f bound l, end)
    walk-behind (suc fuel) raw after before (e ∷ rest) enough split d l =
        let n = Next-of before e rest split in
        let more =
          walk-behind fuel (some (to_edge B n.x).cursor) (some n.x.cursor)
            (before ++ take (suc k) (e ∷ rest)) (drop k rest) (omega (arith, n.shorter)) n.split
            (decoded-cursor n.x) n.resumed in
        rw (downloads-page B S max (at raw) s after (suc k) (e ∷ rest) d f bound l)
          (elim (Bool-cases (ltb (suc k) (length (e ∷ rest)))) [
            | inr end ↦ rw (end, take-all k rest (ground arith))
            | inl on ↦ rw on (
                rw (next_args-edges raw (take (suc k) (e ∷ rest)) n.x n.ends, more)
                  (rw (← map-append (to_edge B) (take k rest), take-append-drop k rest)))
          ])

  -- Following `endCursor` while `hasNextPage` holds ends, and gives the edges of the whole listing, each
  -- once and in its order: for a positive `first` within the maximum, a service that resumes its
  -- listing behind any cursor of it, cursors that survive base64, and a listing without errors.
  pub walk-listing :
      (args : DownloadsArgs) (s : S.State) (es : List DownloadEntry) (k fuel : ℕ)
      → IsCodec B
      → Resumes args s es
      → args.first ≡ pos (suc k)
      → suc k ≤ max
      → length es < fuel
      → walk fuel (record args { after = none }) s ≡ ok (map (to_edge B) es)
  walk-listing args s es k fuel codec R f bound enough =
      walk-behind codec args s es k R f bound fuel none none [] es enough refl refl R.start
