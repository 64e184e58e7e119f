-- ===== src/Graphql/Schema.antt =====
-- graphql/schema.rs: the query `downloads`, page by page, and the mutation `download`. The base64
-- codec is a parameter; an error made from a message is named by the message.
pub mod Laws
pub mod Pages
use magnarr.Prelude.{
  ℕ, suc, ◌+◌, String, Bool, Option, none, some, List, [], ◌∷◌, map, Result, ok, err,
}
use magnarr.Prelude.{collect, map_ok, map_err, ◌>>=◌, ltb, length, take, is_some, if◌then◌else◌}
use magnarr.Prelude.Int.{ℤ, pos, negsuc}
use magnarr.Types.Magnet.{Magnet}
use magnarr.Types.Download.{DateTime}
use magnarr.App.Repository.{DownloadCursor, DownloadEntry}
use magnarr.App.Errors.{AppError}
use magnarr.App.Service.{DownloadService, ServiceEntries}
use magnarr.Graphql.Types.{DownloadStatus, SortOrder, desc, into_domain, into_app, Download, show}
use mathlib.Core.Option

-- `URL_SAFE_NO_PAD`; a failed decoding has lost its reason.
pub record Base64 : Type 0 where
  pub encode : List ℕ → String
  pub decode : String → Option (List ℕ)

pub data Error : Type 0 where
  invalid_downloads_cursor first_must_be_non_negative : Error
  first_cannot_be_greater_than : ℕ → Error
  app : AppError → Error

pub record Edge : Type 0 where
  pub cursor : String
  pub node : Download

pub record Connection : Type 0 where
  pub has_previous_page : Bool
  pub has_next_page : Bool
  pub edges : List Edge

-- The arguments of the query.
pub record DownloadsArgs : Type 0 where
  pub status : Option DownloadStatus
  pub from : Option DateTime
  pub after : Option String
  pub first : ℤ
  pub order : Option SortOrder

-- `#[graphql(default = 50)]`
abbrev pub default_first : ℤ
default_first = pos 50

-- `usize::try_from`
abbrev try_usize : ℤ → Result ℕ Error
try_usize (pos n) = ok n
try_usize (negsuc n) = err first_must_be_non_negative

unfoldable pub or_default : Option SortOrder → SortOrder
or_default none = desc
or_default (some o) = o

-- `Option::transpose` of a decoding.
abbrev transpose : Option (Result DownloadCursor Error) → Result (Option DownloadCursor) Error
transpose none = ok none
transpose (some (ok c)) = ok (some c)
transpose (some (err e)) = err e

unfoldable pub to_connection : Bool → ℕ → List Edge → Connection
to_connection has_previous limit edges = record {
  has_previous_page = has_previous;
  has_next_page = ltb limit (length edges);
  edges = take limit edges;
}

-- The two tests of `first`.
unfoldable pub check_first : ℕ → ℤ → Result ℕ Error
check_first max_page_size first = try_usize first >>= λ limit.
    if ltb max_page_size limit then err (first_cannot_be_greater_than max_page_size) else ok limit

module _ (B : Base64) where
  unfoldable pub encode_downloads_cursor : DownloadCursor → String
  encode_downloads_cursor cursor = B.encode cursor.raw

  unfoldable pub decode_downloads_cursor : String → Result DownloadCursor Error
  decode_downloads_cursor cursor = elim (B.decode cursor) [
    | none ↦ err invalid_downloads_cursor
    | some raw ↦ ok (record { raw = raw })
  ]

  unfoldable pub to_edge : DownloadEntry → Edge
  unfolding encode_downloads_cursor show
  to_edge e = record { cursor = encode_downloads_cursor e.cursor; node = show e.download }

  -- The iterator cut to one item more than the page.
  unfoldable pub to_edges : ℕ → ServiceEntries → Result (List Edge) Error
  unfolding to_edge
  to_edges limit iter = map_err app (collect (map (map_ok to_edge) (take (suc limit) iter)))

  module _ (S : DownloadService) (max_page_size : ℕ) where
    unfoldable pub downloads : DownloadsArgs → S.State → Result Connection Error
    unfolding decode_downloads_cursor to_edges to_connection check_first into_domain into_app
        or_default
    downloads args s = do
      after ← transpose (Option.map decode_downloads_cursor args.after)
      limit ← check_first max_page_size args.first
      iter ← map_err app (
          S.downloads (Option.map into_domain args.status) args.from after
            (into_app (or_default args.order)) s)
      edges ← to_edges limit iter
      ok (to_connection (is_some after) limit edges)

    -- The mutation. The magnet was parsed by its scalar.
    unfoldable pub download : Magnet → String → S.State → Result Download Error × S.State
    unfolding show
    download magnet target_dir s =
        let (r, s') = S.download magnet target_dir s in (map_ok show (map_err app r), s')
