-- ===== src/Graphql/Server.antt =====
-- graphql/mod.rs and the roots of graphql/schema.rs: what the server makes of an HTTP request. `async_graphql`
-- reads the operation from it, with the fields of its root in the order of the request, fragments and
-- aliases resolved; `axum` picks the route.
pub mod Laws
use magnarr.Prelude.{ℕ, String, Option, none, some, List, [], ◌∷◌, map, Result, ok, err, str_eq}
use magnarr.Prelude.{if◌then◌else◌}
use magnarr.Types.Magnet.{UrlCrate, Magnet}
use magnarr.Prelude.Text.{CaseTable}
use magnarr.App.Service.{DownloadService}
use magnarr.Graphql.Types.{Download}
use magnarr.Graphql.Scalars.{GraphqlValue, InputValueError, parse}
use magnarr.Graphql.Schema as Schema
use magnarr.Graphql.Schema.{Base64, DownloadsArgs, Connection, Error}

pub data Method : Type 0 where
  get head post other : Method

pub data Handler : Type 0 where
  graphql_handler graphql_playground : Handler

-- The routes; `none` is a path or a method without one. `axum`'s `get` answers HEAD too.
unfoldable pub axum_router : String → Method → Option Handler
axum_router path post = if str_eq path "/graphql" then some graphql_handler else none
axum_router path get = if str_eq path "/graphql" then some graphql_playground else none
axum_router path head = if str_eq path "/graphql" then some graphql_playground else none
axum_router path other = none

-- A field of the query root, with its arguments.
pub data QueryField : Type 0 where
  health : QueryField
  downloads : DownloadsArgs → QueryField

-- The field `download` of the mutation root, with its arguments.
pub record DownloadField (Value : Type 0) : Type 0 where
  pub magnet : Value
  pub target_dir : String

-- A request holds one operation, with any number of fields of its root.
pub data Operation (Value : Type 0) : Type 0 where
  query : List QueryField → Operation Value
  mutation : List (DownloadField Value) → Operation Value

-- The answer to a field. No field of the roots may be null, so that `async_graphql` gives up a mutation at
-- the first field that fails. The fields of a query are resolved beside each other, each to its answer.
pub data Reply (Value ParseError : Type 0) : Type 0 where
  up : String → Reply Value ParseError
  page : Connection → Reply Value ParseError
  created : Download → Reply Value ParseError
  failed : Error → Reply Value ParseError
  invalid : InputValueError Value ParseError → Reply Value ParseError
  panicked playground no_route : Reply Value ParseError

module _ (U : UrlCrate) (table : CaseTable) (V : GraphqlValue) (B : Base64) (S : DownloadService)
    (max_page_size : ℕ) where
  abbrev pub Replies : Type 0
  Replies = List (Reply V.Value U.ParseError)

  abbrev pub Answer : Type 0
  Answer = Replies × S.State

  abbrev pub paged : Result Connection Error → Reply V.Value U.ParseError
  paged (ok c) = page c
  paged (err e) = failed e

  unfoldable pub resolve : S.State → QueryField → Reply V.Value U.ParseError
  unfolding Schema.downloads
  resolve s health = up "ok"
  resolve s (downloads args) = paged (Schema.downloads B S max_page_size args s)

  -- The answer of the service, and then the rest of the fields.
  abbrev pub made : Result Download Error × S.State → (S.State → Answer) → Answer
  made (ok d, s) rest = let (replies, s') = rest s in (created d ∷ replies, s')
  made (err e, s) rest = (failed e ∷ [], s)

  -- The resolver of `download`, once its scalar has been parsed.
  unfoldable pub submit :
      Option (Result Magnet (InputValueError V.Value U.ParseError))
      → String
      → (S.State → Answer)
      → S.State
      → Answer
  unfolding Schema.download
  submit none target_dir rest s = (panicked ∷ [], s)
  submit (some (err e)) target_dir rest s = (invalid e ∷ [], s)
  submit (some (ok magnet)) target_dir rest s =
      made (Schema.download B S max_page_size magnet target_dir s) rest

  -- The fields of a mutation, one after another.
  unfoldable pub submit_all : List (DownloadField V.Value) → S.State → Answer
  unfolding submit parse
  submit_all [] s = ([], s)
  submit_all (field ∷ fields) s =
      submit (parse U table V field.magnet) field.target_dir (submit_all fields) s

  unfoldable pub execute : Operation V.Value → S.State → Answer
  unfolding resolve submit_all
  execute (query fields) s = (map (resolve s) fields, s)
  execute (mutation fields) s = submit_all fields s

  unfoldable pub serve : String → Method → Operation V.Value → S.State → Answer
  unfolding axum_router execute
  serve path method op s = elim (axum_router path method) [
    | some graphql_handler ↦ execute op s
    | some graphql_playground ↦ (playground ∷ [], s)
    | none ↦ (no_route ∷ [], s)
  ]
