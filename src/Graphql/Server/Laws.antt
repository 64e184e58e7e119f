-- ===== src/Graphql/Server/Laws.antt =====
-- Which requests change anything, and what they do (graphql/mod.rs, graphql/schema.rs).
use magnarr.Prelude.{ℕ, String, ◌≡◌, ◌≢◌, refl, ◌⊎◌, inl, inr, eq_iff, Bool-cases, str_eq}
use magnarr.Prelude.{map_ok, map_err}
use magnarr.Graphql.Types.{show}
use magnarr.Prelude.{Option, none, some, List, [], ◌∷◌, Result, ok, err, arith}
use magnarr.Prelude.Text.{CaseTable}
use magnarr.Types.Download as D
use magnarr.Types.Magnet.{UrlCrate, Magnet}
use magnarr.App.Errors.{AppError}
use magnarr.App.Service.{DownloadService}
use magnarr.Graphql.Scalars.{GraphqlValue, InputValueError, parse}
use magnarr.Graphql.Schema as Schema
use magnarr.Graphql.Schema.{Base64}
use magnarr.Graphql.Server.{Method, get, head, post, other, Operation, query, mutation}
use magnarr.Graphql.Server.{QueryField, DownloadField, made, submit, submit_all}
use magnarr.Graphql.Server.{axum_router, execute, serve}

module _ (U : UrlCrate) (table : CaseTable) (V : GraphqlValue) (B : Base64) (S : DownloadService)
    (max_page_size : ℕ) where
  -- The service is given the magnets of the fields in their order, up to the first field whose magnet
  -- does not parse or that the service refuses.
  pub data Submitted : List (DownloadField V.Value) → S.State → S.State → Type 0 where
    finished : {s : S.State} → Submitted [] s s
    unparsed :
        {field : DownloadField V.Value} {fields : List (DownloadField V.Value)} {s : S.State}
        → ((magnet : Magnet) → parse U table V field.magnet ≢ some (ok magnet))
        → Submitted (field ∷ fields) s s
    refused :
        {field : DownloadField V.Value} {fields : List (DownloadField V.Value)} {s s' : S.State}
        (magnet : Magnet) (e : AppError)
        → parse U table V field.magnet ≡ some (ok magnet)
        → S.download magnet field.target_dir s ≡ (err e, s')
        → Submitted (field ∷ fields) s s'
    taken :
        {field : DownloadField V.Value} {fields : List (DownloadField V.Value)} {s s' s'' : S.State}
        (magnet : Magnet) (d : D.Download)
        → parse U table V field.magnet ≡ some (ok magnet)
        → S.download magnet field.target_dir s ≡ (ok d, s')
        → Submitted fields s' s''
        → Submitted (field ∷ fields) s s''

  module _ (field : DownloadField V.Value) (fields : List (DownloadField V.Value))
      (behind : (s : S.State)
        → Submitted fields s (submit_all U table V B S max_page_size fields s).1) where
    made-Submitted :
        (magnet : Magnet) (s : S.State) (out : Result D.Download AppError × S.State)
        → parse U table V field.magnet ≡ some (ok magnet)
        → S.download magnet field.target_dir s ≡ out
        → Submitted
            (field ∷ fields)
            s
            (made U table V B S max_page_size
              (map_ok show (map_err Schema.app out.0), out.1)
              (submit_all U table V B S max_page_size fields)).1
    made-Submitted magnet s (err e, s') parsed run = refused magnet e parsed run
    made-Submitted magnet s (ok d, s') parsed run = taken magnet d parsed run (behind s')

    submit-Submitted :
        (s : S.State) (parsed : Option (Result Magnet (InputValueError V.Value U.ParseError)))
        → parse U table V field.magnet ≡ parsed
        → Submitted
            (field ∷ fields)
            s
            (submit U table V B S max_page_size parsed field.target_dir
              (submit_all U table V B S max_page_size fields)
              s).1
    unfolding submit Schema.download
    submit-Submitted s none e = unparsed (λ magnet parsed. cc)
    submit-Submitted s (some (err x)) e = unparsed (λ magnet parsed. cc)
    submit-Submitted s (some (ok magnet)) e = made-Submitted magnet s _ e refl

  submit_all-Submitted :
      (fields : List (DownloadField V.Value)) (s : S.State)
      → Submitted fields s (submit_all U table V B S max_page_size fields s).1
  unfolding submit_all
  submit_all-Submitted [] s = finished
  submit_all-Submitted (field ∷ fields) s =
      submit-Submitted field fields (submit_all-Submitted fields) s _ refl

  -- From `s` to `s'`, by a mutation that is posted to the API, or by any other request.
  abbrev pub Mutated : String → Method → Operation V.Value → S.State → S.State → Type 0
  Mutated path method op s s' =
      (fields : List (DownloadField V.Value)) × (path ≡ "/graphql")
      × (method ≡ post)
      × (op ≡ mutation fields)
      × Submitted fields s s'

  abbrev pub Unchanged : String → Method → Operation V.Value → S.State → S.State → Type 0
  Unchanged path method op s s' =
      ((path ≢ "/graphql") ⊎ ((method ≢ post) ⊎ ((fields : List QueryField) × (op ≡ query fields))))
      × (s' ≡ s)

  execute-Submits :
      (path : String) (op : Operation V.Value) (s : S.State)
      → path ≡ "/graphql"
      → let s' = (execute U table V B S max_page_size op s).1 in
        Mutated path post op s s' ⊎ Unchanged path post op s s'
  unfolding execute
  execute-Submits path (query fields) s there = inr (inr (inr (fields, refl)), refl)
  execute-Submits path (mutation fields) s there =
      inl (fields, there, refl, refl, submit_all-Submitted fields s)

  -- A mutation that is posted to /graphql gives the service's `download` the magnets and target
  -- directories of its fields in their order, one after another, up to the first field whose magnet
  -- does not parse or whose download fails, and changes nothing besides. Every other request, a query, or
  -- one with another path or method, changes nothing.
  pub serve-Submits :
      (path : String) (method : Method) (op : Operation V.Value) (s : S.State)
      → Mutated path method op s (serve U table V B S max_page_size path method op s).1
        ⊎ Unchanged path method op s (serve U table V B S max_page_size path method op s).1
  unfolding serve axum_router
  serve-Submits path other op s = inr (inr (inl (λ e. cc)), refl)
  serve-Submits path get op s = elim (Bool-cases (str_eq path "/graphql")) [
    | inl there ↦ inr (inr (inl (λ e. cc)), rw (there, serve) refl)
    | inr elsewhere ↦ inr (inr (inl (λ e. cc)), rw (elsewhere, serve) refl)
  ]
  serve-Submits path head op s = elim (Bool-cases (str_eq path "/graphql")) [
    | inl there ↦ inr (inr (inl (λ e. cc)), rw (there, serve) refl)
    | inr elsewhere ↦ inr (inr (inl (λ e. cc)), rw (elsewhere, serve) refl)
  ]
  serve-Submits path post op s = elim (Bool-cases (str_eq path "/graphql")) [
    | inr elsewhere ↦ inr (
      inl (λ e. ground (arith, eq_iff path "/graphql", elsewhere, e)),
      rw (elsewhere, serve) refl,
    )
    | inl there ↦ rw (there, serve) (execute-Submits path op s ((eq_iff path "/graphql").0 there))
  ]
