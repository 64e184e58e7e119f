-- ===== src/Tests/Unit/Querying.antt =====
-- The tests of graphql/schema.rs. A query is its arguments.
use magnarr.Prelude.{ℕ, ◌*◌, ◌^◌, String, ◌≡◌, refl, Bool, true, false}
use magnarr.Prelude.{◌&&◌, not, Option, none, some, List, [], ◌∷◌, Result, ok, err}
use magnarr.Prelude.{str_eq, ◌==◌}
use magnarr.Prelude.Int.{pos}
use magnarr.Graphql.Types as Graphql
use magnarr.Graphql.Schema.{DownloadsArgs, Connection, Edge, Error, downloads}
use magnarr.Graphql.Schema.{first_cannot_be_greater_than}
use magnarr.Tests.Unit.Mock.{base64, mock_service, new_mock_service}

unfoldable query : DownloadsArgs → Result Connection Error
unfolding downloads mock_service new_mock_service
query args = downloads base64 mock_service 100 args new_mock_service

abbrev first_and_after : ℕ → Option String → DownloadsArgs
first_and_after n after = record {
  status = none;
  from = none;
  after = after;
  first = pos n;
  order = none;
}

-- `pageInfo.endCursor`
abbrev end_cursor : List Edge → Option String
end_cursor [] = none
end_cursor (e ∷ es) = elim es [ [] ↦ some e.cursor | _ ↦ end_cursor es ]

abbrev shows : Result Connection Error → (Connection → Bool) → Bool
shows (ok c) check = check c
shows (err e) check = false

unfoldable downloads_query_uses_cursor_for_next_page : Bool
unfolding query
downloads_query_uses_cursor_for_next_page = shows (query (first_and_after 2 none)) (λ first_data.
    elim (end_cursor first_data.edges) [
      | none ↦ false
      | some c ↦ shows (query (first_and_after 2 (some c))) (λ second_data.
          not second_data.has_next_page && elim second_data.edges [
            | e ∷ [] ↦ str_eq e.node.info_hash "ABCDEF1234567890ABCDEF1234567890ABCDEF12"
            | _ ↦ false
          ])
    ])

next_page : downloads_query_uses_cursor_for_next_page ≡ true
unfolding downloads_query_uses_cursor_for_next_page
next_page = refl

abbrev is_submitted : Graphql.DownloadStatus → Bool
is_submitted Graphql.DownloadStatus.submitted = true
is_submitted _ = false

unfoldable downloads_query_forwards_filters_and_sorting : Bool
unfolding query
downloads_query_forwards_filters_and_sorting =
    let args : DownloadsArgs = record {
      status = some Graphql.DownloadStatus.submitted;
      from = some (pos (20 * 10 ^ 9));
      after = none;
      first = pos 5;
      order = some Graphql.SortOrder.asc;
    } in
    shows (query args) (λ page. not page.has_next_page && elim page.edges [
      | e ∷ e2 ∷ [] ↦
          str_eq e.node.info_hash "FEDCBA0987654321FEDCBA0987654321FEDCBA09"
          && is_submitted e.node.status
          && str_eq e2.node.info_hash "1111111111111111111111111111111111111111"
          && is_submitted e2.node.status
      | _ ↦ false
    ])

filtered : downloads_query_forwards_filters_and_sorting ≡ true
unfolding downloads_query_forwards_filters_and_sorting
filtered = refl

abbrev is_too_large : ℕ → Result Connection Error → Bool
is_too_large n (err (first_cannot_be_greater_than m)) = m == n
is_too_large n _ = false

unfoldable downloads_query_rejects_page_size_over_maximum : Bool
unfolding query
downloads_query_rejects_page_size_over_maximum = is_too_large 100 (query (first_and_after 101 none))

over_maximum : downloads_query_rejects_page_size_over_maximum ≡ true
unfolding downloads_query_rejects_page_size_over_maximum
over_maximum = refl
