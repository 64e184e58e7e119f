-- ===== src/Tests/Requests.antt =====
-- A request to the server (graphql/mod.rs), and the witness of what is proved of requests.
use magnarr.Prelude.{◌⊎◌, String, [], ◌∷◌}
use magnarr.App.Listing.{app_service}
use magnarr.Graphql.Server.{Operation, post, mutation, serve}
use magnarr.Graphql.Server.Laws.{Mutated, Unchanged, serve-Submits}
use magnarr.Tests.Links.{url, table, value}
use magnarr.Tests.Fixtures.{deps, link, empty_world}
use magnarr.Tests.Api.{base64}

-- Two downloads in one request.
abbrev two_fields : Operation String
two_fields = mutation (
    record { magnet = link; target_dir = "/shows" }
    ∷ record { magnet = link; target_dir = "/films" }
    ∷ [])

serve-Submits_example :
    Mutated url table value base64
      (app_service deps)
      50
      "/graphql"
      post
      two_fields
      empty_world
      (serve url table value base64 (app_service deps) 50 "/graphql" post two_fields empty_world).1
    ⊎ Unchanged url table value base64
        (app_service deps)
        50
        "/graphql"
        post
        two_fields
        empty_world
        (serve url table value base64
          (app_service deps)
          50
          "/graphql"
          post
          two_fields
          empty_world).1
serve-Submits_example =
    serve-Submits url table value base64 (app_service deps) 50 "/graphql" post two_fields
      empty_world
