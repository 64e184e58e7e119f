-- ===== src/Lib.antt =====
-- Magnarr takes magnet links over a GraphQL API, keeps a record of each download in an embedded
-- store, hands it to a torrent client, and follows it in a polling loop until its files are there.
--
-- Prelude and its children: the names that the modules share, lists and tests over the native
-- numbers, Rust's `Result`, texts as code points, integers, and Unix paths.
--
-- Types (src/types): Types.Magnet is magnet.rs, Types.Download is download.rs and Types.Torrent is
-- torrent.rs. A magnet is parsed by `from_str` over the `url` crate's parser, which is the parameter
-- `UrlCrate`; the answer `none` is a panic of the slice behind the prefix. `to_lowercase` takes the
-- lower cases outside ASCII from a table, of which `IsCaseTable` says what Unicode's table has.
--
-- App (src/app): App.Repository is repository.rs, and App.Repository.Contract what its callers rely on:
-- a map from info hash to record. App.Torrent is torrent.rs, App.Errors is error.rs and App.Service is
-- service.rs. The methods of `App` in mod.rs act on the `World` of App.World, which holds the state of
-- the repository, that of the torrent client, and the number of readings of the clock that were taken:
-- App.Submit has `download`, App.Listing has `downloads` and App.Poll has `poll_downloads`. App.Import has
-- `import_downloads`, on the world and the tree of files of App.Files, which has `copy_recursive`;
-- App.Progress has a poll and an import as a round in which nothing goes wrong. App.Tasks has the running service: each call
-- of `download` and the task that `start` spawns as a state machine with one step per call of the
-- repository or of the client, with the records that it holds in between; the service's steps are those,
-- in any order, with the arrival of a call, the end of one that is dropped where it awaits, the end of a
-- copy or its panic, the timer, the token, a restart of the process, and changes of the torrents and the
-- files from outside. App.Tasks.Calls has the ends of the calls, and App.Tasks.Rounds relates the task to the methods. A
-- call of the repository or of the client is one step of the world, with its error as a value; logging
-- leaves no trace. An iterator is the list of what it yields, since a scan reads one snapshot of the store.
--
-- Store (src/store/download.rs): the repository over a collection of the `collette` crate, which is
-- the parameter `Collection` with the promises of Store.Promises. Store.Laws relates it to the
-- contract of App.Repository.Contract; Store.Listing, Store.Paging and Store.Shown put
-- App.Listing, App.Submit and Graphql.Schema on top of it.
--
-- Client (src/client): Client.Http is http.rs, with the session, the network and the login as the
-- record `HttpDeps`; Client.Qbittorrent is qbittorrent.rs over the parameter `Web`, which stands for
-- `reqwest` and `serde_json`. A function that holds the lock of the session is one step. Client.Http.Shared
-- has any number of calls of `with_auth` on one client, as state machines with one step per lock and per
-- request, interleaved in any order.
--
-- Graphql (src/graphql): Graphql.Types, Graphql.Scalars and Graphql.Schema are types.rs, scalars.rs and
-- schema.rs, and Graphql.Server is mod.rs with its routes, for requests with any number of fields of one
-- root: a mutation is given up at the first field that fails, as `async_graphql` does it. base64 and the values of `async_graphql`, which reads the request, are parameters.
--
-- Cli (src/cli): Cli.Config is config.rs with the records, defaults and paths, and Cli.Load has its
-- `load_config`, over the `config` crate as the parameter `ConfigCrate`, of which Cli.Load.Layers says what is
-- relied on. Cli.Arguments is mod.rs and version.rs, Cli.Init is init.rs and Cli.Start is start.rs, each
-- command a function on the machine, which is the parameter `Host` with its files, databases, listeners,
-- background task and server; Cli.Open is `DownloadStore::new` of
-- src/store/download.rs on it. `start` ends where it waits for the token. Paths are texts in UTF-8.
--
-- Tests: a collection with one slot that keeps the promises, a codec, a client and a network as
-- concrete functions, runs on them, and one application of each theorem below. Tests.Unit has the tests of
-- src/app/mod.rs, src/types, src/store/download.rs, src/graphql/schema.rs and src/cli/config.rs as Boolean
-- functions on the model, with that collection or a list of records in place of the store's file and tables
-- in place of the crates; two tests of app/mod.rs of a repository that records its calls, what the tests of
-- schema.rs assert of recorded calls, and the test that opens the store twice are left out.
--
-- Fuel: the client of Graphql.Schema.Pages that reads page after page has fuel for its pages, and any
-- fuel above the length of the listing is enough, since each page but the last has an entry.
-- `copy_recursive` has fuel for the depth of its calls, and any fuel above the height of the source is
-- enough where the source and the destination are apart.
--
-- Not modelled: the build files and the lists of modules, which have no logic of their own; the parser of
-- the command line, which is `clap`'s; links among the files.
pub mod Prelude
pub mod Types
pub mod App
pub mod Store
pub mod Client
pub mod Graphql
pub mod Cli
pub mod Tests
