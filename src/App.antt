-- ===== src/App.antt =====
-- app/: the orchestrator over a repository and a torrent client, which are interfaces.
pub mod Repository
pub mod Torrent
pub mod Errors
pub mod World
pub mod Service
pub mod Listing
pub mod Submit
pub mod Poll
pub mod Files
pub mod Import
pub mod Tasks
pub mod Progress
