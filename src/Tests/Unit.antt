-- ===== src/Tests/Unit.antt =====
-- The repository's own tests, as Boolean functions on the model, each with the proof that it holds.
mod Orchestration
mod Importing
mod Parsing
mod Loading
pub mod Mock
mod Querying
pub mod Shelf
mod Storing
mod Scanning
pub mod Doubles
