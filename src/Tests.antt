-- ===== src/Tests.antt =====
-- Concrete instances, runs and witnesses.
mod Slot
mod Fixtures
mod Links
mod Orchestrator
mod Network
mod Sessions
mod Api
mod Shown
mod Requests
mod Unit
mod Imports
mod Tasks
mod Progress
mod Settings
mod Sources
mod Commands
