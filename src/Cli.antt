-- ===== src/Cli.antt =====
-- src/cli: the configuration of the program.
pub mod Config
pub mod Load
pub mod Host
pub mod Open
pub mod Init
pub mod Start
pub mod Arguments
