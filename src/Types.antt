-- ===== src/Types.antt =====
-- types/: the values that the other parts exchange.
pub mod Magnet
pub mod Download
pub mod Torrent
