-- ===== src/Client.antt =====
-- client/: the qBittorrent client and the authenticated HTTP session that it runs on.
pub mod Http
pub mod Qbittorrent
