-- ===== src/Types/Torrent.antt =====
-- types/torrent.rs: what a torrent client reports of a torrent.
use magnarr.Prelude.{String}

pub data TorrentState : Type 0 where
  downloading seeding paused error unknown : TorrentState

pub record TorrentStatus : Type 0 where
  pub hash : String
  pub state : TorrentState
  pub name : String
  pub content_name : String
