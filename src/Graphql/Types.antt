-- ===== src/Graphql/Types.antt =====
-- graphql/types.rs: the API's own enums and the record that it shows, with their conversions.
use magnarr.Prelude.{String, Option}
use magnarr.Types.Magnet.{Magnet}
use magnarr.Types.Download as D
use magnarr.Types.Download.{DateTime}
use magnarr.App.Repository as App

pub data DownloadStatus : Type 0 where
  queued submitted downloading importing imported failed : DownloadStatus

unfoldable pub from_domain : D.DownloadStatus → DownloadStatus
from_domain D.DownloadStatus.queued = queued
from_domain D.DownloadStatus.submitted = submitted
from_domain D.DownloadStatus.downloading = downloading
from_domain D.DownloadStatus.importing = importing
from_domain D.DownloadStatus.imported = imported
from_domain D.DownloadStatus.failed = failed

unfoldable pub into_domain : DownloadStatus → D.DownloadStatus
into_domain queued = D.DownloadStatus.queued
into_domain submitted = D.DownloadStatus.submitted
into_domain downloading = D.DownloadStatus.downloading
into_domain importing = D.DownloadStatus.importing
into_domain imported = D.DownloadStatus.imported
into_domain failed = D.DownloadStatus.failed

pub data SortOrder : Type 0 where
  asc desc : SortOrder

unfoldable pub into_app : SortOrder → App.SortOrder
into_app asc = App.SortOrder.asc
into_app desc = App.SortOrder.desc

-- The resolvers of the object `Download`, as the fields of what a client sees.
pub record Download : Type 0 where
  pub info_hash : String
  pub name : String
  pub content_name : String
  pub magnet : Magnet
  pub status : DownloadStatus
  pub target_dir : String
  pub created_at : DateTime
  pub updated_at : DateTime
  pub imported_path : Option String
  pub error : Option String

unfoldable pub show : D.Download → Download
unfolding from_domain
show d = record {
  info_hash = d.info_hash;
  name = d.name;
  content_name = d.content_name;
  magnet = d.magnet;
  status = from_domain d.status;
  target_dir = d.target_dir;
  created_at = d.created_at;
  updated_at = d.updated_at;
  imported_path = d.imported_path;
  error = d.error;
}
