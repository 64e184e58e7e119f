-- ===== src/App/Tasks/Edges.antt =====
-- The life of one record of app/mod.rs, as a graph of its statuses.
use magnarr.Prelude.{◌≡◌, ◌≢◌, ◌⊎◌, inl, inr, Option, none, some}
use magnarr.Types.Torrent.{TorrentState}
use magnarr.Types.Download.{Download, DownloadStatus, queued, submitted, downloading, importing}
use magnarr.Types.Download.{imported, failed}
use magnarr.App.Torrent.{TorrentClient}
use magnarr.App.Poll.{next_status}
use magnarr.App.Poll.Step.{IsPending, Life}
use magnarr.App.Import.{Site}
use magnarr.App.Import.Step.{Import, Finished}

-- The statuses that follow a status.
abbrev pub Next : DownloadStatus → DownloadStatus → Type 0
Next queued b = b ≡ submitted
Next submitted b = (b ≡ downloading) ⊎ (b ≡ importing) ⊎ (b ≡ failed)
Next downloading b = (b ≡ importing) ⊎ (b ≡ failed)
Next importing b = (b ≡ imported) ⊎ (b ≡ failed)
Next imported b = ⊥
Next failed b = ⊥

-- What a record keeps for its whole life.
pub record Kept (d d' : Download) : Type 0 where
  pub info_hash : d'.info_hash ≡ d.info_hash
  pub magnet : d'.magnet ≡ d.magnet
  pub target_dir : d'.target_dir ≡ d.target_dir
  pub created_at : d'.created_at ≡ d.created_at

-- What one step may make of the record of one info hash.
pub data Edge (o o' : Option Download) : Type 0 where
  stays : o' ≡ o → Edge o o'
  enters : (d : Download) → o ≡ none → o' ≡ some d → d.status ≡ queued → Edge o o'
  leaves :
      (d : Download) → o ≡ some d → (d.status ≡ queued) ⊎ IsPending d.status → o' ≡ none → Edge o o'
  moves :
      (d d' : Download)
      → o ≡ some d
      → o' ≡ some d'
      → Next d.status d'.status
      → Kept d d'
      → Edge o o'

Next-polled :
    (r : TorrentState) (a b : DownloadStatus) → IsPending a → b ≡ next_status r a → b ≢ a → Next a b
unfolding next_status
Next-polled r queued b (inl e) same ne = cc
Next-polled r queued b (inr e) same ne = cc
Next-polled r importing b (inl e) same ne = cc
Next-polled r importing b (inr e) same ne = cc
Next-polled r imported b (inl e) same ne = cc
Next-polled r imported b (inr e) same ne = cc
Next-polled r failed b (inl e) same ne = cc
Next-polled r failed b (inr e) same ne = cc
Next-polled TorrentState.seeding submitted b pending same ne = inr (inl same)
Next-polled TorrentState.downloading submitted b pending same ne = inl same
Next-polled TorrentState.paused submitted b pending same ne = inl same
Next-polled TorrentState.error submitted b pending same ne = inr (inr same)
Next-polled TorrentState.unknown submitted b pending same ne = absurd (ne same)
Next-polled TorrentState.seeding downloading b pending same ne = inl same
Next-polled TorrentState.downloading downloading b pending same ne = absurd (ne same)
Next-polled TorrentState.paused downloading b pending same ne = absurd (ne same)
Next-polled TorrentState.error downloading b pending same ne = inr same
Next-polled TorrentState.unknown downloading b pending same ne = absurd (ne same)

-- The end of a call whose torrent is handed over.
pub Next-submitted : (a b : DownloadStatus) → a ≡ queued → b ≡ submitted → Next a b
Next-submitted queued b e st = st
Next-submitted submitted b e st = cc
Next-submitted downloading b e st = cc
Next-submitted importing b e st = cc
Next-submitted imported b e st = cc
Next-submitted failed b e st = cc

-- A poll's step of a record is an edge.
pub Life-Edge : (T : TorrentClient) (o o' : Option Download) → Life T o o' → Edge o o'
Life-Edge T o o' (inl same) = stays same
Life-Edge T o o' (inr (d, held, pending, inl (gone, _))) = leaves d held (inr pending) gone
Life-Edge T o o' (inr (d, held, pending, inr (d', now, fresh))) =
    let (info_hash, magnet, target_dir, created_at, _, _) = fresh.kept in
    moves d d' held now
      (Next-polled fresh.report.state d.status d'.status pending fresh.status fresh.moves)
      (record {
        info_hash = info_hash;
        magnet = magnet;
        target_dir = target_dir;
        created_at = created_at;
      })

Next-imported : (a b : DownloadStatus) → a ≡ importing → (b ≡ imported) ⊎ (b ≡ failed) → Next a b
Next-imported importing b e ends = ends
Next-imported queued b e ends = cc
Next-imported submitted b e ends = cc
Next-imported downloading b e ends = cc
Next-imported imported b e ends = cc
Next-imported failed b e ends = cc

ends_imported :
    (S : Site) (d d' : Download) → Finished S d d' → (d'.status ≡ imported) ⊎ (d'.status ≡ failed)
ends_imported S d d' fin = elim fin.outcome [ inl (e, _, _) ↦ inl e | inr (e, _, _) ↦ inr e ]

-- An import's step of a record is an edge.
pub Import-Edge : (S : Site) (o o' : Option Download) → Import S o o' → Edge o o'
Import-Edge S o o' (inl same) = stays same
Import-Edge S o o' (inr (d, d', held, st, now, fin)) =
    let (info_hash, magnet, _, _, target_dir, created_at) = fin.kept in
    moves d d' held now (Next-imported d.status d'.status st (ends_imported S d d' fin)) (record {
      info_hash = info_hash;
      magnet = magnet;
      target_dir = target_dir;
      created_at = created_at;
    })
