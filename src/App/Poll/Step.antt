-- ===== src/App/Poll/Step.antt =====
-- One round of the polling loop of app/mod.rs, as the life of the polled record.
use magnarr.Prelude.{String, ◌≡◌, ◌≢◌, ◌⊎◌, inl, inr, Bool-cases, arith, Option, none, some}
use magnarr.Prelude.{Result, ok, err, eq_iff, true, false, ◌∙◌, refl}
use magnarr.Types.Torrent.{TorrentStatus}
use magnarr.Types.Download.{DateTime, Download, DownloadStatus, downloading, submitted, status_eq}
use magnarr.App.Repository.{DownloadRepository, RepositoryError}
use magnarr.App.Repository.Contract.{Contract, put, Same, Writes, RemoveFails, UpdateFails}
use magnarr.App.Torrent.{TorrentClient, TorrentClientError, not_found, auth_failed}
use magnarr.App.Torrent.{unexpected_status, client_error}
use magnarr.App.World.{Deps, World}
use magnarr.App.Poll.{next_status, refreshed, apply_status, poll_download}

abbrev pub IsPending : DownloadStatus → Type 0
IsPending st = (st ≡ downloading) ⊎ (st ≡ submitted)

-- The client has answered `r` when asked for `h`.
abbrev pub Reports : TorrentClient → String → Result TorrentStatus TorrentClientError → Type 0
Reports T h r = (s : T.State) × ((T.status h s).0 ≡ r)

-- `d'` is `d` after a report: a new status and the reported names, and nothing else but the time.
pub record Refreshed (T : TorrentClient) (d d' : Download) : Type 0 where
  pub report : TorrentStatus
  pub reported : Reports T d.info_hash (ok report)
  pub moves : d'.status ≢ d.status
  pub status : d'.status ≡ next_status report.state d.status
  pub names : (d'.name ≡ report.name) × (d'.content_name ≡ report.content_name)
  pub kept :
      (d'.info_hash ≡ d.info_hash)
      × (d'.magnet ≡ d.magnet)
      × (d'.target_dir ≡ d.target_dir)
      × (d'.created_at ≡ d.created_at)
      × (d'.imported_path ≡ d.imported_path)
      × (d'.error ≡ d.error)

-- What a poll may do to the record `o` of one info hash: leave it; or, if it is pending, remove it
-- when the client does not know the torrent, or refresh it by a report of another status.
abbrev pub Life : TorrentClient → Option Download → Option Download → Type 0
Life T o o' =
    (o' ≡ o)
    ⊎ ((d : Download) × (o ≡ some d)
        × IsPending d.status
        × (((o' ≡ none) × ((m : String) × Reports T d.info_hash (err (not_found m))))
            ⊎ ((d' : Download) × (o' ≡ some d') × Refreshed T d d')))

-- What the answer `r` about `d` makes of its record, unless the repository refuses the write.
abbrev pub Settles :
    DownloadRepository
    → Download
    → Result TorrentStatus TorrentClientError
    → Option Download
    → Type 0
Settles R d (ok ts) o =
    ((next_status ts.state d.status ≡ d.status) × (o ≡ some d))
    ⊎ ((t : DateTime) × (o ≡ some (refreshed t ts (next_status ts.state d.status) d)))
    ⊎ (UpdateFails R d.info_hash × (o ≡ some d))
Settles R d (err (not_found m)) o = (o ≡ none) ⊎ (RemoveFails R d.info_hash × (o ≡ some d))
Settles R d (err _) o = o ≡ some d

-- The client was asked about `d`, and its answer was settled.
abbrev pub Settled : Deps → Download → Option Download → Type 0
Settled A d o =
    (r : Result TorrentStatus TorrentClientError) × Reports A.T d.info_hash r × Settles A.R d r o

module _ (A : Deps) (C : Contract A.R) where
  -- After the round the map differs at the polled info hash at most, and there by a `Life` step.
  pub record Round (d : Download) (w w' : World A) : Type 0 where
    pub at : Life A.T (C.view w.repository d.info_hash) (C.view w'.repository d.info_hash)
    pub settled : Settled A d (C.view w'.repository d.info_hash)
    pub elsewhere : (h : String) → h ≢ d.info_hash → C.view w'.repository h ≡ C.view w.repository h

  module _ (d : Download) (w w' : World A) (held : C.view w.repository d.info_hash ≡ some d)
      (pending : IsPending d.status) where
    Same-Round :
        (r : Result TorrentStatus TorrentClientError)
        → Reports A.T d.info_hash r
        → (C.view w'.repository d.info_hash ≡ some d
            → Settles A.R d r (C.view w'.repository d.info_hash))
        → Same (C.view w.repository) (C.view w'.repository)
        → Round d w w'
    Same-Round r told settles same = record {
      at = inl (same d.info_hash);
      settled = (r, told, settles (same d.info_hash ∙ held));
      elsewhere = λ h _. same h;
    }

    removed-Round :
        (m : String) (s : A.R.State) (r : Result (Unit {0}) RepositoryError)
        → Reports A.T d.info_hash (err (not_found m))
        → (A.R.remove d.info_hash s).0 ≡ r
        → Writes
            (C.view w.repository)
            (put d.info_hash none (C.view w.repository))
            (C.view w'.repository)
            r
        → Round d w w'
    removed-Round m s (err e) told call same =
        Same-Round (err (not_found m)) told (λ o. inr ((s, λ fine. cc), o)) same
    removed-Round m s (ok _) told call write =
        let gone : C.view w'.repository d.info_hash ≡ none =
          ground (arith, write d.info_hash, eq_iff d.info_hash d.info_hash) in
        record {
          at = inr (d, held, pending, inl (gone, (m, told)));
          settled = (err (not_found m), told, inl gone);
          elsewhere = λ h ne. ground (arith, write h, eq_iff h d.info_hash);
        }

    updated-Round :
        (t : DateTime) (ts : TorrentStatus) (s : A.R.State) (r : Result (Unit {0}) RepositoryError)
        → let d' = refreshed t ts (next_status ts.state d.status) d in
          Reports A.T d.info_hash (ok ts)
          → Refreshed A.T d d'
          → (A.R.update d' s).0 ≡ r
          → Writes
              (C.view w.repository)
              (put d.info_hash (some d') (C.view w.repository))
              (C.view w'.repository)
              r
          → Round d w w'
    unfolding refreshed
    updated-Round t ts s (err e) told moved call same =
        Same-Round (ok ts) told
          (λ o.
            inr (inr ((refreshed t ts (next_status ts.state d.status) d, s, refl, λ fine. cc), o)))
          same
    updated-Round t ts s (ok _) told moved call write =
        let now : C.view w'.repository d.info_hash
            ≡ some (refreshed t ts (next_status ts.state d.status) d) =
          ground (arith, write d.info_hash, eq_iff d.info_hash d.info_hash) in
        record {
          at = inr (d, held, pending, inr (_, now, moved));
          settled = (ok ts, told, inr (inl (t, now)));
          elsewhere = λ h ne. ground (arith, write h, eq_iff h d.info_hash);
        }

  status_eq-true : (a b : DownloadStatus) → status_eq a b ≡ true → a ≡ b
  unfolding status_eq
  status_eq-true a b e = ground arith

  status_eq-false : (a b : DownloadStatus) → status_eq a b ≡ false → a ≢ b
  unfolding status_eq
  status_eq-false a b h e = ground arith

  pub apply_status-Round :
      (d : Download) (r : Result TorrentStatus TorrentClientError) (w : World A)
      → C.view w.repository d.info_hash ≡ some d
      → IsPending d.status
      → Reports A.T d.info_hash r
      → Round d w (apply_status A d r w)
  unfolding apply_status
  apply_status-Round d (ok ts) w held pending told =
      elim (Bool-cases (status_eq (next_status ts.state d.status) d.status)) [
        | inl same ↦
            rw (same, apply_status)
              (Same-Round d w w held pending (ok ts) told (λ o. inl (status_eq-true _ _ same, o))
                (λ h. refl))
        | inr moved ↦
            rw (moved, apply_status)
              (updated-Round d w _ held pending (A.reading w.ticks) ts w.repository _ told
                (record {
                  report = ts;
                  reported = told;
                  moves = status_eq-false _ _ moved;
                  status = refl;
                  names = (refl, refl);
                  kept = (refl, refl, refl, refl, refl, refl);
                })
                refl (C.update_writes _ w.repository))
      ]
  apply_status-Round d (err (not_found m)) w held pending told =
      removed-Round d w _ held pending m w.repository _ told refl
        (C.remove_writes d.info_hash w.repository)
  apply_status-Round d (err (auth_failed c)) w held pending told =
      Same-Round d w w held pending (err (auth_failed c)) told (λ o. o) (λ h. refl)
  apply_status-Round d (err (unexpected_status c)) w held pending told =
      Same-Round d w w held pending (err (unexpected_status c)) told (λ o. o) (λ h. refl)
  apply_status-Round d (err (client_error c)) w held pending told =
      Same-Round d w w held pending (err (client_error c)) told (λ o. o) (λ h. refl)

  -- The round of a pending record that is stored as the loop knows it.
  pub poll_download-Round :
      (d : Download) (w : World A)
      → C.view w.repository d.info_hash ≡ some d
      → IsPending d.status
      → Round d w (poll_download A d w)
  unfolding poll_download
  poll_download-Round d w held pending =
      let answered : World A = record w {
        torrent_client = (A.T.status d.info_hash w.torrent_client).1;
      } in
      let round = apply_status-Round d _ answered held pending (w.torrent_client, refl) in
      record { at = round.at; settled = round.settled; elsewhere = round.elsewhere }
