-- ===== src/App/Progress/Laws.antt =====
-- A round of the polling loop of app/mod.rs when nothing goes wrong: what a finished torrent becomes.
use magnarr.Prelude.{ℕ, suc, ◌≡◌, refl, ◌≢◌, inl, inr, sym, subst, ◌∙◌, ◌<◌, false}
use magnarr.Prelude.{Option, none, some, List, [], ◌∷◌, Result, ok, All, Any, >>=-eq-ok}
use magnarr.Types.Download.{Download, importing, touch}
use magnarr.App.Repository.{DownloadEntry, asc}
use magnarr.App.Repository.Contract.{Contract, View}
use magnarr.App.World.{Deps, World}
use magnarr.App.Files.{Node, IoError}
use magnarr.App.Files.Ends.{depth_of, copy_recursive-Ends}
use magnarr.App.Poll.{get_pending_downloads, poll_downloads}
use magnarr.App.Poll.Step.{IsPending}
use magnarr.App.Poll.Pending.{collect-map}
use magnarr.App.Import.{
  Site, source, destination, conclude, concluded, import_download, import_each,
}
use magnarr.App.Import.{get_importing, import_downloads}
use magnarr.App.Import.Step.{Finished, Queue, Queue-tail, conclude-Round, concluded-Finished}
use magnarr.App.Import.Laws.{Waits, Apart, Fits, Ended, import_each-Ended, get_importing-Queue}
use mathlib.Core.Option
use magnarr.App.Progress.{Accepts, Seeds, Ready, accepted_write, poll_downloads-Ready}

module _ (A : Deps) (C : Contract A.R) (accepts : Accepts A.R C) where
  module _ (S : Site) where
    -- The import of one record writes its end.
    conclude-Finished :
        (r : Result (Unit {0}) IoError) (d : Download) (w : World A)
        → C.view w.repository d.info_hash ≡ some d
        → (d' : Download) × (C.view (conclude S A r d w).repository d.info_hash ≡ some d')
          × Finished S d d'
    unfolding conclude
    conclude-Finished r d w held =
        let d' = touch (A.reading w.ticks) (concluded S r d) in
        let fin = concluded-Finished S A C (A.reading w.ticks) r d in
        (
          d',
          accepted_write d d' _ _ _
              (accepts d' d w.repository
                (subst (λ h. C.view w.repository h ≡ some d) (sym fin.kept.0) held))
              fin.kept.0 (C.update_writes d' w.repository),
          fin,
        )

    -- The loop over a list with `d` has ended, and with it the import of `d`.
    abbrev Ran : Download → Option (World A × Node) → Type 0
    Ran d none = ⊥
    Ran d (some (w, root)) =
        (d' : Download) × (C.view w.repository d.info_hash ≡ some d') × Finished S d d'

    here-Ran :
        (d : Download) (ds : List Download) (v : View) (run : Option (World A × Node))
        → All (λ (e : Download). e.info_hash ≢ d.info_hash) ds
        → (d' : Download) × (v d.info_hash ≡ some d') × Finished S d d'
        → Ended S A C v ds run
        → Ran d run
    here-Ran d ds v none apart fin end = absurd end
    here-Ran d ds v (some (w, root)) apart (d', now, fin) end =
        (d', (end d.info_hash).1 apart ∙ now, fin)

    module _ (fuel : ℕ) (v : View) (apart : Apart S v)
        (going : (n : ℕ) → S.cancelled n ≡ false) where
      import_each-Ran :
          (n : ℕ) (d : Download) (ds : List Download) (w : World A) (root : Node)
          → Queue S A C (C.view w.repository) ds
          → All (Waits v) ds
          → Fits S v fuel root
          → Any (λ e. e ≡ d) ds
          → Ran d (import_each S A fuel n ds w root)
      unfolding import_each import_download Option.bind
      import_each-Ran n d [] w root q waits fits listed = absurd listed
      import_each-Ran n d (e ∷ ds) w root q waits fits listed =
          let (r, root', ran, f) =
            copy_recursive-Ends fuel (source S e) (destination S e) root (apart e e waits.0 waits.0)
              (fits e waits.0) in
          let q' =
            Queue-tail S A C e ds _ _ q (conclude-Round S A C r e w q.stored.0 q.importing_all.0) in
          let still : Fits S v fuel root' = λ x wx.
            subst (λ o. depth_of o < fuel) (sym (f (source S x) (apart x e wx waits.0)))
              (fits x wx) in
          let w' = conclude S A r e w in
          rw (going n, import_each, ran)
            (elim listed [
              | inl here ↦
                  subst (λ x. Ran x (import_each S A fuel (suc n) ds w' root')) here
                    (here-Ran e ds (C.view w'.repository) _ q.distinct.0
                      (conclude-Finished r e w q.stored.0)
                      (import_each-Ended S A C fuel v apart (suc n) ds w' root' q' waits.1 still))
              | inr later ↦ import_each-Ran (suc n) d ds w' root' q' waits.1 still later
            ])

      import_each-found :
          (d : Download) (ds : List Download) (w : World A) (root : Node)
          (run : Option (World A × Node))
          → import_each S A fuel 0 ds w root ≡ run
          → Ran d (import_each S A fuel 0 ds w root)
          → (w' : World A) × (root' : Node) × (run ≡ some (w', root'))
            × (d' : Download) × (C.view w'.repository d.info_hash ≡ some d')
            × Finished S d d'
      import_each-found d ds w root none e ran = absurd (subst (Ran d) e ran)
      import_each-found d ds w root (some (w', root')) e ran =
          let (d', now, fin) = subst (Ran d) e ran in (w', root', refl, d', now, fin)

    get_importing_complete :
        (s : A.R.State) (ds : List Download) (d : Download)
        → get_importing S A s ≡ ok ds
        → Waits (C.view s) d
        → Any (λ e. e ≡ d) ds
    unfolding get_importing
    get_importing_complete s ds d h waits =
        let (iter, ran, h1) = >>=-eq-ok (A.R.scan_by_status importing none asc s) _ h in
        let (es, collected, same) = collect-map (λ (e : DownloadEntry). e.download) iter ds h1 in
        subst (Any (λ e. e ≡ d)) (sym same) (
          (C.scan_by_status_lists importing asc s iter es ran collected).complete d waits.0 waits.1)

    -- A download that is `Submitted` or `Downloading`, and whose torrent the client reports as finished
    -- whenever it is asked, is `Imported` or `Failed` after one round of the polling loop, with the path of
    -- its copy or with an error, and its info hash, magnet and target directory kept; that is where the
    -- scans succeed, the repository refuses no update of a
    -- record that it holds, the token is not cancelled, no source is at, above
    -- or below a destination after the poll, and the fuel exceeds the heights of the sources.
    pub round-Finished :
        (fuel : ℕ) (w : World A) (root : Node) (ds es : List Download) (d : Download)
        → ((n : ℕ) → S.cancelled n ≡ false)
        → get_pending_downloads A w.repository ≡ ok ds
        → get_importing S A (poll_downloads A w).repository ≡ ok es
        → Apart S (C.view (poll_downloads A w).repository)
        → Fits S (C.view (poll_downloads A w).repository) fuel root
        → C.view w.repository d.info_hash ≡ some d
        → IsPending d.status
        → Seeds A.T d.info_hash
        → (w' : World A) × (root' : Node) × (import_downloads S A fuel (poll_downloads A w) root
            ≡ some (w', root'))
          × (e : Download) × (d' : Download) × Ready d e
          × (C.view w'.repository d.info_hash ≡ some d')
          × Finished S e d'
    unfolding import_downloads
    round-Finished fuel w root ds es d going scanned listed apart fits held pending seeds =
        let (e, now, ready) = poll_downloads-Ready A C accepts d ds w scanned held pending seeds in
        let stored : C.view (poll_downloads A w).repository e.info_hash ≡ some e =
          subst (λ h. C.view (poll_downloads A w).repository h ≡ some e) (sym ready.1) now in
        let (q, waits) = get_importing-Queue S A C _ es listed in
        let ran =
          import_each-Ran fuel _ apart going 0 e es (poll_downloads A w) root q waits fits
            (get_importing_complete _ es e listed (stored, ready.0)) in
        let (w', root', end, d', written, fin) =
          import_each-found fuel _ apart going e es (poll_downloads A w) root _ refl ran in
        (
          w',
          root',
          rw (listed, import_downloads) end,
          e,
          d',
          ready,
          subst (λ h. C.view w'.repository h ≡ some d') ready.1 written,
          fin,
        )
