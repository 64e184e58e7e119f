-- ===== src/App/Tasks/Effects.antt =====
-- What one step of a call of `App::download` (app/mod.rs) does to the records.
use magnarr.Prelude.{String, ◌≡◌, refl, ◌≢◌, ◌⊎◌, inl, inr, Option, none, some, Result, ok, err}
use magnarr.Prelude.{arith, eq_iff, subst, ◌∙◌, Bool-cases, str_eq, sym, ap}
use magnarr.Types.Magnet.{Magnet}
use magnarr.Types.Download.{Download, queued, submitted, new, touch}
use magnarr.App.Repository.{RepositoryError}
use magnarr.App.Errors.{AppError}
use magnarr.App.Repository.Contract.{Contract, View, put, Same, Writes}
use magnarr.App.Torrent.{TorrentClientError}
use magnarr.App.World.{Deps, World}
use magnarr.App.Tasks.{Call, owner, idle, arrived, absent, waiting, accepted, refused, returned}
use magnarr.App.Tasks.{looked_up, inserted, answered, updated, advance}
use mathlib.Core.Option.{some-injective}
use magnarr.App.Tasks.Edges.{Edge, Kept, Next-submitted, stays, enters, leaves, moves}

-- How a call ends with its record `d`: it is handed over, or removed again.
abbrev pub Settled : Download → Option Download → Type 0
Settled d o = (o ≡ none) ⊎ ((d' : Download) × (o ≡ some d') × (d'.status ≡ submitted) × Kept d d')

-- From the map `v` and the call `c` to `w` and `c'`: nothing is written, a record is inserted for the
-- call to own, or the record that it owns is settled.
pub data Effect (v w : View) (c c' : Call) : Type 0 where
  keeps : Same v w → (owner c' ≡ none) ⊎ (owner c' ≡ owner c) → Effect v w c c'
  inserts :
      (d : Download)
      → d.status ≡ queued
      → v d.info_hash ≡ none
      → Same (put d.info_hash (some d) v) w
      → owner c' ≡ some d
      → Effect v w c c'
  settles :
      (d : Download) (o : Option Download)
      → owner c ≡ some d
      → owner c' ≡ none
      → Settled d o
      → Same (put d.info_hash o v) w
      → Effect v w c c'

looked_up-owner :
    (magnet : Magnet) (target_dir : String) (r : Result (Unit {0}) AppError)
    → owner (looked_up magnet target_dir r) ≡ none
unfolding looked_up
looked_up-owner magnet target_dir (ok _) = refl
looked_up-owner magnet target_dir (err e) = refl

answered-owner :
    (d : Download) (r : Result (Unit {0}) TorrentClientError) → owner (answered d r) ≡ some d
unfolding answered
answered-owner d (ok _) = refl
answered-owner d (err e) = refl

updated-owner : (d : Download) (r : Result (Unit {0}) RepositoryError) → owner (updated d r) ≡ none
unfolding updated
updated-owner d (ok _) = refl
updated-owner d (err e) = refl

module _ (v w : View) where
  inserted-Effect :
      (c : Call) (d : Download) (r : Result (Unit {0}) RepositoryError)
      → d.status ≡ queued
      → (r ≡ ok tt → v d.info_hash ≡ none)
      → Writes v (put d.info_hash (some d) v) w r
      → Effect v w c (inserted d r)
  unfolding inserted
  inserted-Effect c d (ok _) fresh vacant write = inserts d fresh (vacant refl) write refl
  inserted-Effect c d (err e) fresh vacant write = keeps write (inl refl)

  -- The write that ends a call, with the record `o` that it puts.
  closing-Effect :
      (c c' : Call) (d : Download) (o : Option Download) (r : Result (Unit {0}) RepositoryError)
      → owner c ≡ some d
      → owner c' ≡ none
      → Settled d o
      → Writes v (put d.info_hash o v) w r
      → Effect v w c c'
  closing-Effect c c' d o (ok _) mine none_left end write = settles d o mine none_left end write
  closing-Effect c c' d o (err e) mine none_left end write = keeps write (inl none_left)

module _ (A : Deps) (C : Contract A.R) where
  pub advance-Effect :
      (c : Call) (w : World A)
      → Effect (C.view w.repository) (C.view (advance A c w).1.repository) c (advance A c w).0
  unfolding advance new touch
  advance-Effect idle w = keeps (λ h. refl) (inl refl)
  advance-Effect (arrived magnet target_dir) w =
      keeps (λ h. refl) (inl (looked_up-owner magnet target_dir _))
  advance-Effect (absent magnet target_dir) w =
      let d = new (A.reading w.ticks) magnet target_dir in
      inserted-Effect _ _ _ d _ refl (C.insert_fresh d w.repository)
        (C.insert_writes d w.repository)
  advance-Effect (waiting d) w = keeps (λ h. refl) (inr (answered-owner d _))
  advance-Effect (accepted d) w =
      let d' : Download = record d { status = submitted; updated_at = A.reading w.ticks } in
      closing-Effect _ _ _ _ d (some d') _ refl (updated-owner d' _)
        (inr (
          d',
          refl,
          refl,
          record { info_hash = refl; magnet = refl; target_dir = refl; created_at = refl },
        ))
        (C.update_writes d' w.repository)
  advance-Effect (refused d e) w =
      closing-Effect _ _ _ _ d none _ refl refl (inl refl)
        (C.remove_writes d.info_hash w.repository)
  advance-Effect (returned r) w = keeps (λ h. refl) (inl refl)

module _ (v w : View) (c c' : Call)
    (held : (d : Download)
      → owner c ≡ some d
      → (v d.info_hash ≡ some d) × (d.status ≡ queued)) where
  put-Edge :
      (h k : String) (o : Option Download) → Same (put k o v) w → Edge (v k) o → Edge (v h) (w h)
  put-Edge h k o same edge = elim (Bool-cases (str_eq h k)) [
    | inl here ↦
        let e = (eq_iff h k).0 here in
        subst (λ x. Edge x (w h)) (ap v (sym e))
          (subst (Edge (v k)) (sym (ground (arith, same h))) edge)
    | inr there ↦ stays (ground (arith, same h))
  ]

  pub Effect-Edge : Effect v w c c' → (h : String) → Edge (v h) (w h)
  Effect-Edge (keeps same _) h = stays (same h)
  Effect-Edge (inserts d fresh vacant same _) h =
      put-Edge h d.info_hash (some d) same (enters d vacant refl fresh)
  Effect-Edge (settles d o mine _ (inl gone) same) h =
      put-Edge h d.info_hash o same (leaves d (held d mine).0 (inl (held d mine).1) gone)
  Effect-Edge (settles d o mine _ (inr (d', now, st, kept)) same) h =
      put-Edge h d.info_hash o same
        (moves d d' (held d mine).0 now (Next-submitted d.status d'.status (held d mine).1 st) kept)

  -- A record that the call does not own is not touched.
  pub Effect-others :
      Effect v w c c'
      → (e : Download) → v e.info_hash ≡ some e
      → owner c ≢ some e
      → w e.info_hash ≡ some e
  Effect-others (keeps same _) e at other = same e.info_hash ∙ at
  Effect-others (inserts d st vacant same mine) e at other =
      ground (arith, same e.info_hash, eq_iff e.info_hash d.info_hash)
  Effect-others (settles d o mine done end same) e at other =
      elim (Bool-cases (str_eq e.info_hash d.info_hash)) [
        | inl here ↦
            let k = (eq_iff e.info_hash d.info_hash).0 here in
            let is_e = sym (held d mine).0 ∙ ap v (sym k) ∙ at in absurd (other (mine ∙ is_e))
        | inr there ↦ ground (arith, same e.info_hash, there, at)
      ]

  -- Nor does the call come to own it.
  pub Effect-free :
      Effect v w c c'
      → (e : Download) → v e.info_hash ≡ some e
      → owner c ≢ some e
      → owner c' ≢ some e
  Effect-free (keeps _ (inl done)) e at other mine = cc
  Effect-free (keeps _ (inr as_before)) e at other mine = other (sym as_before ∙ mine)
  Effect-free (inserts d st vacant _ mine') e at other mine =
      let is_d = some-injective d e (sym mine' ∙ mine) in
      let gone = ap (λ (x : Download). v x.info_hash) (sym is_d) ∙ vacant in cc
  Effect-free (settles d o _ done _ _) e at other mine = cc
