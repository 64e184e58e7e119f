-- ===== src/App/Tasks/Laws.antt =====
-- What the tasks of app/mod.rs do to the records together, in every interleaving.
use magnarr.Prelude.{
  update, update-cases, ℕ, String, ◌≡◌, refl, ◌≢◌, ◌⊎◌, inl, inr, sym, ap, subst, ◌∙◌, none, some,
  Option,
}
use magnarr.Types.Download.{Download, DownloadStatus, queued, imported, failed}
use magnarr.App.Repository.Contract.{Contract, View}
use magnarr.App.World.{Deps}
use magnarr.App.Import.{Site, concluded}
use magnarr.App.Tasks.{Call, owner, idle, Loop, scanning, concluding, panicked}
use magnarr.App.Tasks.{Service, Step, arrives, advances, drops, works, turns, copies, panics, wakes}
use magnarr.App.Tasks.{
  stops, cancels, restarts, outside, Reach, start, later, Reach-trans, IsStarted,
}
use magnarr.App.Tasks.Edges.{Edge, Next, stays, enters, leaves, moves}
use magnarr.App.Tasks.Effects.{
  Effect, keeps, advance-Effect, Effect-Edge, Effect-others, Effect-free,
}
use magnarr.App.Tasks.Due.{Knows}
use magnarr.App.Tasks.Sweeps.{Sweep, still, turn-Sweep, concluded-copied, panicked-Finished}
use magnarr.App.Tasks.Invariant.{Inv, swept-Inv, Effect-Inv, started-Inv}
use mathlib.Core.Option.{some-injective}
use magnarr.App.Poll.Step.{IsPending}

unpolled :
    (d : Download)
    → (d.status ≡ imported) ⊎ (d.status ≡ failed)
    → ¬ ((d.status ≡ queued) ⊎ IsPending d.status)
unpolled d (inl e) (inl p) = cc
unpolled d (inl e) (inr (inl p)) = cc
unpolled d (inl e) (inr (inr p)) = cc
unpolled d (inr e) (inl p) = cc
unpolled d (inr e) (inr (inl p)) = cc
unpolled d (inr e) (inr (inr p)) = cc

settled_for_good :
    (d : Download) (st : DownloadStatus)
    → (d.status ≡ imported) ⊎ (d.status ≡ failed)
    → ¬ Next d.status st
settled_for_good d st (inl e) next = subst (λ x. Next x st) e next
settled_for_good d st (inr e) next = subst (λ x. Next x st) e next

Edge-finished :
    (o o' : Option Download) (d : Download)
    → (d.status ≡ imported) ⊎ (d.status ≡ failed)
    → Edge o o'
    → o ≡ some d
    → o' ≡ some d
Edge-finished o o' d done (stays same) held = same ∙ held
Edge-finished o o' d done (enters e none_there _ _) held = cc
Edge-finished o o' d done (leaves e at pending _) held = absurd (
    unpolled d done (
      subst (λ (x : Download). (x.status ≡ queued) ⊎ IsPending x.status)
        (some-injective e d (sym at ∙ held)) pending))
Edge-finished o o' d done (moves e e' at _ next _) held = absurd (
    settled_for_good d e'.status done
      (subst (λ (x : Download). Next x.status e'.status) (some-injective e d (sym at ∙ held)) next))

module _ (S : Site) (A : Deps) where
  -- A step as its task sees it: a call's, the background task's, or a new start.
  data Change (v : View) (calls : ℕ → Call) (l : Loop) : View → (ℕ → Call) → Loop → Type 0 where
    called :
        (w : View) (i : ℕ) (c : Call)
        → Effect v w (calls i) c
        → Change v calls l w (update calls i c) l
    swept : (w : View) (l' : Loop) → Sweep S A v w l' → Change v calls l w calls l'
    restarted :
        (none_left : ℕ → Call)
        → ((i : ℕ) → none_left i ≡ idle)
        → Change v calls l v none_left scanning

  Change-Inv :
      (v w : View) (calls calls' : ℕ → Call) (l l' : Loop)
      → Inv S A v calls l
      → Change v calls l w calls' l'
      → Inv S A w calls' l'
  Change-Inv v w calls calls' l l' inv (called _ i c effect) =
      Effect-Inv S A v calls l inv w i c effect
  Change-Inv v w calls calls' l l' inv (swept _ _ sweep) = swept-Inv S A v calls l inv w l' sweep
  Change-Inv v w calls calls' l l' inv (restarted _ no_call) = started-Inv S A v calls' no_call

  Change-Edge :
      (v w : View) (calls calls' : ℕ → Call) (l l' : Loop)
      → Inv S A v calls l
      → Change v calls l w calls' l'
      → (h : String) → Edge (v h) (w h)
  Change-Edge v w calls calls' l l' inv (called _ i c effect) h =
      Effect-Edge v w (calls i) c (inv.held i) effect h
  Change-Edge v w calls calls' l l' inv (swept _ _ sweep) h = sweep.edges h
  Change-Edge v w calls calls' l l' inv (restarted _ no_call) h = stays refl

  module _ (C : Contract A.R) where
    -- The invariant, of a service.
    abbrev pub IsSound : Service A → Type 0
    IsSound a = Inv S A (C.view a.world.repository) a.calls a.loop

    abbrev Changes : Service A → Service A → Type 0
    Changes a b =
        Change (C.view a.world.repository) a.calls a.loop (C.view b.world.repository) b.calls b.loop

    freed :
        (a : Service A) (i : ℕ) (c : Call)
        → owner c ≡ none
        → Changes a (record a { calls = update a.calls i c })
    freed a i c done = called _ i c (keeps (λ h. refl) (inl done))

    -- Where the background task goes on without a write.
    passes :
        (a : Service A) (l : Loop)
        → Knows S A (C.view a.world.repository) l
        → Changes a (record a { loop = l })
    passes a l knows = swept _ l (still S A _ _ l (λ h. refl) knows)

    Step-Change : (a b : Service A) → IsSound a → Step S A a b → Changes a b
    Step-Change a b sound (arrives i magnet target_dir _) = freed a i _ refl
    Step-Change a b sound (advances i) = called _ i _ (advance-Effect A C (a.calls i) a.world)
    Step-Change a b sound (drops i d _) = freed a i idle refl
    Step-Change a b sound (works turns) =
        swept _ _ (turn-Sweep S A C a.cancelled a.loop a.world sound.knows)
    Step-Change a b sound (works (copies fuel d ds at {end} _)) =
        passes a (concluding (concluded S end.0 d) ds)
          (d, subst (Knows S A _) at sound.knows, concluded-copied S A C end.0 d)
    Step-Change a b sound (panics message d ds at) =
        passes a (concluding (panicked message d) ds)
          (d, subst (Knows S A _) at sound.knows, panicked-Finished S A message d)
    Step-Change a b sound (wakes _) = passes a scanning tt
    Step-Change a b sound (stops _ _) = passes a _ tt
    Step-Change a b sound cancels = passes a a.loop sound.knows
    Step-Change a b sound restarts = restarted (λ _. idle) (λ i. refl)
    Step-Change a b sound (outside s root) = passes a a.loop sound.knows

    -- Whatever the calls and the background task of a service do, in any order: each call that has
    -- inserted a record and not settled it finds it stored as it inserted it; no two such calls have the
    -- same info hash; and what the background task has read and not yet written is stored as it read it.
    pub Reach-IsSound : (a b : Service A) → IsStarted S A a → Reach S A a b → IsSound b
    Reach-IsSound a b new start =
        subst (Inv S A _ a.calls) (sym new.first) (started-Inv S A _ a.calls new.no_call)
    Reach-IsSound a b new (later {b = m} before step) =
        let sound = Reach-IsSound a m new before in
        Change-Inv _ _ _ _ _ _ sound (Step-Change m b sound step)

    Step-Edge :
        (a b : Service A)
        → IsSound a
        → Step S A a b
        → (h : String) → Edge (C.view a.world.repository h) (C.view b.world.repository h)
    Step-Edge a b sound step = Change-Edge _ _ _ _ _ _ sound (Step-Change a b sound step)

    -- Each step of a service that has been started, in whatever order its calls and its background task
    -- are interleaved, takes each record along an edge of the graph of the statuses, or leaves it: a
    -- record enters as `Queued` where there was none; it goes from `Queued` to `Submitted`, from there
    -- and from `Downloading` as the torrents are reported, and from `Importing` to `Imported` or
    -- `Failed`, with its info hash, magnet, target directory and time of creation kept; and it is removed
    -- only where it is `Queued`, `Submitted` or `Downloading`.
    pub Reach-Edge :
        (a b c : Service A) (h : String)
        → IsStarted S A a
        → Reach S A a b
        → Step S A b c
        → Edge (C.view b.world.repository h) (C.view c.world.repository h)
    Reach-Edge a b c h new before step = Step-Edge b c (Reach-IsSound a b new before) step h

    -- A record that is `Imported` or `Failed` is never changed or removed again, in whatever order the
    -- calls and the background task of a started service are interleaved.
    pub Reach-finished :
        (a b c : Service A) (h : String) (d : Download)
        → IsStarted S A a
        → Reach S A a b
        → Reach S A b c
        → (d.status ≡ imported) ⊎ (d.status ≡ failed)
        → C.view b.world.repository h ≡ some d
        → C.view c.world.repository h ≡ some d
    Reach-finished a b c h d new before start done held = held
    Reach-finished a b c h d new before (later {b = m} on step) done held =
        Edge-finished _ _ d done
          (Step-Edge m c (Reach-IsSound a m new (Reach-trans S A a b m before on)) step h)
          (Reach-finished a b m h d new before on done held)

    -- The record is stored as `d`, and no call owns it.
    abbrev pub Orphan : Download → Service A → Type 0
    Orphan d a =
        (C.view a.world.repository d.info_hash ≡ some d) × ((i : ℕ) → owner (a.calls i) ≢ some d)

    Change-Orphan :
        (d : Download) (v w : View) (calls calls' : ℕ → Call) (l l' : Loop)
        → Inv S A v calls l
        → Change v calls l w calls' l'
        → d.status ≡ queued
        → (v d.info_hash ≡ some d) × ((i : ℕ) → owner (calls i) ≢ some d)
        → (w d.info_hash ≡ some d) × ((i : ℕ) → owner (calls' i) ≢ some d)
    Change-Orphan d v w calls calls' l l' inv (called _ i c effect) st (at, free) = (
      Effect-others v w (calls i) c (inv.held i) effect d at (free i),
      λ j mine. elim (update-cases calls i c j) [
        | inl (_, e) ↦
            Effect-free v w (calls i) c (inv.held i) effect d at (free i) (ap owner (sym e) ∙ mine)
        | inr (_, e) ↦ free j (ap owner (sym e) ∙ mine)
      ],
    )
    Change-Orphan d v w calls calls' l l' inv (swept _ _ sweep) st (at, free) =
        (sweep.queued_kept d at st, free)
    Change-Orphan d v w calls calls' l l' inv (restarted _ no_call) st (at, free) =
        (at, λ i mine. let e = ap owner (no_call i) in cc)

    -- A record that is `Queued` and that no call under way owns stays as it is, in whatever order the
    -- calls and the background task of a started service are interleaved, and no call ever owns it.
    pub Reach-Orphan :
        (a b c : Service A) (d : Download)
        → IsStarted S A a
        → Reach S A a b
        → Reach S A b c
        → d.status ≡ queued
        → Orphan d b
        → Orphan d c
    Reach-Orphan a b c d new before start st orphan = orphan
    Reach-Orphan a b c d new before (later {b = m} on step) st orphan =
        let sound = Reach-IsSound a m new (Reach-trans S A a b m before on) in
        Change-Orphan d _ _ _ _ _ _ sound (Step-Change m c sound step) st
          (Reach-Orphan a b m d new before on st orphan)
