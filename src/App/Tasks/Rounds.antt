-- ===== src/App/Tasks/Rounds.antt =====
-- The background task of app/mod.rs when no call comes between: the steps of a round, put together.
use magnarr.Prelude.{ℕ, ◌≡◌, Bool}
use magnarr.Prelude.{Option, List, Result, ok, err}
use magnarr.Types.Download.{Download}
use magnarr.App.Repository.{RepositoryError}
use magnarr.App.World.{Deps, World}
use magnarr.App.Files.{Node}
use magnarr.App.Poll.{poll_each}
use magnarr.App.Import.{Site}
use magnarr.App.Repository.Contract.{Contract}
use magnarr.App.Tasks.{Call, Loop}
use magnarr.App.Tasks.{resting, Service, Own}
use mathlib.Core.Option

module _ (S : Site) (A : Deps) where
  -- What the task reaches by its own steps alone.
  pub data Alone (a : Service A) : Service A → Type 0 where
    still : Alone a a
    further : {b c : Service A} → Alone a b → Own S A b c → Alone a c

module _ (S : Site) (A : Deps) (calls : ℕ → Call) (cancelled : Bool) where
  -- The service with its task at `l`, over `w` and the files `root`.
  abbrev pub at : Node → Loop → World A → Service A
  at root l w = record { world = w; root = root; calls = calls; loop = l; cancelled = cancelled }

  abbrev Run : Node → Loop → World A → Node → Loop → World A → Type 0
  Run root l w root' l' w' = Alone S A (at root l w) (at root' l' w')

  module _ (root : Node) where
    abbrev polled : Result (List Download) RepositoryError → World A → World A
    polled r w = elim r [ ok pending ↦ poll_each A pending w | err e ↦ w ]

  module _ (fuel : ℕ) (asked : (n : ℕ) → S.cancelled n ≡ cancelled) where
    abbrev Ends : Loop → World A → Node → World A × Node → Type 0
    Ends l w root end = Run root l w end.1 resting end.0
