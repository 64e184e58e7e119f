-- ===== src/App/Tasks/Invariant.antt =====
-- What holds at every moment of a running service of app/mod.rs, whatever its tasks do in between.
use magnarr.Prelude.{update, update-cases, ℕ, ◌≡◌, refl, ◌≢◌, ◌⊎◌, inl, inr, ◌∙◌, sym, ap, subst}
use magnarr.Prelude.{eq_iff, arith, ◌∷◌, none, some}
use magnarr.Types.Download.{Download, queued}
use magnarr.App.Repository.Contract.{View}
use magnarr.App.World.{Deps}
use magnarr.App.Import.{Site}
use magnarr.App.Poll.Step.{IsPending}
use magnarr.App.Tasks.{Call, owner, idle, Loop, scanning, chaining, polling, settling}
use magnarr.App.Tasks.{listing, taking, copying, concluding, resting, stopped}
use magnarr.App.Tasks.Effects.{Effect, Effect-others, keeps, inserts, settles}
use magnarr.App.Tasks.Due.{Due-kept, IsPending-past, IsDownloading, IsImporting, Knows}
use magnarr.App.Tasks.Sweeps.{Sweep}
use mathlib.Core.Option.{some-injective}

-- Each record that a call owns is stored as the call knows it, and `Queued`; no two calls own one of the
-- same info hash; and the records that the background task has in hand are stored as it knows them.
pub record Inv (S : Site) (A : Deps) (v : View) (calls : ℕ → Call) (l : Loop) : Type 0 where
  pub held :
      (i : ℕ) (d : Download)
      → owner (calls i) ≡ some d
      → (v d.info_hash ≡ some d) × (d.status ≡ queued)
  pub unique :
      (i j : ℕ) (d e : Download)
      → owner (calls i) ≡ some d
      → owner (calls j) ≡ some e
      → d.info_hash ≡ e.info_hash
      → i ≡ j
  pub knows : Knows S A v l

module _ (S : Site) (A : Deps) (v : View) where
  Knows-kept :
      (w : View) (l : Loop)
      → ((e : Download) → v e.info_hash ≡ some e → e.status ≢ queued → w e.info_hash ≡ some e)
      → Knows S A v l
      → Knows S A w l
  Knows-kept w scanning same knows = tt
  Knows-kept w (chaining iter) same knows = λ es collected.
      Due-kept IsDownloading v w _ (λ d h st. same d h (λ e. cc)) (knows es collected)
  Knows-kept w (polling ds) same knows =
      Due-kept IsPending v w ds (λ d h p. same d h (IsPending-past d p)) knows
  Knows-kept w (settling d r ds) same (due, told) =
      (Due-kept IsPending v w (d ∷ ds) (λ d h p. same d h (IsPending-past d p)) due, told)
  Knows-kept w listing same knows = tt
  Knows-kept w (taking ds) same knows =
      Due-kept IsImporting v w ds (λ d h st. same d h (λ e. cc)) knows
  Knows-kept w (copying d ds) same knows =
      Due-kept IsImporting v w (d ∷ ds) (λ d h st. same d h (λ e. cc)) knows
  Knows-kept w (concluding d' ds) same (d, due, fin) =
      (d, Due-kept IsImporting v w (d ∷ ds) (λ d h st. same d h (λ e. cc)) due, fin)
  Knows-kept w resting same knows = tt
  Knows-kept w stopped same knows = tt

  module _ (calls : ℕ → Call) (l : Loop) (inv : Inv S A v calls l) where
    pub swept-Inv : (w : View) (l' : Loop) → Sweep S A v w l' → Inv S A w calls l'
    swept-Inv w l' sweep = record {
      held = λ i d mine. let (at, st) = inv.held i d mine in (sweep.queued_kept d at st, st);
      unique = inv.unique;
      knows = sweep.knows;
    }

    module _ (w : View) (i : ℕ) (c' : Call)
        (untouched : (e : Download)
          → v e.info_hash ≡ some e
          → owner (calls i) ≢ some e
          → w e.info_hash ≡ some e)
        (owned : (d : Download)
          → owner c' ≡ some d
          → (w d.info_hash ≡ some d)
            × (d.status ≡ queued)
            × ((owner (calls i) ≡ some d) ⊎ (v d.info_hash ≡ none))) where
      clash :
          (k : ℕ) (d e : Download)
          → k ≢ i
          → owner c' ≡ some d
          → owner (calls k) ≡ some e
          → d.info_hash ≢ e.info_hash
      clash k d e apart mine other same = elim (owned d mine).2 [
        | inl before ↦ apart (sym (inv.unique i k d e before other same))
        | inr vacant ↦ let at = (inv.held k e other).0 in let gone = ap v (sym same) ∙ vacant in cc
      ]

      replaced-Inv : Inv S A w (update calls i c') l
      replaced-Inv = record {
        held = λ j d mine. elim (update-cases calls i c' j) [
          | inl (here, e) ↦ let (at, st, _) = owned d (ap owner (sym e) ∙ mine) in (at, st)
          | inr (apart, e) ↦
              let mine' = ap owner (sym e) ∙ mine in
              let (at, st) = inv.held j d mine' in
              (untouched d at (λ other. apart (inv.unique j i d d mine' other refl)), st)
        ];
        unique = λ j k d e mine other same. elim (update-cases calls i c' j) [
          | inl (here, p) ↦ elim (update-cases calls i c' k) [
            | inl (here', q) ↦ here ∙ sym here'
            | inr (apart, q) ↦
                absurd (clash k d e apart (ap owner (sym p) ∙ mine) (ap owner (sym q) ∙ other) same)
          ]
          | inr (apart, p) ↦ elim (update-cases calls i c' k) [
            | inl (here, q) ↦
                absurd (
                  clash j e d apart (ap owner (sym q) ∙ other) (ap owner (sym p) ∙ mine) (sym same))
            | inr (_, q) ↦
                inv.unique j k d e (ap owner (sym p) ∙ mine) (ap owner (sym q) ∙ other) same
          ]
        ];
        knows =
            Knows-kept w l (λ e at past. untouched e at (λ mine. past (inv.held i e mine).1))
              inv.knows;
      }

    -- Where a call takes a step.
    pub Effect-Inv :
        (w : View) (i : ℕ) (c' : Call) → Effect v w (calls i) c' → Inv S A w (update calls i c') l
    Effect-Inv w i c' effect =
        replaced-Inv w i c' (Effect-others v w (calls i) c' (inv.held i) effect) (owned effect)
      where
        owned :
            Effect v w (calls i) c'
            → (d : Download) → owner c' ≡ some d
            → (w d.info_hash ≡ some d)
              × (d.status ≡ queued)
              × ((owner (calls i) ≡ some d) ⊎ (v d.info_hash ≡ none))
        owned (keeps same (inl done)) d mine = cc
        owned (keeps same (inr as_before)) d mine =
            let before = sym as_before ∙ mine in
            let (at, st) = inv.held i d before in (same d.info_hash ∙ at, st, inl before)
        owned (inserts e st vacant same mine) d mine' =
            subst
              (λ (x : Download).
                (w x.info_hash ≡ some x)
                × (x.status ≡ queued)
                × ((owner (calls i) ≡ some x) ⊎ (v x.info_hash ≡ none)))
              (some-injective e d (sym mine ∙ mine'))
              (ground (arith, same e.info_hash, eq_iff e.info_hash e.info_hash), st, inr vacant)
        owned (settles e o mine done end same) d mine' = cc

  -- When no call is under way, and the task starts.
  pub started-Inv : (calls : ℕ → Call) → ((i : ℕ) → calls i ≡ idle) → Inv S A v calls scanning
  started-Inv calls no_call = record {
    held = λ i d mine. let done = ap owner (no_call i) in cc;
    unique = λ i j d e mine _ _. let done = ap owner (no_call i) in cc;
    knows = tt;
  }
