-- ===== src/Client/Http/Shared/Laws.antt =====
-- When the calls of one client (client/http.rs) log in again, in every interleaving.
use magnarr.Prelude.{ℕ, suc, ◌^◌, ◌<◌, ◌≤◌, ◌≡◌, refl, sym, ap, subst, ◌∙◌, ◌≢◌, ◌⊎◌}
use magnarr.Prelude.{inl, inr, arith, none, some, ok}
use magnarr.Prelude.{update, update-cases}
use magnarr.Client.Http.{HttpDeps, Session, Request, new, login}
use magnarr.Client.Http.{renew_session}
use magnarr.Client.Http.Shared.{Task, idle, looking, renewing}
use magnarr.Client.Http.Shared.{Pool, Step, starts, steps, drops}
use magnarr.Client.Http.Shared.{outside, Reach, start, later}
use magnarr.Client.Http.Shared.Effects.{
  holds, Grown, stays, opens, Current, Effect, step-Effect, renew_session-Renewal,
}

module _ (H : HttpDeps) where
  -- What a call has in hand is the session's client as long as the ids are the same.
  record Known (s : Session H.Client) (x : H.Client × ℕ) : Type 0 where
    not_later : x.1 ≤ s.id
    there : s.client ≢ none
    same : x.1 ≡ s.id → s.client ≡ some x.0

  record Inv (k : ℕ) (s : Session H.Client) (tasks : ℕ → Task H) : Type 0 where
    few : s.id ≤ k
    known : (i : ℕ) (x : H.Client × ℕ) → holds H (tasks i) ≡ some x → Known s x

  Current-Known : (s : Session H.Client) (x : H.Client × ℕ) → Current H s x → Known s x
  Current-Known s x (id, client) = record {
    not_later = omega arith;
    there = λ empty. cc;
    same = λ _. client;
  }

  Grown-Known : (s s' : Session H.Client) (x : H.Client × ℕ) → Grown H s s' → Known s x → Known s' x
  Grown-Known s s' x (stays e) known = subst (λ k. Known k x) (sym e) known
  Grown-Known s s' x (opens c id client) known = record {
    not_later = omega (arith, known.not_later);
    there = λ empty. cc;
    same = λ e. absurd (omega (arith, known.not_later));
  }

  Grown-few : (k : ℕ) (s s' : Session H.Client) → Grown H s s' → s.id ≤ k → s'.id ≤ suc k
  Grown-few k s s' (stays e) few = let same = ap (λ (x : Session H.Client). x.id) e in omega arith
  Grown-few k s s' (opens c id client) few = omega arith

  Effect-Inv :
      (k : ℕ) (s s' : Session H.Client) (tasks : ℕ → Task H) (i : ℕ) (t : Task H)
      → Effect H s s' (tasks i) t
      → Inv k s tasks
      → Inv (suc k) s' (update tasks i t)
  Effect-Inv k s s' tasks i t effect inv = record {
    few = Grown-few k s s' effect.grown inv.few;
    known = λ j x h. elim (update-cases tasks i t j) [
      | inl (_, e) ↦ elim (effect.held x (ap (holds H) (sym e) ∙ h)) [
        | inl before ↦ Grown-Known s s' x effect.grown (inv.known i x before)
        | inr current ↦ Current-Known s' x current
      ]
      | inr (_, e) ↦ Grown-Known s s' x effect.grown (inv.known j x (ap (holds H) (sym e) ∙ h))
    ];
  }

  free : (s : Session H.Client) (t t' : Task H) → holds H t' ≡ none → Effect H s s t t'
  free s t t' none_held = record { grown = stays refl; held = λ x h. cc }

  Reach-Inv : (k : ℕ) (p : Pool H) → k < 2 ^ 64 → Reach H k p → Inv k p.auth.session p.tasks
  unfolding new
  Reach-Inv k p few (start n) = record { few = omega arith; known = λ i x h. cc }
  Reach-Inv (suc k) p few (later {p = before} reach step_taken) =
      let inv = Reach-Inv k before (omega arith) reach in Step-Inv k before p few inv step_taken
    where
      Step-Inv :
          (k : ℕ) (p q : Pool H)
          → suc k < 2 ^ 64
          → Inv k p.auth.session p.tasks
          → Step H p q
          → Inv (suc k) q.auth.session q.tasks
      Step-Inv k p q few inv (starts i f _) =
          Effect-Inv k p.auth.session p.auth.session p.tasks i (looking f)
            (free p.auth.session (p.tasks i) (looking f) refl) inv
      Step-Inv k p q few inv (steps i) =
          Effect-Inv k p.auth.session _ p.tasks i _
            (step-Effect H (p.tasks i) p.auth (omega (arith, inv.few))) inv
      Step-Inv k p q few inv (drops i) =
          Effect-Inv k p.auth.session p.auth.session p.tasks i idle
            (free p.auth.session (p.tasks i) idle refl) inv
      Step-Inv k p q few inv (outside n) = record {
        few = omega (arith, inv.few);
        known = inv.known;
      }

  -- However the calls on a client are interleaved, in fewer than 2^64 steps: a call whose request was
  -- refused logs in only where the session still has the client that the request was sent with; where
  -- another call has opened a session since, it takes that one, and changes neither the session nor the
  -- network.
  pub Reach-renewing :
      (k : ℕ) (p : Pool H) (i : ℕ) (f : Request H) (c : H.Client) (id : ℕ)
      → k < 2 ^ 64
      → Reach H k p
      → p.tasks i ≡ renewing f c id
      → ((p.auth.session.client ≡ some c) × (renew_session H id p.auth ≡ login H p.auth))
        ⊎ ((p.auth.session.id ≢ id)
            × (c' : H.Client) × (p.auth.session.client ≡ some c')
            × (renew_session H id p.auth ≡ (ok (c', p.auth.session.id), p.auth)))
  Reach-renewing k p i f c id few reach here =
      let inv = Reach-Inv k p few reach in
      let known = inv.known i (c, id) (ap (holds H) here) in
      elim (renew_session-Renewal H id p.auth) [
        | inl (inl same, e) ↦ inl (known.same (sym same), e)
        | inl (inr empty, e) ↦ absurd (known.there empty)
        | inr taken ↦ inr taken
      ]
