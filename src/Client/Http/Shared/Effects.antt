-- ===== src/Client/Http/Shared/Effects.antt =====
-- What one step of a call of `with_auth` (client/http.rs) does to the session.
use magnarr.Prelude.{ℕ, ◌+◌, ◌^◌, ◌<◌, ◌==◌, ==_iff, ◌≡◌, refl, sym, subst, ◌≢◌, ◌⊎◌}
use magnarr.Prelude.{
  inl, inr, arith, Bool-cases, String, Option, none, some, Result, ok, err, ok-injective, true,
  false, Bool,
}
use magnarr.Prelude.{not, if◌then◌else◌}
use magnarr.Client.Http.{HttpDeps, Session, Auth, Request, AuthenticatedClientError, opened, login}
use magnarr.Client.Http.{renew_session, is_auth_error}
use magnarr.Client.Http.Shared.{Task, idle, looking, entering, sending, renewing, resending, done}
use magnarr.Client.Http.Shared.{found, entered, answered, renewed, step}
use mathlib.Core.Option.{some-injective}

module _ (H : HttpDeps) where
  -- The client and the session's id that a call has in hand, to be renewed.
  abbrev pub holds : Task H → Option (H.Client × ℕ)
  holds (sending f c id) = some (c, id)
  holds (renewing f c id) = some (c, id)
  holds _ = none

  -- The session stays, or another is opened behind it.
  pub data Grown (s s' : Session H.Client) : Type 0 where
    stays : s' ≡ s → Grown s s'
    opens : (c : H.Client) → s'.id ≡ s.id + 1 → s'.client ≡ some c → Grown s s'

  abbrev pub Current : Session H.Client → H.Client × ℕ → Type 0
  Current s (c, id) = (id ≡ s.id) × (s.client ≡ some c)

  -- From `t` to `t'`, with the session from `s` to `s'`: what is in hand was there before, or is current.
  pub record Effect (s s' : Session H.Client) (t t' : Task H) : Type 0 where
    pub grown : Grown s s'
    pub held : (x : H.Client × ℕ) → holds t' ≡ some x → (holds t ≡ some x) ⊎ Current s' x

  abbrev pub IsLow : Session H.Client → Type 0
  IsLow s = s.id + 1 < 2 ^ 64

  opened-Grown :
      (s : Session H.Client) (out : Result H.Client AuthenticatedClientError × H.Network)
      → IsLow s
      → Grown s (opened H s out).1.session
  opened-Grown s (ok c, n) low = opens c (omega arith) refl
  opened-Grown s (err e, n) low = stays refl

  opened-Current :
      (s : Session H.Client) (out : Result H.Client AuthenticatedClientError × H.Network)
      (x : H.Client × ℕ)
      → (opened H s out).0 ≡ ok x
      → Current (opened H s out).1.session x
  opened-Current s (ok c, n) x h =
      subst (Current (opened H s (ok c, n)).1.session) (ok-injective h) (refl, refl)
  opened-Current s (err e, n) x h = cc

  -- A renewal logs in, or takes the session that another call has opened.
  abbrev pub Renewal : ℕ → Auth H → Type 0
  Renewal old a =
      ((a.session.id ≡ old ⊎ a.session.client ≡ none) × (renew_session H old a ≡ login H a))
      ⊎ ((a.session.id ≢ old)
          × (c : H.Client) × (a.session.client ≡ some c)
          × (renew_session H old a ≡ (ok (c, a.session.id), a)))

  renewed_of :
      (a : Auth H) (o : Option H.Client)
      → a.session.client ≡ o
      → let end : Result (H.Client × ℕ) AuthenticatedClientError × Auth H = elim o [
        | some c ↦ (ok (c, a.session.id), a)
        | none ↦ login H a
      ] in
        ((o ≡ none) × (end ≡ login H a))
        ⊎ ((c : H.Client) × (a.session.client ≡ some c) × (end ≡ (ok (c, a.session.id), a)))
  renewed_of a none e = inl (refl, refl)
  renewed_of a (some c) e = inr (c, e, refl)

  pub renew_session-Renewal : (old : ℕ) (a : Auth H) → Renewal old a
  unfolding renew_session
  renew_session-Renewal old a = elim (Bool-cases (a.session.id == old)) [
    | inl same ↦ inl (inl ((==_iff a.session.id old).0 same), rw (same, renew_session) refl)
    | inr other ↦ elim (renewed_of a a.session.client refl) [
      | inl (empty, e) ↦ inl (inr empty, rw (other, renew_session) e)
      | inr (c, there, e) ↦ inr (
        (λ same. ground (arith, (==_iff a.session.id old).1 same)),
        c,
        there,
        rw (other, renew_session) e,
      )
    ]
  ]

  -- The write lock of `session` or of `renew_session`, with what it returned.
  record Locked (s : Session H.Client)
      (out : Result (H.Client × ℕ) AuthenticatedClientError × Auth H) : Type 0 where
    grown : Grown s out.1.session
    current : (x : H.Client × ℕ) → out.0 ≡ ok x → Current out.1.session x

  login-Locked : (a : Auth H) → IsLow a.session → Locked a.session (login H a)
  unfolding login
  login-Locked a low =
      let out = H.login_fn H.base_client a.network in
      record { grown = opened-Grown a.session out low; current = opened-Current a.session out }

  renew_session-Locked :
      (old : ℕ) (a : Auth H) → IsLow a.session → Locked a.session (renew_session H old a)
  renew_session-Locked old a low = elim (renew_session-Renewal old a) [
    | inl (_, e) ↦ subst (Locked a.session) (sym e) (login-Locked a low)
    | inr (_, c, there, e) ↦ subst (Locked a.session) (sym e) (record {
      grown = stays refl;
      current = λ x h. subst (Current a.session) (ok-injective h) (refl, there);
    })
  ]

  found-Effect :
      (f : Request H) (s : Session H.Client) (o : Option H.Client)
      → s.client ≡ o
      → Effect s s (looking f) (found H f s.id o)
  unfolding found
  found-Effect f s none e = record { grown = stays refl; held = λ x h. cc }
  found-Effect f s (some c) e = record {
    grown = stays refl;
    held = λ x h. inr (subst (Current s) (some-injective (c, s.id) x h) (refl, e));
  }

  entered-Effect :
      (f : Request H) (s : Session H.Client) (r : Result (H.Client × ℕ) AuthenticatedClientError)
      (a : Auth H)
      → Locked s (r, a)
      → Effect s a.session (entering f) (entered H f r)
  unfolding entered
  entered-Effect f s (err e) a locked = record { grown = locked.grown; held = λ x h. cc }
  entered-Effect f s (ok (c, id)) a locked = record {
    grown = locked.grown;
    held = λ x h.
        inr (subst (Current a.session) (some-injective (c, id) x h) (locked.current (c, id) refl));
  }

  renewed-Effect :
      (f : Request H) (c : H.Client) (id : ℕ) (s : Session H.Client)
      (r : Result (H.Client × ℕ) AuthenticatedClientError) (a : Auth H)
      → Locked s (r, a)
      → Effect s a.session (renewing f c id) (renewed H f r)
  unfolding renewed
  renewed-Effect f c id s (err e) a locked = record { grown = locked.grown; held = λ x h. cc }
  renewed-Effect f c id s (ok x) a locked = record { grown = locked.grown; held = λ x h. cc }

  refused-Effect :
      (f : Request H) (c : H.Client) (id : ℕ) (s : Session H.Client) (resp : H.Response)
      (refused : Bool)
      → Effect s s (sending f c id) (if not refused then done (ok resp) else renewing f c id)
  refused-Effect f c id s resp false = record { grown = stays refl; held = λ x h. cc }
  refused-Effect f c id s resp true = record { grown = stays refl; held = λ x h. inl h }

  answered-Effect :
      (f : Request H) (c : H.Client) (id : ℕ) (s : Session H.Client) (r : Result H.Response String)
      → Effect s s (sending f c id) (answered H f c id r)
  unfolding answered
  answered-Effect f c id s (err e) = record { grown = stays refl; held = λ x h. cc }
  answered-Effect f c id s (ok resp) = refused-Effect f c id s resp (is_auth_error H.status resp)

  pub step-Effect :
      (t : Task H) (a : Auth H)
      → IsLow a.session
      → Effect a.session (step H t a).1.session t (step H t a).0
  unfolding step
  step-Effect idle a low = record { grown = stays refl; held = λ x h. cc }
  step-Effect (looking f) a low = found-Effect f a.session a.session.client refl
  step-Effect (entering f) a low = entered-Effect f a.session _ _ (login-Locked a low)
  step-Effect (sending f c id) a low = answered-Effect f c id a.session _
  step-Effect (renewing f c id) a low =
      renewed-Effect f c id a.session _ _ (renew_session-Locked id a low)
  step-Effect (resending f c) a low = record { grown = stays refl; held = λ x h. cc }
  step-Effect (done r) a low = record { grown = stays refl; held = λ x h. cc }
