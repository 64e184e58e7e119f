-- ===== src/Client/Http/Sent.antt =====
-- What the last request of `with_auth` in client/http.rs was, where it answers with a response.
use magnarr.Prelude.{ℕ, String, ◌≡◌, refl, Bool-cases, Option-cases, inl, inr, not, ◌==◌}
use magnarr.Prelude.{ap, ◌∙◌, some, Result, ok, err, arith, if◌then◌else◌}
use magnarr.Client.Http.{HttpDeps, Auth, Session, Request, Outcome, AuthenticatedClientError}
use magnarr.Client.Http.{client_error, is_auth_error, ensure_authenticated, opened, login, session}
use magnarr.Client.Http.{renew_session, retry, attempt, with_auth}

module _ (H : HttpDeps) where
  -- The last request over the network, with the client of the session that is left.
  pub record Sent (f : Request H) (out : H.Response) (a : Auth H) : Type 0 where
    pub client : H.Client
    pub before : H.Network
    pub held : a.session.client ≡ some client
    pub answered : f client before ≡ (ok out, a.network)

  -- The session that was found or opened is the one that is kept.
  abbrev Held : Result (H.Client × ℕ) AuthenticatedClientError × Auth H → Type 0
  Held (ok (c, id), a) = a.session.client ≡ some c
  Held (err e, a) = Unit

  opened-Held :
      (s : Session H.Client) (r : Result H.Client AuthenticatedClientError × H.Network)
      → Held (opened H s r)
  opened-Held s (ok c, n) = refl
  opened-Held s (err e, n) = tt

  login-Held : (a : Auth H) → Held (login H a)
  unfolding login
  login-Held a = opened-Held a.session (H.login_fn H.base_client a.network)

  session-Held : (a : Auth H) → Held (session H a)
  unfolding session
  session-Held a = elim (Option-cases a.session.client) [
    | inl none_yet ↦ rw (none_yet, session) (login-Held a)
    | inr (c, has) ↦ rw (has, session) has
  ]

  renew_session-Held : (old : ℕ) (a : Auth H) → Held (renew_session H old a)
  unfolding renew_session
  renew_session-Held old a = elim (Bool-cases (a.session.id == old)) [
    | inl same ↦ rw (same, renew_session) (login-Held a)
    | inr moved ↦ elim (Option-cases a.session.client) [
      | inl none_yet ↦ rw (moved, renew_session, none_yet) (login-Held a)
      | inr (c, has) ↦ rw (moved, renew_session, has) has
    ]
  ]

  -- The second request's end.
  abbrev sent_again : Auth H → Result H.Response String × H.Network → Outcome H
  sent_again a sent =
      let a' : Auth H = record a { network = sent.1 } in
      elim sent.0 [
        | err e ↦ (err (client_error e), a')
        | ok resp ↦ (ensure_authenticated H.status resp, a')
      ]

  ensure_authenticated-same :
      (resp out : H.Response) → ensure_authenticated H.status resp ≡ ok out → resp ≡ out
  unfolding ensure_authenticated
  ensure_authenticated-same resp out h = ground arith

  retry-Sent :
      (f : Request H) (r : Result (H.Client × ℕ) AuthenticatedClientError × Auth H)
      (out : H.Response)
      → Held r
      → (retry H f r).0 ≡ ok out
      → Sent f out (retry H f r).1
  unfolding retry
  retry-Sent f (err e, a) out held h = cc
  retry-Sent f (ok (c, id), a) out held h = replied (f c a.network) refl h
    where
      replied :
          (sent : Result H.Response String × H.Network)
          → f c a.network ≡ sent
          → (sent_again a sent).0 ≡ ok out
          → Sent f out (sent_again a sent).1
      replied (err e, n) e' h' = cc
      replied (ok resp, n) e' h' = record {
        client = c;
        before = a.network;
        held = held;
        answered = e' ∙ ap (λ x. (ok x, n)) (ensure_authenticated-same resp out h');
      }

  -- The first request's end, and what follows it.
  abbrev after : Request H → ℕ → Auth H → Result H.Response String × H.Network → Outcome H
  after f id a sent =
      let a' : Auth H = record a { network = sent.1 } in
      elim sent.0 [
        | err e ↦ (err (client_error e), a')
        | ok resp ↦
            if not (is_auth_error H.status resp)
            then (ok resp, a')
            else retry H f (renew_session H id a')
      ]

  attempt-Sent :
      (f : Request H) (r : Result (H.Client × ℕ) AuthenticatedClientError × Auth H)
      (out : H.Response)
      → Held r
      → (attempt H f r).0 ≡ ok out
      → Sent f out (attempt H f r).1
  unfolding attempt
  attempt-Sent f (err e, a) out held h = cc
  attempt-Sent f (ok (c, id), a) out held h = replied (f c a.network) refl h
    where
      replied :
          (sent : Result H.Response String × H.Network)
          → f c a.network ≡ sent
          → (after f id a sent).0 ≡ ok out
          → Sent f out (after f id a sent).1
      replied (err e, n) e' h' = cc
      replied (ok resp, n) e' h' = elim (Bool-cases (is_auth_error H.status resp)) [
        | inl dead ↦ rw dead (
            retry-Sent f (renew_session H id (record a { network = n })) out
              (renew_session-Held id (record a { network = n })) (rw dead at h'))
        | inr alive ↦ rw alive (record {
          client = c;
          before = a.network;
          held = held;
          answered = ground (arith, e', rw alive at h');
        })
      ]

  pub with_auth-Sent :
      (f : Request H) (a : Auth H) (out : H.Response)
      → (with_auth H f a).0 ≡ ok out
      → Sent f out (with_auth H f a).1
  unfolding with_auth
  with_auth-Sent f a out h = attempt-Sent f (session H a) out (session-Held a) h
