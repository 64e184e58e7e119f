-- ===== src/Client/Http/Laws.antt =====
-- The session of client/http.rs: which responses get out, and how often tasks log in that saw the same
-- session end.
use magnarr.Prelude.{
  ℕ, zero, suc, ap, ◌∙◌, inl, inr, Result-cases, ◌^◌, ◌<◌, ◌≡◌, ◌≢◌, refl, false, Result, ok, err,
  arith,
}
use magnarr.Prelude.{Bool-cases}
use magnarr.Client.Http.{HttpDeps, Auth, Request, AuthenticatedClientError, session, login}
use magnarr.Client.Http.{renew_session, retry, attempt, with_auth, is_auth_error}
use magnarr.Client.Http.{ensure_authenticated}

module _ (H : HttpDeps) where
  ensure_authenticated-ok :
      (resp out : H.Response)
      → ensure_authenticated H.status resp ≡ ok out
      → is_auth_error H.status out ≡ false
  unfolding ensure_authenticated is_auth_error
  ensure_authenticated-ok resp out h = ground arith

  retry-ok :
      (f : Request H) (r : Result (H.Client × ℕ) AuthenticatedClientError × Auth H)
      (out : H.Response)
      → (retry H f r).0 ≡ ok out
      → is_auth_error H.status out ≡ false
  unfolding retry
  retry-ok f (err e, a) out h = cc
  retry-ok f (ok (c, id), a) out h = elim (Result-cases (f c a.network).0) [
    | inr (e, failed) ↦ ground (arith, failed)
    | inl (resp, sent) ↦ ensure_authenticated-ok resp out (ground (arith, sent))
  ]

  attempt-ok :
      (f : Request H) (r : Result (H.Client × ℕ) AuthenticatedClientError × Auth H)
      (out : H.Response)
      → (attempt H f r).0 ≡ ok out
      → is_auth_error H.status out ≡ false
  unfolding attempt
  attempt-ok f (err e, a) out h = cc
  attempt-ok f (ok (c, id), a) out h = elim (Result-cases (f c a.network).0) [
    | inr (e, failed) ↦ ground (arith, failed)
    | inl (resp, sent) ↦ elim (Bool-cases (is_auth_error H.status resp)) [
      | inl dead ↦
          retry-ok f (renew_session H id (record a { network = (f c a.network).1 })) out
            (ground (arith, sent))
      | inr alive ↦ ground (arith, sent)
    ]
  ]

  -- `with_auth` never returns a response with status 401 or 403 as a success.
  pub with_auth-ok :
      (f : Request H) (a : Auth H) (out : H.Response)
      → (with_auth H f a).0 ≡ ok out
      → (H.status out ≢ 401) × (H.status out ≢ 403)
  unfolding with_auth is_auth_error
  with_auth-ok f a out h = ground (arith, attempt-ok f (session H a) out)

  renew-renew :
      (a : Auth H) (old : ℕ) (c : H.Client) (id : ℕ)
      → a.session.id < 2 ^ 64
      → a.session.id ≡ old
      → (renew_session H old a).0 ≡ ok (c, id)
      → renew_session H old (renew_session H old a).1 ≡ (ok (c, id), (renew_session H old a).1)
  unfolding renew_session login
  renew-renew a old c id bound same h = ground arith

  renew_session-login : (a : Auth H) → renew_session H a.session.id a ≡ login H a
  unfolding renew_session
  renew_session-login a = ground arith

  -- The tasks, one after another, that renew a session that they all saw under the id `old`.
  pub renew_all : ℕ → ℕ → Auth H → Auth H
  renew_all zero old a = a
  renew_all (suc n) old a = renew_all n old (renew_session H old a).1

  renew_all-same :
      (n old : ℕ) (a : Auth H) {r : Result (H.Client × ℕ) AuthenticatedClientError}
      → renew_session H old a ≡ (r, a)
      → renew_all n old a ≡ a
  unfolding renew_all
  renew_all-same zero old a h = refl
  renew_all-same (suc n) old a h = ap (λ p. renew_all n old p.1) h ∙ renew_all-same n old a h

  -- However many tasks saw the same session end, they log in once between them: after the first
  -- renewal has succeeded, the others change neither the session nor the network.
  pub renew_all-once :
      (n : ℕ) (a : Auth H) {c : H.Client} {id : ℕ}
      → a.session.id < 2 ^ 64
      → (renew_session H a.session.id a).0 ≡ ok (c, id)
      → renew_all (suc n) a.session.id a ≡ (login H a).1
  unfolding renew_all
  renew_all-once n a {c} {id} bound h =
      renew_all-same n a.session.id (renew_session H a.session.id a).1
        (renew-renew a a.session.id c id bound refl h)
      ∙ ap (λ p. p.1) (renew_session-login a)
