-- ===== src/Client/Http/Cost.antt =====
-- What one call of `with_auth` (client/http.rs) costs on the network.
use magnarr.Prelude.{ℕ, ◌+◌, ◌*◌, ◌≤◌, ◌≡◌, ap, some, Result, ok, err, arith}
use magnarr.Client.Http.{HttpDeps, Auth, Request, AuthenticatedClientError, session, login}
use magnarr.Client.Http.{renew_session, retry, attempt, with_auth}

-- `count` is any quantity of the network that a request raises by `r` at most and a login by `l`.
module _ (H : HttpDeps) (f : Request H) (count : H.Network → ℕ) (r l : ℕ)
    (requests : (c : H.Client) (n : H.Network) → count (f c n).1 ≤ count n + r)
    (logins : (n : H.Network) → count (H.login_fn H.base_client n).1 ≤ count n + l) where
  login-cost : (a : Auth H) → count (login H a).1.network ≤ count a.network + l
  unfolding login
  login-cost a = ground (arith, logins a.network)

  session-cost : (a : Auth H) → count (session H a).1.network ≤ count a.network + l
  unfolding session
  session-cost a = ground (arith, login-cost a)

  renew_session-cost :
      (id : ℕ) (a : Auth H) → count (renew_session H id a).1.network ≤ count a.network + l
  unfolding renew_session
  renew_session-cost id a = ground (arith, login-cost a)

  retry-cost :
      (p : Result (H.Client × ℕ) AuthenticatedClientError × Auth H)
      → count (retry H f p).1.network ≤ count p.1.network + r
  unfolding retry
  retry-cost (err e, a) = omega arith
  retry-cost (ok (c, id), a) = ground (arith, requests c a.network)

  attempt-cost :
      (p : Result (H.Client × ℕ) AuthenticatedClientError × Auth H)
      → count (attempt H f p).1.network ≤ count p.1.network + r + l + r
  unfolding attempt
  attempt-cost (err e, a) = omega arith
  attempt-cost (ok (c, id), a) =
      let a' : Auth H = record a { network = (f c a.network).1 } in
      ground
        (arith, requests c a.network, renew_session-cost id a', retry-cost (renew_session H id a'))

  -- A call makes two requests and two logins at most.
  pub with_auth-cost :
      (a : Auth H) → count (with_auth H f a).1.network ≤ count a.network + 2 * r + 2 * l
  unfolding with_auth
  with_auth-cost a = omega (arith, session-cost a, attempt-cost (session H a))

  session-open :
      (a : Auth H) (c : H.Client) → a.session.client ≡ some c → (session H a).1.network ≡ a.network
  unfolding session
  session-open a c live = ground arith

  -- With a session at hand, one login at most.
  pub with_auth-cost_open :
      (a : Auth H) {c : H.Client}
      → a.session.client ≡ some c
      → count (with_auth H f a).1.network ≤ count a.network + 2 * r + l
  unfolding with_auth
  with_auth-cost_open a {c} live =
      omega (arith, ap count (session-open a c live), attempt-cost (session H a))
