-- ===== src/Client/Http/Shared/Answers.antt =====
-- What calls of `with_auth` (client/http.rs) on one client return, in every interleaving.
use magnarr.Prelude.{ℕ, suc, String, ◌≡◌, ◌≢◌, inl, inr, sym, subst, Option, none, some}
use magnarr.Prelude.{Result, ok, err, false, Bool-cases, arith}
use magnarr.Prelude.{update, update-cases}
use magnarr.Client.Http.{HttpDeps, Request, AuthenticatedClientError}
use magnarr.Client.Http.{Auth, is_auth_error, ensure_authenticated}
use magnarr.Client.Http.Shared.{Task, idle, looking, entering, sending, renewing, resending, done}
use magnarr.Client.Http.Shared.{found, entered, answered, renewed, settled, step}
use magnarr.Client.Http.Shared.{Pool, Step, starts, steps, drops, outside, Reach, start, later}

module _ (H : HttpDeps) where
  -- If the call has returned a response, it is one that no session has refused.
  abbrev Fine : Task H → Type 0
  Fine (done (ok resp)) = is_auth_error H.status resp ≡ false
  Fine _ = Unit

  found-Fine : (f : Request H) (id : ℕ) (o : Option H.Client) → Fine (found H f id o)
  unfolding found
  found-Fine f id none = tt
  found-Fine f id (some c) = tt

  entered-Fine :
      (f : Request H) (r : Result (H.Client × ℕ) AuthenticatedClientError) → Fine (entered H f r)
  unfolding entered
  entered-Fine f (ok (c, id)) = tt
  entered-Fine f (err e) = tt

  renewed-Fine :
      (f : Request H) (r : Result (H.Client × ℕ) AuthenticatedClientError) → Fine (renewed H f r)
  unfolding renewed
  renewed-Fine f (ok (c, id)) = tt
  renewed-Fine f (err e) = tt

  answered-Fine :
      (f : Request H) (c : H.Client) (id : ℕ) (r : Result H.Response String)
      → Fine (answered H f c id r)
  unfolding answered
  answered-Fine f c id (err e) = tt
  answered-Fine f c id (ok resp) = elim (Bool-cases (is_auth_error H.status resp)) [
    | inl dead ↦ rw (dead, answered) tt
    | inr alive ↦ rw (alive, answered) alive
  ]

  settled-Fine : (r : Result H.Response String) → Fine (done (settled H r))
  unfolding settled ensure_authenticated
  settled-Fine (err e) = tt
  settled-Fine (ok resp) = elim (Bool-cases (is_auth_error H.status resp)) [
    | inl dead ↦ rw (dead, settled, ensure_authenticated) tt
    | inr alive ↦ rw (alive, settled, ensure_authenticated) alive
  ]

  step-Fine : (t : Task H) (a : Auth H) → Fine t → Fine (step H t a).0
  unfolding step
  step-Fine idle a fine = tt
  step-Fine (looking f) a fine = found-Fine f a.session.id a.session.client
  step-Fine (entering f) a fine = entered-Fine f _
  step-Fine (sending f c id) a fine = answered-Fine f c id _
  step-Fine (renewing f c id) a fine = renewed-Fine f _
  step-Fine (resending f c) a fine = settled-Fine _
  step-Fine (done r) a fine = fine

  abbrev AllFine : (ℕ → Task H) → Type 0
  AllFine tasks = (i : ℕ) → Fine (tasks i)

  update-Fine :
      (tasks : ℕ → Task H) (i : ℕ) (t : Task H)
      → AllFine tasks
      → Fine t
      → AllFine (update tasks i t)
  update-Fine tasks i t fine fine_t j = elim (update-cases tasks i t j) [
    | inl (_, e) ↦ subst Fine (sym e) fine_t
    | inr (_, e) ↦ subst Fine (sym e) (fine j)
  ]

  Step-Fine : (p q : Pool H) → AllFine p.tasks → Step H p q → AllFine q.tasks
  Step-Fine p q fine (starts i f _) = update-Fine p.tasks i (looking f) fine tt
  Step-Fine p q fine (steps i) =
      update-Fine p.tasks i _ fine (step-Fine (p.tasks i) p.auth (fine i))
  Step-Fine p q fine (drops i) = update-Fine p.tasks i idle fine tt
  Step-Fine p q fine (outside n) = fine

  Reach-Fine : (k : ℕ) (p : Pool H) → Reach H k p → AllFine p.tasks
  Reach-Fine k p (start n) = λ i. tt
  Reach-Fine (suc k) p (later {p = before} reach taken) =
      Step-Fine before p (Reach-Fine k before reach) taken

  -- However the calls on a client are interleaved, and whatever the others do to the session in between, a
  -- call that returns a response returns none with status 401 or 403.
  pub Reach-done :
      (k : ℕ) (p : Pool H) (i : ℕ) (resp : H.Response)
      → Reach H k p
      → p.tasks i ≡ done (ok resp)
      → (H.status resp ≢ 401) × (H.status resp ≢ 403)
  unfolding is_auth_error
  Reach-done k p i resp reach here =
      let fine : is_auth_error H.status resp ≡ false = subst Fine here (Reach-Fine k p reach i) in
      ground (arith, fine)
