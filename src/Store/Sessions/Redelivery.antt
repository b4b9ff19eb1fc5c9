-- ===== src/Store/Sessions/Redelivery.antt =====
-- internal/store/postgres/agents.go: a token enrolls one agent, and EnrollAgent can be asked again.
use jobman_control.Store.Sessions.{
  Secrets, Enrollment, SessionTables, Registration, IssuedSession, valid_session_lifetime,
  find_target, is_current, new_session, issued, enrolled, enroll_new, enroll_used,
  replay_enrollment, is_session_of, allows_value, enroll_agent,
}
use jobman_control.Store.Rows.{
  Error, unauthenticated, conflict, forbidden, idempotency_conflict, invalid,
}
use jobman_control.Prelude.{
  ℕ, ◌+◌, ◌<◌, String, Bool, true, false, ◌||◌, not, Option, none, some, List, [], ◌∷◌,
  if◌then◌else◌, str_eq, ltb, leb, any, find?, update_rows, Result, ok, err, ◌>>=◌, refuse, or_fail,
  >>=-eq-ok, found_of, ok-injective, ◌≡◌, refl, sym, ap, ◌∙◌, subst, arith, Bool-cases, inl, inr,
  eq_refl,
}

module _ {A : Type 0} (p q : A → Bool) (f : A → A) (same : (y : A) → p (f y) ≡ p y) where
  unseen : (b : Bool) (y : A) → p (if b then f y else y) ≡ p y
  unseen true y = same y
  unseen false y = refl

  of_some : (x y : A) → ◌≡◌ {A = Option A} (some x) (some y) → x ≡ y
  of_some x y h = cc

  -- A row that is found is found again once rows were updated in a way that the search does not see.
  find-update_rows :
      (xs : List A) (x : A)
      → find? p xs ≡ some x
      → find? p (update_rows q f xs) ≡ some (if q x then f x else x)
  find-update_rows [] x h = cc
  find-update_rows (y ∷ ys) x h = elim (Bool-cases (p y)) [
    | inl e ↦
        rw (unseen (q y) y, e)
          (ap (λ z. some (if q z then f z else z)) (of_some y x (sym (rw e refl) ∙ h)))
    | inr e ↦ rw (unseen (q y) y, e) (find-update_rows ys x (sym (rw e refl) ∙ h))
  ]

enroll_new-enrolled :
    (secrets : Secrets) (now : ℕ) (agent_id session_id : String) (e : Enrollment) (r : Registration)
    (lifetime : ℕ) (db next : SessionTables) (session : IssuedSession)
    → enroll_new secrets now agent_id session_id e r lifetime db ≡ ok (session, next)
    → enrolled secrets now agent_id session_id e r lifetime db ≡ (session, next)
unfolding enroll_new
enroll_new-enrolled secrets now agent_id session_id e r lifetime db next session h =
    let (t, _, h1) = >>=-eq-ok (or_fail (find_target db.targets e.target_id) unauthenticated) _ h in
    let (g, _, h2) =
      >>=-eq-ok
        (or_fail (find? (λ k. str_eq k.id e.target_generation_id) db.generations) unauthenticated) _
        h1 in
    let (_, _, h3) =
      >>=-eq-ok
        (refuse
          (leb e.expires_at now
            || not (str_eq t.state "active")
            || not (str_eq e.target_generation_id r.target_generation_id))
          conflict)
        _ h2 in
    let (_, _, h4) =
      >>=-eq-ok
        (refuse
          (not (str_eq e.expected_user r.execution_user)
            || not (any (str_eq g.execution_backend) r.execution_backends)
            || not (allows_value g.operating_systems r.operating_system)
            || not (allows_value g.architectures r.architecture))
          forbidden)
        _ h3 in
    ok-injective (enrolled secrets now agent_id session_id e r lifetime db) (session, next) h4

replay-replayed :
    (secrets : Secrets) (now : ℕ) (used digest : String) (db : SessionTables)
    (session : IssuedSession)
    → replay_enrollment secrets now used digest db ≡ ok session
    → session.is_replayed ≡ true
unfolding replay_enrollment
replay-replayed secrets now used digest db session h =
    let (a, _, h1) = >>=-eq-ok (or_fail (find? (λ b. str_eq b.id used) db.agents) conflict) _ h in
    let (s, _, h2) =
      >>=-eq-ok (or_fail (find? (is_session_of used now) db.sessions) conflict) _ h1 in
    let (_, _, h3) =
      >>=-eq-ok (refuse (not (str_eq a.registration_digest digest)) idempotency_conflict) _ h2 in
    ap (λ z. z.is_replayed) (sym (ok-injective (issued secrets s true) session h3))

-- A fresh enrollment is that of an unused token.
enroll_used-enrolled :
    (secrets : Secrets) (now : ℕ) (agent_id session_id : String) (e : Enrollment) (r : Registration)
    (lifetime : ℕ) (db next : SessionTables) (session : IssuedSession) (used : Option String)
    → enroll_used secrets now agent_id session_id e r lifetime db used ≡ ok (session, next)
    → session.is_replayed ≡ false
    → enrolled secrets now agent_id session_id e r lifetime db ≡ (session, next)
unfolding enroll_used
enroll_used-enrolled secrets now agent_id session_id e r lifetime db next session none h fresh =
    enroll_new-enrolled secrets now agent_id session_id e r lifetime db next session h
enroll_used-enrolled secrets now agent_id session_id e r lifetime db next session (some used) h
      fresh =
    let (s, replays, done) =
      >>=-eq-ok (replay_enrollment secrets now used r.request_digest db) _ h in
    cc (
      replay-replayed secrets now used r.request_digest db s replays,
      ap (λ p. p.0.is_replayed) (ok-injective (s, db) (session, next) done),
      fresh,
    )

-- The answer to a registration with a token that enrolled another or the same.
abbrev pub answer :
    IssuedSession → SessionTables → Bool → Result Error (IssuedSession × SessionTables)
answer session next same =
    if same then ok (record session { is_replayed = true }, next) else err idempotency_conflict

ltb-true : (a b : ℕ) → a < b → ltb a b ≡ true
ltb-true a b h = ground arith

replay-enrolled :
    (secrets : Secrets) (now later : ℕ) (agent_id session_id digest : String) (e : Enrollment)
    (r : Registration) (lifetime : ℕ) (db : SessionTables)
    → later < now + lifetime
    → (replay_enrollment secrets later agent_id digest
          (enrolled secrets now agent_id session_id e r lifetime db).1
        >>= λ session. ok (session, (enrolled secrets now agent_id session_id e r lifetime db).1))
      ≡ answer
          (enrolled secrets now agent_id session_id e r lifetime db).0
          (enrolled secrets now agent_id session_id e r lifetime db).1
          (str_eq r.request_digest digest)
unfolding replay_enrollment enrolled new_session
replay-enrolled secrets now later agent_id session_id digest e r lifetime db lt =
    elim (Bool-cases (str_eq r.request_digest digest)) [
      | inl same ↦ rw (eq_refl agent_id, ltb-true later (now + lifetime) lt, same) refl
      | inr other ↦ rw (eq_refl agent_id, ltb-true later (now + lifetime) lt, other) refl
    ]

-- The token is found, consumed by the agent.
finds_consumed :
    (secrets : Secrets) (now : ℕ) (agent_id session_id hash : String) (e : Enrollment)
    (r : Registration) (lifetime : ℕ) (db : SessionTables)
    → find? (is_current db hash) db.enrollments ≡ some e
    → find?
        (is_current (enrolled secrets now agent_id session_id e r lifetime db).1 hash)
        (enrolled secrets now agent_id session_id e r lifetime db).1.enrollments
      ≡ some (record e { used_by_agent_id = some agent_id })
unfolding enrolled
finds_consumed secrets now agent_id session_id hash e r lifetime db found =
    find-update_rows (is_current db hash) (λ d. str_eq d.id e.id)
      (λ d. record d { used_by_agent_id = some agent_id }) (λ d. refl) db.enrollments e found
    ∙ rw (eq_refl e.id) refl

-- A token that enrolled an agent enrolls no other: until its first session expires, whatever registration
-- it is presented with again, the answer is that session, if the registration has the same digest,
-- and an error if not; and the tables stay as they are.
pub enroll_agent_again :
    (secrets : Secrets) (now later : ℕ) (agent_id session_id token : String) (r : Registration)
    (lifetime : ℕ) (db next : SessionTables) (session : IssuedSession)
    (other_agent_id other_session_id : String) (again : Registration) (other_lifetime : ℕ)
    → enroll_agent secrets now agent_id session_id token r lifetime db ≡ ok (session, next)
    → session.is_replayed ≡ false
    → later < now + lifetime
    → valid_session_lifetime other_lifetime ≡ true
    → enroll_agent secrets later other_agent_id other_session_id token again other_lifetime next
      ≡ answer session next (str_eq r.request_digest again.request_digest)
unfolding enroll_agent enroll_used
enroll_agent_again secrets now later agent_id session_id token r lifetime db next session
      other_agent_id other_session_id again other_lifetime h fresh lt valid =
    let (_, _, h1) = >>=-eq-ok (refuse (not (valid_session_lifetime lifetime)) invalid) _ h in
    let (e, found, h2) =
      >>=-eq-ok
        (or_fail (find? (is_current db (secrets.hash_token token)) db.enrollments) unauthenticated)
        _ h1 in
    let is_e =
      found_of (find? (is_current db (secrets.hash_token token)) db.enrollments) unauthenticated e
        found in
    let made =
      enroll_used-enrolled secrets now agent_id session_id e r lifetime db next session
        e.used_by_agent_id h2 fresh in
    subst
      (λ p.
        enroll_agent secrets later other_agent_id other_session_id token again other_lifetime p.1
        ≡ answer p.0 p.1 (str_eq r.request_digest again.request_digest))
      made
      (rw
        (
          valid,
          finds_consumed secrets now agent_id session_id (secrets.hash_token token) e r lifetime db
              is_e,
        )
        (replay-enrolled secrets now later agent_id session_id again.request_digest e r lifetime db
          lt))
