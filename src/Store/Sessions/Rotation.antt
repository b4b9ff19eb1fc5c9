-- ===== src/Store/Sessions/Rotation.antt =====
-- internal/store/postgres/agents.go: RenewAgentSession rotates the token of an agent.
use jobman_control.Store.Sessions.{
  AgentTarget, if_live, is_live_state, has_live_target, Secrets, AgentSession, EnrolledAgent,
  SessionTables, IssuedSession, valid_session_lifetime, is_live_session, live_agent, identity_of,
  authenticate_agent, new_session, revoke, replace_session, renew_agent_session,
}
use jobman_control.Store.Rows.{unauthenticated, invalid}
use jobman_control.Prelude.{
  ℕ, ◌+◌, ◌≤◌, ◌<◌, String, Bool, true, false, ◌&&◌, not, Option, none, some, List, [], ◌∷◌,
  if◌then◌else◌, str_eq, any, find?, find?-Member, update_rows, ok, err, refuse, or_fail, >>=-eq-ok,
  found_of, ok-injective, ◌≡◌, refl, sym, ◌∙◌, subst, arith, Bool-cases, inl, inr, eq_iff, eq_refl,
}

-- No two sessions have the same token hash: the column is unique.
abbrev pub UniqueHashes : List AgentSession → Type 0
UniqueHashes [] = Unit
UniqueHashes (s ∷ ss) = (any (λ r. str_eq r.token_hash s.token_hash) ss ≡ false) × UniqueHashes ss

abbrev with_id : String → AgentSession → Bool
with_id id s = str_eq s.id id

none_of_hash :
    (hash old_id new_id : String) (now : ℕ) (ss : List AgentSession)
    → any (λ r. str_eq r.token_hash hash) ss ≡ false
    → find? (is_live_session hash now) (update_rows (with_id old_id) (revoke new_id) ss) ≡ none
none_of_hash hash old_id new_id now [] h = refl
none_of_hash hash old_id new_id now (s ∷ ss) h =
    ground (arith, h, none_of_hash hash old_id new_id now ss)

stays_dead :
    (hash new_id : String) (now later : ℕ) (b : Bool) (r : AgentSession)
    → now ≤ later
    → is_live_session hash now r ≡ false
    → is_live_session hash later (if b then revoke new_id r else r) ≡ false
stays_dead hash new_id now later b r le dead = ground arith

revoked_dead :
    (hash new_id : String) (now : ℕ) (r : AgentSession)
    → is_live_session hash now (revoke new_id r) ≡ false
revoked_dead hash new_id now r = ground arith

hash_of_live :
    (hash : String) (now : ℕ) (r : AgentSession)
    → is_live_session hash now r ≡ true
    → r.token_hash ≡ hash
hash_of_live hash now r live = (eq_iff r.token_hash hash).0 (ground (arith, live))

some_injective : (r s : AgentSession) → ◌≡◌ {A = Option AgentSession} (some r) (some s) → r ≡ s
some_injective r s h = cc

found_first :
    (p : AgentSession → Bool) (r s : AgentSession) (rs : List AgentSession)
    → p r ≡ true
    → find? p (r ∷ rs) ≡ some s
    → r ≡ s
found_first p r s rs e h = some_injective r s (sym (rw e refl) ∙ h)

-- The token that was live is dead once its session is revoked, then and later.
old_token_dies :
    (hash new_id : String) (now later : ℕ) (ss : List AgentSession) (s : AgentSession)
    → now ≤ later
    → UniqueHashes ss
    → find? (is_live_session hash now) ss ≡ some s
    → find? (is_live_session hash later) (update_rows (with_id s.id) (revoke new_id) ss) ≡ none
old_token_dies hash new_id now later [] s le u h = cc
old_token_dies hash new_id now later (r ∷ rs) s le u h =
    elim (Bool-cases (is_live_session hash now r)) [
      | inl live ↦
          subst
            (λ k.
              find? (is_live_session hash later)
                (update_rows (with_id k.id) (revoke new_id) (r ∷ rs))
              ≡ none)
            (found_first (is_live_session hash now) r s rs live h)
            (rw (eq_refl r.id, revoked_dead hash new_id later r)
              (none_of_hash hash r.id new_id later rs (
                subst (λ k. any (λ q. str_eq q.token_hash k) rs ≡ false)
                  (hash_of_live hash now r live) u.0)))
      | inr dead ↦
          rw (stays_dead hash new_id now later (with_id s.id r) r le dead)
            (old_token_dies hash new_id now later rs s le u.1 (ground (arith, dead, h)))
    ]

-- A renewed session's row: it comes first, it is live, and the old token does not find it.
new_session_live :
    (secrets : Secrets) (now later : ℕ) (new_id : String) (a : EnrolledAgent) (lifetime : ℕ)
    → later < now + lifetime
    → is_live_session
        (secrets.hash_token (secrets.derive_token new_id))
        later
        (new_session secrets now new_id a lifetime)
      ≡ true
unfolding new_session
new_session_live secrets now later new_id a lifetime h =
    ground (arith, eq_refl (secrets.hash_token (secrets.derive_token new_id)))

new_session_apart :
    (secrets : Secrets) (now later : ℕ) (new_id hash : String) (a : EnrolledAgent) (lifetime : ℕ)
    → str_eq (secrets.hash_token (secrets.derive_token new_id)) hash ≡ false
    → is_live_session hash later (new_session secrets now new_id a lifetime) ≡ false
unfolding new_session
new_session_apart secrets now later new_id hash a lifetime h = rw h refl

find-replace_session :
    (p : AgentSession → Bool) (old_id : String) (session : AgentSession) (ss : List AgentSession)
    → str_eq session.id old_id ≡ false
    → find? p (replace_session old_id session ss) ≡ (
        if p session
        then some session
        else find? p (update_rows (with_id old_id) (revoke session.id) ss))
unfolding replace_session
find-replace_session p old_id session ss h = rw h refl

id_of_found :
    (p : AgentSession → Bool) (id : String) (ss : List AgentSession) (s : AgentSession)
    → any (λ r. str_eq id r.id) ss ≡ false
    → find? p ss ≡ some s
    → str_eq id s.id ≡ false
id_of_found p id [] s n h = cc
id_of_found p id (r ∷ rs) s n h = elim (Bool-cases (p r)) [
  | inl e ↦ subst (λ k. str_eq id k.id ≡ false) (found_first p r s rs e h) (ground (arith, n))
  | inr e ↦ id_of_found p id rs s (ground (arith, n)) (ground (arith, e, h))
]

if_live_same :
    (targets : List AgentTarget) (o : Option EnrolledAgent) (a : EnrolledAgent)
    → if_live targets o ≡ some a
    → o ≡ some a
if_live_same targets none a h = cc
if_live_same targets (some b) a h =
    elim (Bool-cases (is_live_state b.status && has_live_target targets b)) [
      | inl e ↦ sym (rw e refl) ∙ h
      | inr e ↦ ground (arith, e, h)
    ]

live_agent_id :
    (db : SessionTables) (id : String) (a : EnrolledAgent) → live_agent db id ≡ some a → id ≡ a.id
unfolding live_agent
live_agent_id db id a h = sym (
    (eq_iff a.id id).0
      (find?-Member (λ b. str_eq b.id id) db.agents a
        (if_live_same db.targets (find? (λ b. str_eq b.id id) db.agents) a h)).1)

-- The tables after a renewal.
abbrev renewed :
    Secrets → ℕ → String → ℕ → AgentSession → EnrolledAgent → SessionTables → SessionTables
renewed secrets now new_id lifetime s a db = record db {
  sessions = replace_session s.id (new_session secrets now new_id a lifetime) db.sessions;
}

new_token_authenticates :
    (secrets : Secrets) (now later : ℕ) (new_id : String) (lifetime : ℕ) (db : SessionTables)
    (s : AgentSession) (a : EnrolledAgent)
    → str_eq new_id s.id ≡ false
    → later < now + lifetime
    → live_agent db s.agent_id ≡ some a
    → authenticate_agent secrets later
        (secrets.derive_token new_id)
        (renewed secrets now new_id lifetime s a db)
      ≡ ok (identity_of a)
unfolding authenticate_agent live_agent new_session
new_token_authenticates secrets now later new_id lifetime db s a other lt alive =
    rw
      (
        find-replace_session
            (is_live_session (secrets.hash_token (secrets.derive_token new_id)) later) s.id
            (new_session secrets now new_id a lifetime) db.sessions other,
        new_session_live secrets now later new_id a lifetime lt,
        subst (λ id. live_agent db id ≡ some a) (live_agent_id db s.agent_id a alive) alive,
      )
      refl

old_token_fails :
    (secrets : Secrets) (now later : ℕ) (token new_id : String) (lifetime : ℕ) (db : SessionTables)
    (s : AgentSession) (a : EnrolledAgent)
    → UniqueHashes db.sessions
    → str_eq new_id s.id ≡ false
    → str_eq (secrets.hash_token (secrets.derive_token new_id)) (secrets.hash_token token) ≡ false
    → now ≤ later
    → find? (is_live_session (secrets.hash_token token) now) db.sessions ≡ some s
    → authenticate_agent secrets later token (renewed secrets now new_id lifetime s a db)
      ≡ err unauthenticated
unfolding authenticate_agent new_session
old_token_fails secrets now later token new_id lifetime db s a unique other apart le found =
    rw
      (
        find-replace_session (is_live_session (secrets.hash_token token) later) s.id
            (new_session secrets now new_id a lifetime) db.sessions other,
        new_session_apart secrets now later new_id (secrets.hash_token token) a lifetime apart,
        old_token_dies (secrets.hash_token token) new_id now later db.sessions s le unique found,
      )
      refl

-- After RenewAgentSession the token that it returns authenticates, until it expires, the agent that the old
-- token did, and the old token authenticates nobody, if the token hashes of the table are unique and
-- the new identifier and the hash of its token are not in use.
pub renew_agent_session_rotates :
    (secrets : Secrets) (now later : ℕ) (token new_id : String) (lifetime : ℕ)
    (db next : SessionTables) (session : IssuedSession)
    → UniqueHashes db.sessions
    → any (λ s. str_eq new_id s.id) db.sessions ≡ false
    → str_eq (secrets.hash_token (secrets.derive_token new_id)) (secrets.hash_token token) ≡ false
    → now ≤ later
    → later < now + lifetime
    → renew_agent_session secrets now token new_id lifetime db ≡ ok (session, next)
    → (authenticate_agent secrets later session.token next
        ≡ authenticate_agent secrets now token db)
      × (authenticate_agent secrets later token next ≡ err unauthenticated)
unfolding renew_agent_session authenticate_agent new_session
renew_agent_session_rotates secrets now later token new_id lifetime db next session unique fresh
      apart le lt h =
    let (_, _, h1) = >>=-eq-ok (refuse (not (valid_session_lifetime lifetime)) invalid) _ h in
    let (s, found, h2) =
      >>=-eq-ok
        (or_fail (find? (is_live_session (secrets.hash_token token) now) db.sessions)
          unauthenticated)
        _ h1 in
    let (a, alive, h3) = >>=-eq-ok (or_fail (live_agent db s.agent_id) unauthenticated) _ h2 in
    let is_s =
      found_of (find? (is_live_session (secrets.hash_token token) now) db.sessions) unauthenticated
        s found in
    let is_a = found_of (live_agent db s.agent_id) unauthenticated a alive in
    let other =
      id_of_found (is_live_session (secrets.hash_token token) now) new_id db.sessions s fresh
        is_s in
    subst
      (λ p.
        (authenticate_agent secrets later p.0.token p.1 ≡ authenticate_agent secrets now token db)
        × (authenticate_agent secrets later token p.1 ≡ err unauthenticated))
      (ok-injective _ (session, next) h3)
      (
        new_token_authenticates secrets now later new_id lifetime db s a other lt is_a
            ∙ sym (rw (is_s, is_a) refl),
        old_token_fails secrets now later token new_id lifetime db s a unique other apart le is_s,
      )
