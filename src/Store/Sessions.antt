-- ===== src/Store/Sessions.antt =====
-- internal/store/postgres/agents.go: the transactions of EnrollAgent and RenewAgentSession, and
-- AuthenticateAgent. Instants are natural numbers, `now` is transaction_timestamp() and lifetimes are in nanoseconds.
-- `Secrets` stands for deriveToken with the prefix of sessions (HMAC) and hashToken (SHA-256). The draw
-- of identifiers is an argument. Audit events are left out, and so are the times at which agents were seen.
pub mod Rotation
pub mod Redelivery
use jobman_control.Store.Rows.{
  Error, unauthenticated, conflict, forbidden, idempotency_conflict, invalid, AgentIdentity,
}
use jobman_control.Prelude.{
  ℕ, ◌+◌, String, Bool, true, false, ◌&&◌, ◌||◌, not, Option, none, some, List, [], ◌∷◌,
  if◌then◌else◌, str_eq, ltb, leb, any, find?, update_rows, Result, ok, ◌>>=◌, ◌>>◌, refuse,
  or_fail,
}

pub record Secrets : Type 0 where
  pub derive_token : String → String
  pub hash_token : String → String

-- agent_enrollment_tokens
pub record Enrollment : Type 0 where
  pub id : String
  pub token_hash : String
  pub namespace_id : String
  pub target_id : String
  pub target_generation_id : String
  pub principal_id : String
  pub expected_user : String
  pub expires_at : ℕ
  pub used_by_agent_id : Option String

-- targets, with the columns that agents read
pub record AgentTarget : Type 0 where
  pub id : String
  pub state : String
  pub current_generation_id : String

-- target_generations
pub record Generation : Type 0 where
  pub id : String
  pub execution_backend : String
  pub operating_systems : List String
  pub architectures : List String

-- agents, without the facts that they report about themselves
pub record EnrolledAgent : Type 0 where
  pub id : String
  pub namespace_id : String
  pub target_id : String
  pub target_generation_id : String
  pub principal_id : String
  pub registration_digest : String
  pub status : String

-- agent_sessions, the newest first
pub record AgentSession : Type 0 where
  pub id : String
  pub namespace_id : String
  pub agent_id : String
  pub token_hash : String
  pub expires_at : ℕ
  pub is_revoked : Bool
  pub replaced_by : Option String

pub record SessionTables : Type 0 where
  pub enrollments : List Enrollment
  pub targets : List AgentTarget
  pub generations : List Generation
  pub agents : List EnrolledAgent
  pub sessions : List AgentSession

-- What is read of a registration behind its validation.
pub record Registration : Type 0 where
  pub target_generation_id : String
  pub execution_user : String
  pub execution_backends : List String
  pub operating_system : String
  pub architecture : String
  pub request_digest : String

pub record IssuedSession : Type 0 where
  pub agent_id : String
  pub session_id : String
  pub token : String
  pub expires_at : ℕ
  pub is_replayed : Bool

-- From a minute to a day.
abbrev pub valid_session_lifetime : ℕ → Bool
valid_session_lifetime lifetime = leb 60000000000 lifetime && leb lifetime 86400000000000

abbrev pub is_live_state : String → Bool
is_live_state s = str_eq s "active" || str_eq s "draining"

abbrev pub is_live_session : String → ℕ → AgentSession → Bool
is_live_session hash now s = str_eq s.token_hash hash && not s.is_revoked && ltb now s.expires_at

abbrev pub find_target : List AgentTarget → String → Option AgentTarget
find_target targets id = find? (λ t. str_eq t.id id) targets

abbrev pub has_live_target : List AgentTarget → EnrolledAgent → Bool
has_live_target targets a = elim (find_target targets a.target_id) [
  | none ↦ false
  | some t ↦ is_live_state t.state
]

abbrev pub if_live : List AgentTarget → Option EnrolledAgent → Option EnrolledAgent
if_live targets none = none
if_live targets (some a) =
    if is_live_state a.status && has_live_target targets a then some a else none

-- The agent of a session, if it and its target are active or draining.
unfoldable pub live_agent : SessionTables → String → Option EnrolledAgent
live_agent db agent_id = if_live db.targets (find? (λ a. str_eq a.id agent_id) db.agents)

abbrev pub identity_of : EnrolledAgent → AgentIdentity
identity_of a = record {
  agent_id = a.id;
  namespace_id = a.namespace_id;
  target_generation_id = a.target_generation_id;
}

-- The update of last_seen_at is left out.
unfoldable pub authenticate_agent :
    Secrets → ℕ → String → SessionTables → Result Error AgentIdentity
unfolding live_agent
authenticate_agent secrets now token db = do
  s ← or_fail (find? (is_live_session (secrets.hash_token token) now) db.sessions) unauthenticated
  a ← or_fail (live_agent db s.agent_id) unauthenticated
  ok (identity_of a)

unfoldable pub new_session : Secrets → ℕ → String → EnrolledAgent → ℕ → AgentSession
new_session secrets now session_id agent lifetime = record {
  id = session_id;
  namespace_id = agent.namespace_id;
  agent_id = agent.id;
  token_hash = secrets.hash_token (secrets.derive_token session_id);
  expires_at = now + lifetime;
  is_revoked = false;
  replaced_by = none;
}

abbrev pub issued : Secrets → AgentSession → Bool → IssuedSession
issued secrets s is_replayed = record {
  agent_id = s.agent_id;
  session_id = s.id;
  token = secrets.derive_token s.id;
  expires_at = s.expires_at;
  is_replayed = is_replayed;
}

abbrev pub revoke : String → AgentSession → AgentSession
revoke replacement s = record s { is_revoked = true; replaced_by = some replacement }

-- The new session is inserted, then the old one is revoked by its identifier.
unfoldable pub replace_session : String → AgentSession → List AgentSession → List AgentSession
replace_session old_id session sessions =
    update_rows (λ s. str_eq s.id old_id) (revoke session.id) (session ∷ sessions)

unfoldable pub renew_agent_session :
    Secrets → ℕ → String → String → ℕ → SessionTables → Result Error (IssuedSession × SessionTables)
unfolding live_agent new_session replace_session
renew_agent_session secrets now token new_id lifetime db = do
  refuse (not (valid_session_lifetime lifetime)) invalid
  s ← or_fail (find? (is_live_session (secrets.hash_token token) now) db.sessions) unauthenticated
  a ← or_fail (live_agent db s.agent_id) unauthenticated
  ok (
    issued secrets (new_session secrets now new_id a lifetime) false,
    record db {
      sessions = replace_session s.id (new_session secrets now new_id a lifetime) db.sessions;
    },
  )

-- lookupEnrollmentForUpdate: a token of the current generation of its target.
abbrev pub is_current : SessionTables → String → Enrollment → Bool
is_current db hash e = elim (find_target db.targets e.target_id) [
  | none ↦ false
  | some t ↦
      any (λ g. str_eq g.id e.target_generation_id) db.generations
      && str_eq e.token_hash hash
      && str_eq t.current_generation_id e.target_generation_id
]

-- The sessions from which a replay answers.
abbrev pub is_session_of : String → ℕ → AgentSession → Bool
is_session_of agent_id now s =
    str_eq s.agent_id agent_id && not s.is_revoked && ltb now s.expires_at

unfoldable pub replay_enrollment :
    Secrets → ℕ → String → String → SessionTables → Result Error IssuedSession
replay_enrollment secrets now agent_id digest db = do
  a ← or_fail (find? (λ a. str_eq a.id agent_id) db.agents) conflict
  s ← or_fail (find? (is_session_of agent_id now) db.sessions) conflict
  refuse (not (str_eq a.registration_digest digest)) idempotency_conflict
  ok (issued secrets s true)

abbrev pub allows_value : List String → String → Bool
allows_value [] value = true
allows_value (a ∷ allowed) value = any (str_eq value) (a ∷ allowed)

abbrev pub agent_of : String → Enrollment → Registration → EnrolledAgent
agent_of id e r = record {
  id = id;
  namespace_id = e.namespace_id;
  target_id = e.target_id;
  target_generation_id = e.target_generation_id;
  principal_id = e.principal_id;
  registration_digest = r.request_digest;
  status = "active";
}

abbrev pub consume : String → String → List Enrollment → List Enrollment
consume id agent_id =
    update_rows (λ e. str_eq e.id id) (λ e. record e { used_by_agent_id = some agent_id })

-- What a new enrollment inserts and consumes.
unfoldable pub enrolled :
    Secrets
    → ℕ
    → String
    → String
    → Enrollment
    → Registration
    → ℕ
    → SessionTables
    → IssuedSession × SessionTables
unfolding new_session
enrolled secrets now agent_id session_id e r lifetime db =
    let session = new_session secrets now session_id (agent_of agent_id e r) lifetime in
    (
      issued secrets session false,
      record db {
        agents = agent_of agent_id e r ∷ db.agents;
        sessions = session ∷ db.sessions;
        enrollments = consume e.id agent_id db.enrollments;
      },
    )

unfoldable pub enroll_new :
    Secrets
    → ℕ
    → String
    → String
    → Enrollment
    → Registration
    → ℕ
    → SessionTables
    → Result Error (IssuedSession × SessionTables)
unfolding enrolled
enroll_new secrets now agent_id session_id e r lifetime db = do
  t ← or_fail (find_target db.targets e.target_id) unauthenticated
  g ← or_fail (find? (λ g. str_eq g.id e.target_generation_id) db.generations) unauthenticated
  refuse
      (leb e.expires_at now
        || not (str_eq t.state "active")
        || not (str_eq e.target_generation_id r.target_generation_id))
      conflict
  refuse
      (not (str_eq e.expected_user r.execution_user)
        || not (any (str_eq g.execution_backend) r.execution_backends)
        || not (allows_value g.operating_systems r.operating_system)
        || not (allows_value g.architectures r.architecture))
      forbidden
  ok (enrolled secrets now agent_id session_id e r lifetime db)

-- A token that is used answers again, one that is not is consumed.
unfoldable pub enroll_used :
    Secrets
    → ℕ
    → String
    → String
    → Enrollment
    → Registration
    → ℕ
    → SessionTables
    → Option String
    → Result Error (IssuedSession × SessionTables)
unfolding replay_enrollment enroll_new
enroll_used secrets now agent_id session_id e r lifetime db none =
    enroll_new secrets now agent_id session_id e r lifetime db
enroll_used secrets now agent_id session_id e r lifetime db (some used) =
    replay_enrollment secrets now used r.request_digest db >>= λ session. ok (session, db)

-- EnrollAgent behind the validation of the registration.
unfoldable pub enroll_agent :
    Secrets
    → ℕ
    → String
    → String
    → String
    → Registration
    → ℕ
    → SessionTables
    → Result Error (IssuedSession × SessionTables)
unfolding enroll_used
enroll_agent secrets now agent_id session_id token r lifetime db = do
  refuse (not (valid_session_lifetime lifetime)) invalid
  e ← or_fail (find? (is_current db (secrets.hash_token token)) db.enrollments) unauthenticated
  enroll_used secrets now agent_id session_id e r lifetime db e.used_by_agent_id
