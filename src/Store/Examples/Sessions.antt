-- ===== src/Store/Examples/Sessions.antt =====
-- A target, an enrollment token for it, and the sessions of the agent that uses the token.
use Prim.Native.String.{◌++◌ as concat}
use jobman_control.Store.Sessions.{
  Secrets, SessionTables, Registration, IssuedSession, enroll_agent, renew_agent_session,
  authenticate_agent,
}
use jobman_control.Store.Sessions.Redelivery.{answer, enroll_agent_again}
use jobman_control.Store.Sessions.Rotation.{renew_agent_session_rotates}
use jobman_control.Store.Rows.{unauthenticated, conflict}
use jobman_control.Prelude.{ℕ, ◌+◌, true, false, [], ◌∷◌, some, none, ok, err, ◌≡◌, refl, arith}

abbrev secrets : Secrets
secrets = record { derive_token = λ id. concat "jms_" id; hash_token = λ t. concat "#" t }

abbrev hour : ℕ
hour = 3600000000000

abbrev start : SessionTables
start = record {
  enrollments =
      record {
        id = "e1";
        token_hash = "#jme_1";
        namespace_id = "ns";
        target_id = "t1";
        target_generation_id = "g1";
        principal_id = "p1";
        expected_user = "batch";
        expires_at = hour;
        used_by_agent_id = none;
      }
      ∷ [];
  targets = record { id = "t1"; state = "active"; current_generation_id = "g1" } ∷ [];
  generations =
      record {
        id = "g1";
        execution_backend = "slurm";
        operating_systems = "linux" ∷ [];
        architectures = [];
      }
      ∷ [];
  agents = [];
  sessions = [];
}

abbrev registration : Registration
registration = record {
  target_generation_id = "g1";
  execution_user = "batch";
  execution_backends = "slurm" ∷ "subprocess" ∷ [];
  operating_system = "linux";
  architecture = "amd64";
  request_digest = "d1";
}

abbrev first_session : IssuedSession
first_session = record {
  agent_id = "a1";
  session_id = "s1";
  token = "jms_s1";
  expires_at = 10 + hour;
  is_replayed = false;
}

abbrev with_agent : SessionTables
with_agent = record start {
  enrollments =
      record {
        id = "e1";
        token_hash = "#jme_1";
        namespace_id = "ns";
        target_id = "t1";
        target_generation_id = "g1";
        principal_id = "p1";
        expected_user = "batch";
        expires_at = hour;
        used_by_agent_id = some "a1";
      }
      ∷ [];
  agents =
      record {
        id = "a1";
        namespace_id = "ns";
        target_id = "t1";
        target_generation_id = "g1";
        principal_id = "p1";
        registration_digest = "d1";
        status = "active";
      }
      ∷ [];
  sessions =
      record {
        id = "s1";
        namespace_id = "ns";
        agent_id = "a1";
        token_hash = "#jms_s1";
        expires_at = 10 + hour;
        is_revoked = false;
        replaced_by = none;
      }
      ∷ [];
}

enrolls :
    enroll_agent secrets 10 "a1" "s1" "jme_1" registration hour start
    ≡ ok (first_session, with_agent)
unfolding enroll_agent
enrolls = refl

refuses_late : enroll_agent secrets hour "a1" "s1" "jme_1" registration hour start ≡ err conflict
unfolding enroll_agent
refuses_late = refl

enroll_agent_again_example :
    enroll_agent secrets 20 "a2" "s2" "jme_1"
      (record registration { request_digest = "d2" })
      hour
      with_agent
    ≡ answer first_session with_agent false
enroll_agent_again_example =
    enroll_agent_again secrets 10 20 "a1" "s1" "jme_1" registration hour start with_agent
      first_session "a2" "s2" (record registration { request_digest = "d2" }) hour enrolls refl
      (omega arith) refl

abbrev second_session : IssuedSession
second_session = record {
  agent_id = "a1";
  session_id = "s2";
  token = "jms_s2";
  expires_at = 30 + hour;
  is_replayed = false;
}

abbrev with_two_sessions : SessionTables
with_two_sessions = record with_agent {
  sessions =
      record {
        id = "s2";
        namespace_id = "ns";
        agent_id = "a1";
        token_hash = "#jms_s2";
        expires_at = 30 + hour;
        is_revoked = false;
        replaced_by = none;
      }
      ∷ record {
        id = "s1";
        namespace_id = "ns";
        agent_id = "a1";
        token_hash = "#jms_s1";
        expires_at = 10 + hour;
        is_revoked = true;
        replaced_by = some "s2";
      }
      ∷ [];
}

renews :
    renew_agent_session secrets 30 "jms_s1" "s2" hour with_agent
    ≡ ok (second_session, with_two_sessions)
unfolding renew_agent_session
renews = refl

renew_agent_session_rotates_example :
    (authenticate_agent secrets 40 "jms_s2" with_two_sessions
      ≡ authenticate_agent secrets 30 "jms_s1" with_agent)
    × (authenticate_agent secrets 40 "jms_s1" with_two_sessions ≡ err unauthenticated)
renew_agent_session_rotates_example =
    renew_agent_session_rotates secrets 30 40 "jms_s1" "s2" hour with_agent with_two_sessions
      second_session (refl, tt) refl refl (omega arith) (omega arith) renews
