-- ===== src/Contracts/Observations.antt =====
-- contracts/jobman/v1alpha1/agent_contracts.go: what an agent observes of a scheduler, of a process and of
-- its artifacts.
use jobman_control.Contracts.Executions.{integer_leb}
use jobman_control.Contracts.Workloads.Parts.{has_text, is_none, is_bad_text}
use jobman_control.Contracts.Workloads.Valid.{is_sorted}
use jobman_control.Contracts.Workloads.Normal.{is_zero}
use jobman_control.Contracts.Names.{Reason, text_bytes, matches_digest, validate_name}
use jobman_control.Contracts.Paths.{is_bad_code, slash}
use jobman_control.Prelude.{
  ℕ, String, Bool, true, false, ◌&&◌, ◌||◌, not, Option, none, some, List, [], ◌∷◌, map, str_eq,
  ltb, any, length, codes, ◌==◌, ℤ, pos, negsuc, Result, ok, err, ◌>>◌, refuse,
}

pub record SchedulerObservation : Type 0 where
  pub backend : String
  pub state : String
  pub reason : String
  pub cluster : String

pub record ProcessResult : Type 0 where
  pub outcome : String
  pub exit_code : Option ℤ
  pub signal : String
  pub failure_code : String

pub record PublishedArtifact : Type 0 where
  pub name : String
  pub store_name : String
  pub store_version : ℤ
  pub object_key : String
  pub byte_length : ℤ
  pub checksum : String

abbrev pub nonterminal_states : List String
nonterminal_states = "queued" ∷ "running" ∷ "suspended" ∷ "completing" ∷ "unknown" ∷ []

abbrev pub terminal_states : List String
terminal_states =
    "completed" ∷ "failed" ∷ "cancelled" ∷ "timed_out" ∷ "preempted" ∷ "node_failed"
    ∷ "out_of_memory" ∷ "boot_failed" ∷ "deadline" ∷ "lost" ∷ []

unfoldable pub validate_scheduler_observation : SchedulerObservation → Result Reason (Unit {0})
unfolding is_bad_text
validate_scheduler_observation s = do
  refuse
      (not (str_eq s.backend "slurm")
        || not (
            str_eq s.state "uncertain"
            || has_text s.state nonterminal_states
            || has_text s.state terminal_states))
      "unsupported scheduler observation"
  refuse (is_bad_text 4096 s.reason || is_bad_text 128 s.cluster)
      "scheduler observation text is invalid"

abbrev pub bad_exit_code : Option ℤ → Bool
bad_exit_code none = false
bad_exit_code (some c) = not (integer_leb (negsuc 0) c) || not (integer_leb c (pos 255))

abbrev pub exits_zero : Option ℤ → Bool
exits_zero none = false
exits_zero (some c) = is_zero c

-- Success with the exit code zero, and with neither a signal nor a failure.
abbrev pub succeeds_cleanly : ProcessResult → Bool
succeeds_cleanly r = exits_zero r.exit_code && str_eq r.signal "" && str_eq r.failure_code ""

unfoldable pub validate_process_result : ProcessResult → Result Reason (Unit {0})
unfolding text_bytes
validate_process_result r = do
  refuse
      (not (
        has_text r.outcome
          ("success" ∷ "failure" ∷ "cancelled" ∷ "timed_out" ∷ "aborted" ∷ "lost" ∷ [])))
      "unsupported process outcome"
  refuse (bad_exit_code r.exit_code) "invalid exit code"
  refuse (ltb 128 (text_bytes r.signal) || ltb 128 (text_bytes r.failure_code))
      "process result text is too long"
  refuse (str_eq r.outcome "success" && not (succeeds_cleanly r)) "success result is inconsistent"
  refuse
      (is_none r.exit_code
        && str_eq r.signal ""
        && str_eq r.failure_code ""
        && not (str_eq r.outcome "lost"))
      "process result has no terminal fact"

abbrev pub is_refused : Result Reason (Unit {0}) → Bool
is_refused (err e) = true
is_refused (ok u) = false

abbrev pub starts_with_slash : List ℕ → Bool
starts_with_slash [] = false
starts_with_slash (c ∷ cs) = c == slash

unfoldable pub validate_published_artifact :
    List String → PublishedArtifact → Result Reason (Unit {0})
unfolding validate_name text_bytes matches_digest
validate_published_artifact seen a = do
  refuse
      (is_refused (validate_name a.name)
        || is_refused (validate_name a.store_name)
        || not (integer_leb (pos 1) a.store_version)
        || str_eq a.object_key ""
        || ltb 65536 (text_bytes a.object_key)
        || starts_with_slash (codes a.object_key)
        || any is_bad_code (codes a.object_key)
        || not (integer_leb (pos 0) a.byte_length)
        || not (matches_digest (codes a.checksum)))
      "invalid published artifact metadata"
  refuse (has_text a.name seen) "duplicate published artifact name"

unfoldable pub validate_artifacts_from :
    List String → List PublishedArtifact → Result Reason (Unit {0})
unfolding validate_published_artifact
validate_artifacts_from seen [] = ok tt
validate_artifacts_from seen (a ∷ others) =
    validate_published_artifact seen a >> validate_artifacts_from (a.name ∷ seen) others

unfoldable pub validate_published_artifacts : List PublishedArtifact → Result Reason (Unit {0})
unfolding validate_artifacts_from is_sorted
validate_published_artifacts artifacts = do
  refuse (ltb 4096 (length artifacts)) "too many published artifacts"
  validate_artifacts_from [] artifacts
  refuse (not (is_sorted (map (λ a. a.name) artifacts))) "published artifacts are not normalized"
