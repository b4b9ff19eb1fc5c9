-- ===== src/Contracts/Events/Facts.antt =====
-- contracts/jobman/v1alpha1/agent_contracts.go: what an execution event of each type carries.
use jobman_control.Contracts.Events.{
  ExecutionEvent, validate_started, validate_process_completed, validate_scheduler_facts,
  validate_scheduler_completed, validate_event_facts, validate_execution_event,
}
use jobman_control.Contracts.Offers.{valid_protocol_time}
use jobman_control.Contracts.Observations.{
  ProcessResult, nonterminal_states, terminal_states, validate_scheduler_observation,
  succeeds_cleanly, bad_exit_code, validate_process_result,
}
use jobman_control.Contracts.Executions.{check_id, integer_leb}
use jobman_control.Contracts.Workloads.Parts.{has_text, is_none, each}
use jobman_control.Contracts.Names.{text_bytes}
use jobman_control.Contracts.Paths.{is_empty}
use jobman_control.Prelude.{
  String, Bool, true, false, ◌&&◌, ◌||◌, not, Option, none, some, List, [], ◌∷◌, str_eq, ltb, pos,
  ok, refuse, or_fail, >>=-eq-ok, refuse-eq-ok, found_of, ◌≡◌, refl, sym, ap, ◌∙◌, subst, arith,
  Bool-cases, inl, inr, eq_iff,
}

-- The types of events that report the end of a process.
abbrev pub reports_end : String → Bool
reports_end t = str_eq t "process.completed" || str_eq t "scheduler.completed"

-- The types of events that report what a scheduler says.
abbrev pub of_scheduler : String → Bool
of_scheduler t = has_text t (
    "scheduler.uncertain" ∷ "scheduler.submitted" ∷ "scheduler.observed" ∷ "scheduler.completed"
    ∷ [])

-- The types of events that name a native process or job.
abbrev pub names_native : String → Bool
names_native t =
    has_text t (
      "process.started" ∷ "scheduler.submitted" ∷ "scheduler.observed" ∷ "scheduler.completed" ∷ [])

-- A result that is a success has the exit code zero, and neither a signal nor a failure.
abbrev pub is_consistent : Option ProcessResult → Bool
is_consistent none = true
is_consistent (some r) = not (str_eq r.outcome "success") || succeeds_cleanly r

-- Whether there is a native name, an observation of a scheduler, and a result.
abbrev pub Carries : Bool → Bool → Bool → ExecutionEvent → Type 0
Carries native scheduler result e =
    (not (str_eq e.native_id "") ≡ native)
    × (not (is_none e.scheduler) ≡ scheduler)
    × (not (is_none e.result) ≡ result)
    × (is_empty e.artifacts || result ≡ true)
    × (is_consistent e.result ≡ true)

absent_is_consistent : (o : Option ProcessResult) → not (is_none o) ≡ false → is_consistent o ≡ true
absent_is_consistent none h = refl
absent_is_consistent (some r) h = cc

validate_process_result_consistent :
    (r : ProcessResult) → validate_process_result r ≡ ok tt → is_consistent (some r) ≡ true
unfolding validate_process_result
validate_process_result_consistent r h =
    let (_, _, h1) =
      >>=-eq-ok
        (refuse
          (not (
            has_text r.outcome
              ("success" ∷ "failure" ∷ "cancelled" ∷ "timed_out" ∷ "aborted" ∷ "lost" ∷ [])))
          "unsupported process outcome")
        _ h in
    let (_, _, h2) = >>=-eq-ok (refuse (bad_exit_code r.exit_code) "invalid exit code") _ h1 in
    let (_, _, h3) =
      >>=-eq-ok
        (refuse (ltb 128 (text_bytes r.signal) || ltb 128 (text_bytes r.failure_code))
          "process result text is too long")
        _ h2 in
    let (_, success, h4) =
      >>=-eq-ok
        (refuse (str_eq r.outcome "success" && not (succeeds_cleanly r))
          "success result is inconsistent")
        _ h3 in
    ground (
      arith,
      refuse-eq-ok (str_eq r.outcome "success" && not (succeeds_cleanly r))
          "success result is inconsistent" success,
    )

validate_started-Carries :
    (e : ExecutionEvent) → validate_started e ≡ ok tt → Carries true false false e
unfolding validate_started
validate_started-Carries e h =
    let clear =
      refuse-eq-ok
        (str_eq e.native_id ""
          || ltb 4096 (text_bytes e.native_id)
          || not (is_none e.scheduler)
          || not (is_none e.result)
          || not (is_empty e.artifacts))
        "invalid process started facts" h in
    (
      ground (arith, clear),
      ground (arith, clear),
      ground (arith, clear),
      ground (arith, clear),
      absent_is_consistent e.result (ground (arith, clear)),
    )

none_of_four :
    (a b c d : Bool)
    → a || b || c || d ≡ false
    → (a ≡ false) × (b ≡ false) × (c ≡ false) × (d ≡ false)
none_of_four a b c d h =
    (ground (arith, h), ground (arith, h), ground (arith, h), ground (arith, h))

of_not : (b : Bool) → not b ≡ false → b ≡ true
of_not true h = refl
of_not false h = cc

validate_scheduler_facts-Carries :
    (states : List String) (native named : Bool) (e : ExecutionEvent)
    → (native ≡ true → not (str_eq e.native_id "") ≡ named)
    → validate_scheduler_facts states native e ≡ ok tt
    → Carries named true false e
unfolding validate_scheduler_facts
validate_scheduler_facts-Carries states native named e n h =
    let (s, found, h1) = >>=-eq-ok (or_fail e.scheduler "invalid scheduler facts") _ h in
    let (_, clear, h2) =
      >>=-eq-ok
        (refuse
          (not native
            || not (is_none e.result)
            || not (has_text s.state states)
            || not (is_empty e.artifacts))
          "invalid scheduler facts")
        _ h1 in
    let (is_native, no_result, _, no_artifacts) =
      none_of_four (not native) (not (is_none e.result)) (not (has_text s.state states))
        (not (is_empty e.artifacts))
        (refuse-eq-ok
          (not native
            || not (is_none e.result)
            || not (has_text s.state states)
            || not (is_empty e.artifacts))
          "invalid scheduler facts" clear) in
    (
      n (of_not native is_native),
      ap (λ o. not (is_none o)) (found_of e.scheduler "invalid scheduler facts" s found),
      no_result,
      rw (of_not (is_empty e.artifacts) no_artifacts) refl,
      absent_is_consistent e.result no_result,
    )

validate_process_completed-Carries :
    (e : ExecutionEvent) → validate_process_completed e ≡ ok tt → Carries false false true e
unfolding validate_process_completed
validate_process_completed-Carries e h =
    let (_, clear, h1) =
      >>=-eq-ok
        (refuse (not (str_eq e.native_id "") || not (is_none e.scheduler))
          "invalid process completion facts")
        _ h in
    let (r, found, h2) = >>=-eq-ok (or_fail e.result "invalid process completion facts") _ h1 in
    let (_, valid, _) = >>=-eq-ok (validate_process_result r) _ h2 in
    let facts =
      refuse-eq-ok (not (str_eq e.native_id "") || not (is_none e.scheduler))
        "invalid process completion facts" clear in
    let is_result = found_of e.result "invalid process completion facts" r found in
    (
      ground (arith, facts),
      ground (arith, facts),
      ap (λ o. not (is_none o)) is_result,
      ground arith,
      ap is_consistent is_result ∙ validate_process_result_consistent r valid,
    )

validate_scheduler_completed-Carries :
    (e : ExecutionEvent) → validate_scheduler_completed e ≡ ok tt → Carries true true true e
unfolding validate_scheduler_completed
validate_scheduler_completed-Carries e h =
    let (_, named, h1) =
      >>=-eq-ok (refuse (str_eq e.native_id "") "invalid scheduler completion facts") _ h in
    let (r, found, h2) = >>=-eq-ok (or_fail e.result "invalid scheduler completion facts") _ h1 in
    let (s, seen, h3) = >>=-eq-ok (or_fail e.scheduler "invalid scheduler completion facts") _ h2 in
    let (_, _, h4) =
      >>=-eq-ok
        (refuse (not (has_text s.state terminal_states)) "invalid scheduler completion facts") _
        h3 in
    let (_, _, h5) = >>=-eq-ok (validate_scheduler_observation s) _ h4 in
    let (_, valid, _) = >>=-eq-ok (validate_process_result r) _ h5 in
    let is_result = found_of e.result "invalid scheduler completion facts" r found in
    (
      ap not (refuse-eq-ok (str_eq e.native_id "") "invalid scheduler completion facts" named),
      ap (λ o. not (is_none o)) (found_of e.scheduler "invalid scheduler completion facts" s seen),
      ap (λ o. not (is_none o)) is_result,
      ground arith,
      ap is_consistent is_result ∙ validate_process_result_consistent r valid,
    )

-- What an event carries, by its type.
abbrev pub CarriesOf : String → ExecutionEvent → Type 0
CarriesOf t e = Carries (names_native t) (of_scheduler t) (reports_end t) e

of_type :
    (e : ExecutionEvent) (t : String)
    → str_eq e.event_type t ≡ true
    → CarriesOf t e
    → CarriesOf e.event_type e
of_type e t h c = subst (λ u. CarriesOf u e) (sym ((eq_iff e.event_type t).0 h)) c

validate_event_facts-Carries :
    (e : ExecutionEvent) → validate_event_facts e ≡ ok tt → CarriesOf e.event_type e
unfolding validate_event_facts
validate_event_facts-Carries e h = elim (Bool-cases (str_eq e.event_type "process.started")) [
  | inl t ↦ of_type e "process.started" t (validate_started-Carries e (ground (arith, t, h)))
  | inr t1 ↦ elim (Bool-cases (str_eq e.event_type "process.completed")) [
    | inl t ↦
        of_type e "process.completed" t
          (validate_process_completed-Carries e (ground (arith, t1, t, h)))
    | inr t2 ↦ elim (Bool-cases (str_eq e.event_type "scheduler.uncertain")) [
      | inl t ↦ of_type e "scheduler.uncertain" t (
          validate_scheduler_facts-Carries ("uncertain" ∷ []) (str_eq e.native_id "") false e
            (λ n. ap not n) (ground (arith, t1, t2, t, h)))
      | inr t3 ↦ elim (Bool-cases (str_eq e.event_type "scheduler.submitted")) [
        | inl t ↦ of_type e "scheduler.submitted" t (
            validate_scheduler_facts-Carries ("queued" ∷ "unknown" ∷ [])
              (not (str_eq e.native_id "")) true e (λ n. n) (ground (arith, t1, t2, t3, t, h)))
        | inr t4 ↦ elim (Bool-cases (str_eq e.event_type "scheduler.observed")) [
          | inl t ↦ of_type e "scheduler.observed" t (
              validate_scheduler_facts-Carries nonterminal_states (not (str_eq e.native_id "")) true
                e (λ n. n) (ground (arith, t1, t2, t3, t4, t, h)))
          | inr t5 ↦ elim (Bool-cases (str_eq e.event_type "scheduler.completed")) [
            | inl t ↦
                of_type e "scheduler.completed" t (
                  validate_scheduler_completed-Carries e (ground (arith, t1, t2, t3, t4, t5, t, h)))
            | inr t6 ↦ ground (arith, t1, t2, t3, t4, t5, t6, h)
          ]
        ]
      ]
    ]
  ]
]

-- An event that ValidateExecutionEvent accepts has a positive sequence number, and it carries what its
-- type says: a native name unless it ends a plain process or is uncertain, an observation exactly if it
-- comes from a scheduler, a result exactly if it reports an end, artifacts only then; and a result that
-- is a success has the exit code zero, and neither a signal nor a failure.
pub validate_execution_event-Carries :
    (e : ExecutionEvent)
    → validate_execution_event e ≡ ok tt
    → (integer_leb (pos 1) e.sequence ≡ true) × CarriesOf e.event_type e
unfolding validate_execution_event
validate_execution_event-Carries e h =
    let (_, _, h1) =
      >>=-eq-ok
        (refuse
          (not (str_eq e.api_version "jobman/v1alpha1") || not (str_eq e.kind "ExecutionEvent"))
          "unsupported contract")
        _ h in
    let (_, _, h2) =
      >>=-eq-ok (each check_id (e.event_id ∷ e.execution_id ∷ e.agent_id ∷ [])) _ h1 in
    let (_, ordered, facts) =
      >>=-eq-ok
        (refuse (not (integer_leb (pos 1) e.sequence) || not (valid_protocol_time e.observed_at))
          "invalid ordering metadata")
        _ h2 in
    (
      ground (
        arith,
        refuse-eq-ok
            (not (integer_leb (pos 1) e.sequence) || not (valid_protocol_time e.observed_at))
            "invalid ordering metadata" ordered,
      ),
      validate_event_facts-Carries e facts,
    )
