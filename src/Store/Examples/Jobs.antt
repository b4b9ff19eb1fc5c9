-- ===== src/Store/Examples/Jobs.antt =====
-- A job assigned, accepted and started.
use jobman_control.Store.EventChecks.{check_event, is_some}
use jobman_control.Store.Events.{store_event, record_event}
use jobman_control.Store.Coordinator.Limits.{offered_work-Evolves}
use jobman_control.Store.Consistency.Redelivery.{
  accept_assignment_again, accepted_dispatch, record_event_again,
}
use jobman_control.Store.Coordinator.Within.{WithinLimits, reconcile_one_assignment-WithinLimits}
use jobman_control.Store.Coordinator.Claims.{Answers, reconcile_one_assignment-Answers}
use jobman_control.Store.Coordinator.Made.{Assigns, waiting_jobs}
use jobman_control.Store.Coordinator.Fairness.{IsAhead, claim_assignment_candidate_fair}
use jobman_control.Store.Coordinator.Loop.{Stops, reconcile_assignments_counts}
use jobman_control.Store.Coordinator.{is_claimable, placement}
use jobman_control.Store.Examples.Fixtures.{
  identity, sealed_as, tables, drawn, waiting, acceptance, generation, tables-IsSound, agent,
  finished, started,
}
use jobman_control.Store.Transactions.{accept_assignment_transaction}
use jobman_control.Store.Database.{Database, put_work, GenerationRow, AgentRow}
use jobman_control.Store.Database.Evolution.{IsSound, AllEvolve}
use jobman_control.Store.Acceptance.{
  accept_assignment, accepted_work, accept_execution_row, accept_assignment_row, accept_run_row,
}
use jobman_control.Store.Consistency.{WorkFits}
use jobman_control.Store.Histories.{
  History, then_commits, History-AllEvolve, starts, assigns, accepts, ExecutionOutcomeIs,
  History_keeps_outcome,
}
use jobman_control.Store.Coordinator.Offer.{
  reconcile_assignments, reconcile_one_assignment, claim_assignment_candidate, assigned_tables,
  offered_work, planned_dispatch, Identifiers,
}
use jobman_control.Store.Rows.{
  Dispatch, LaunchAuthorization, Work, JobPhase, Outcome, Error, Job, invalid,
}
use jobman_control.Prelude.{
  ℕ, ◌+◌, ◌-◌, ◌≤◌, ◌<◌, ◌⊎◌, String, Bool, true, false, some, Result, ok, err, ◌≡◌, refl, inl, inr,
  Member,
}

abbrev offered_job : Work
offered_job = offered_work drawn "sha256:0" 1200 generation agent waiting

abbrev assigned : Database
assigned = assigned_tables 1200 waiting offered_job tables

claimed : claim_assignment_candidate 1200 tables ≡ some waiting
unfolding claim_assignment_candidate is_claimable
claimed = refl

assigns_job :
    reconcile_one_assignment (sealed_as "sha256:0") drawn 1200 tables ≡ ok (true, assigned)
unfolding reconcile_one_assignment
assigns_job = refl

abbrev dispatch : Dispatch
dispatch = planned_dispatch drawn "sha256:0" 1200 generation agent waiting.job

abbrev taken_job : Work
taken_job = accepted_work identity acceptance 1250 offered_job dispatch

abbrev accepted_tables : Database
accepted_tables = record assigned { works = put_work taken_job assigned.works }

abbrev launch : LaunchAuthorization
launch = record {
  authorization_id = "d1";
  execution_id = "e1";
  agent_id = "a1";
  target_generation_id = "g1";
  effective_execution_digest = "sha256:0";
  revision = 2;
  accepted_at = 1250;
  replayed = false;
}

accepts_job :
    accept_assignment_transaction identity acceptance 1250 assigned ≡ ok (launch, accepted_tables)
unfolding accept_assignment_transaction offered_work planned_dispatch assigned_tables put_work
accepts_job = refl

accepts_rows :
    accept_assignment identity acceptance 1250 offered_job dispatch ≡ ok (launch, taken_job)
unfolding accept_assignment offered_work planned_dispatch
accepts_rows = refl

abbrev history : History tables accepted_tables
history =
    then_commits (then_commits starts (assigns (sealed_as "sha256:0") drawn 1200 true assigns_job))
      (accepts identity acceptance 1250 launch accepts_job)

History-AllEvolve_example :
    IsSound accepted_tables.works × AllEvolve tables.works accepted_tables.works
History-AllEvolve_example = History-AllEvolve tables accepted_tables tables-IsSound history

History_keeps_outcome_example :
    (v : Work) × Member v accepted_tables.works
    × (v.job.id ≡ "j2")
    × (v.job.phase ≡ JobPhase.terminal)
    × (v.job.outcome ≡ some Outcome.cancelled)
    × (is_some finished.job.outcome ≡ true)
    × ExecutionOutcomeIs (some Outcome.cancelled) v.dispatch
History_keeps_outcome_example =
    History_keeps_outcome tables accepted_tables finished tables-IsSound history (inr (inl refl))
      refl

reconcile_one_assignment-WithinLimits_example :
    (w : Work) × (w' : Work) × (agent_id : String) × (digest : String) × Assigns tables.works
      assigned.works w w' agent_id digest
    × WithinLimits tables assigned w.job
reconcile_one_assignment-WithinLimits_example =
    reconcile_one_assignment-WithinLimits (sealed_as "sha256:0") drawn 1200 tables assigned
      tables-IsSound assigns_job

waiting-is_claimable : is_claimable 1200 tables waiting ≡ true
unfolding is_claimable
waiting-is_claimable = refl

claim_assignment_candidate_fair_example :
    (w : Work) × (claim_assignment_candidate 1200 tables ≡ some w)
    × Member w tables.works
    × (is_claimable 1200 tables w ≡ true)
    × (¬ (IsAhead tables waiting.job w.job))
claim_assignment_candidate_fair_example =
    claim_assignment_candidate_fair 1200 tables waiting (inl refl) waiting-is_claimable

reconcile_one_assignment-Answers_example :
    (g : GenerationRow) × (a : AgentRow) × (placement 1200 tables waiting.job ≡ some (g, a))
    × Answers (sealed_as "sha256:0") drawn 1200 tables waiting g a
reconcile_one_assignment-Answers_example =
    reconcile_one_assignment-Answers (sealed_as "sha256:0") drawn 1200 tables waiting tables-IsSound
      claimed

abbrev each_drawn : ℕ → Identifiers
each_drawn n = drawn

abbrev each_began : ℕ → ℕ
each_began n = 1202 - n

reconcile_assignments_counts_example :
    let (n, e, last) =
      reconcile_assignments (sealed_as "sha256:0") each_drawn each_began 3 tables in
    ((3 < 1) ⊎ (1000 < 3)) × (n ≡ 0) × (e ≡ some invalid) × (last ≡ tables)
    ⊎ (1 ≤ 3)
      × (3 ≤ 1000)
      × (n ≤ 3)
      × (waiting_jobs tables.works ≡ n + waiting_jobs last.works)
      × Stops (sealed_as "sha256:0") each_drawn each_began 3 n e last
      × IsSound last.works
      × AllEvolve tables.works last.works
reconcile_assignments_counts_example =
    reconcile_assignments_counts (sealed_as "sha256:0") each_drawn each_began 3 tables
      tables-IsSound

offered_job-WorkFits : WorkFits offered_job
offered_job-WorkFits =
    (offered_work-Evolves drawn "sha256:0" 1200 generation agent waiting refl refl
      tables-IsSound.fits.0).still_fits

accept_assignment_again_example :
    (d' : Dispatch) × (taken_job.dispatch ≡ some d')
    × (accept_assignment identity acceptance 1290 taken_job d'
        ≡ ok (record launch { replayed = true }, taken_job))
accept_assignment_again_example =
    accept_assignment_again identity acceptance 1250 1290 offered_job taken_job dispatch launch
      (unfold offered_work in refl) offered_job-WorkFits accepts_rows

abbrev taken_dispatch : Dispatch
taken_dispatch = accepted_dispatch identity acceptance 1250 dispatch

abbrev answer : Result Error (Bool × Job × Dispatch)
answer = record_event identity started false taken_job.job taken_dispatch

abbrev running : Job × Dispatch
running = elim answer [ ok (_, j, d) ↦ (j, d) | err _ ↦ (taken_job.job, taken_dispatch) ]

records_start :
    record_event identity started false taken_job.job taken_dispatch
    ≡ ok (false, running.0, running.1)
unfolding record_event planned_dispatch accept_execution_row accept_assignment_row accept_run_row
    accepted_work offered_work check_event store_event
records_start = refl

record_event_again_example :
    record_event identity started true running.0 running.1 ≡ ok (true, running.0, running.1)
record_event_again_example =
    record_event_again identity started false true taken_job.job running.0 taken_dispatch running.1
      false (λ e. cc) records_start
