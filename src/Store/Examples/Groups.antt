-- ===== src/Store/Examples/Groups.antt =====
-- A graph whose upstream job failed, and a key used again.
use jobman_control.Store.Idempotency.Replay.{reserve-complete_reservation}
use jobman_control.Store.Graphs.Resolution.{Resolves, apply_graph_completion_settles}
use jobman_control.Store.Examples.Fixtures.{job_row}
use jobman_control.Store.Graphs.{apply_graph_completion_works, is_candidate}
use jobman_control.Store.Database.{EdgeRow, Predicate, UnsatisfiedPolicy}
use jobman_control.Store.Rows.{Work, JobPhase, Outcome, idempotency_conflict}
use jobman_control.Store.Idempotency.{
  Reservation, Key, complete_idempotency, new_reservation, reserve_idempotency, replayed,
}
use jobman_control.Prelude.{
  ℕ, String, false, Option, none, some, List, [], ◌∷◌, ok, err, ◌≡◌, refl, All,
}

abbrev node : String → ℕ → JobPhase → Option Outcome → Work
node name index p o = record {
  job = record (job_row name p o) { graph_id = some "g"; graph_index = index };
  dispatch = none;
  audits = [];
}

abbrev edge : String → String → EdgeRow
edge u d = record {
  upstream_job_id = u;
  downstream_job_id = d;
  predicate = Predicate.success;
  outcomes = [];
}

abbrev chain : List Work
chain =
    node "a" 0 JobPhase.terminal (some Outcome.failure)
    ∷ node "b" 1 JobPhase.accepted none
    ∷ node "c" 2 JobPhase.accepted none
    ∷ []

abbrev links : List EdgeRow
links = edge "a" "b" ∷ edge "b" "c" ∷ []

apply_graph_completion_settles_example :
    (vs : List Work) × (apply_graph_completion_works "g" UnsatisfiedPolicy.skip links chain
      ≡ some vs)
    × Resolves "g" UnsatisfiedPolicy.skip links chain vs
    × All (λ w. is_candidate "g" links vs w ≡ false) vs
apply_graph_completion_settles_example =
    apply_graph_completion_settles "g" UnsatisfiedPolicy.skip links chain

abbrev key : Key
key = record {
  namespace_id = "n1";
  principal_id = "p1";
  operation = "jobs.cancel";
  idempotency_key = "k1";
}

reserve-complete_reservation_example :
    (done : List Reservation) × (complete_idempotency key "j1" 200
        (new_reservation key "" "job" ∷ [])
      ≡ ok done)
    × (reserve_idempotency key "" "job" 200 done ≡ ok (replayed "j1", done))
    × (reserve_idempotency key "x" "job" 200 done ≡ err idempotency_conflict)
reserve-complete_reservation_example =
    reserve-complete_reservation key "" "job" "j1" "x" 200 [] (new_reservation key "" "job" ∷ [])
      (unfold reserve_idempotency in refl) (λ e. cc)
