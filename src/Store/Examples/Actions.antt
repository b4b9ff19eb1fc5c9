-- ===== src/Store/Examples/Actions.antt =====
-- The wish to stop a job, acknowledged.
use jobman_control.Store.Actions.Again.{acknowledge_desired_action_again}
use jobman_control.Store.Coordinator.Offer.{planned_dispatch}
use jobman_control.Store.Examples.Fixtures.{tables, identity, waiting, drawn, generation, agent}
use jobman_control.Store.Actions.{acknowledge_desired_action, Acknowledgement, acknowledge_work}
use jobman_control.Store.Rows.{ActionRow, Work, ActionState}
use jobman_control.Store.Database.{Database}
use jobman_control.Prelude.{true, false, none, some, [], ◌∷◌, ok, ◌≡◌, refl}

abbrev wish : ActionRow
wish = record {
  id = "x1";
  agent_id = "a1";
  revision = 1;
  state = ActionState.pending;
  delivery_count = 1;
  acknowledged_at = none;
}

abbrev asked : Work
asked = record waiting {
  dispatch = some (record (planned_dispatch drawn "sha256:0" 1200 generation agent waiting.job) {
    execution =
        record (planned_dispatch drawn "sha256:0" 1200 generation agent waiting.job).execution {
          cancel_action = some wish;
        };
  });
}

abbrev before : Database
before = record tables { works = asked ∷ [] }

abbrev acknowledgement : Acknowledgement
acknowledgement = record {
  action_id = "x1";
  execution_id = "e1";
  agent_id = "a1";
  revision = 1;
  observed_at = 1300;
}

abbrev known : Database
known = record before { works = acknowledge_work acknowledgement asked ∷ [] }

acknowledges_wish : acknowledge_desired_action identity acknowledgement before ≡ ok (false, known)
unfolding acknowledge_desired_action planned_dispatch
acknowledges_wish = refl

acknowledge_desired_action_again_example :
    acknowledge_desired_action identity acknowledgement known ≡ ok (true, known)
acknowledge_desired_action_again_example =
    acknowledge_desired_action_again identity acknowledgement before known false acknowledges_wish
