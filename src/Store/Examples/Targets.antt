-- ===== src/Store/Examples/Targets.antt =====
-- A host that is drained, beside one that is retired.
use jobman_control.Store.Targets.Lifecycle.{AllMove, update_target_state-AllMove}
use jobman_control.Store.Targets.Redelivery.{update_target_state_again}
use jobman_control.Store.Targets.Retirement.{StaysRetired, update_target_state-StaysRetired}
use jobman_control.Store.Targets.{
  Target, TargetTables, TargetStateChange, update_target_state, target_state_key,
  target_state_audit, set_state,
}
use jobman_control.Store.Transactions.{Authorization, permits}
use jobman_control.Store.Idempotency.{
  complete_reservation, new_reservation, reserve_idempotency, complete_idempotency,
}
use jobman_control.Store.Rows.{conflict}
use jobman_control.Prelude.{true, String, false, [], ◌∷◌, ◌≡◌, refl, ok, err, Member, inl}

abbrev operator : Authorization
operator = record {
  principal_id = "principal";
  namespace_id = "namespace";
  capabilities = "targets.operate" ∷ [];
}

abbrev target : String → String → Target
target name state = record {
  id = name;
  namespace_id = "namespace";
  name = name;
  state = state;
  revision = 4;
}

abbrev hosts : TargetTables
hosts = record {
  targets = target "attic" "retired" ∷ target "lab" "active" ∷ [];
  reservations = [];
  audits = [];
}

abbrev asks_for : String → TargetStateChange
asks_for state = record { expected_revision = 4; state = state }

abbrev drained_hosts : TargetTables
drained_hosts = record {
  targets = target "attic" "retired" ∷ set_state "draining" (target "lab" "active") ∷ [];
  reservations =
      complete_reservation "lab" 200
        (new_reservation (target_state_key operator "lab" "key") "digest" "target")
      ∷ [];
  audits = target_state_audit operator "lab" "digest" ∷ [];
}

drains_lab :
    update_target_state operator "lab" "key" "digest" (asks_for "draining") hosts
    ≡ ok (set_state "draining" (target "lab" "active"), false, drained_hosts)
unfolding update_target_state complete_reservation new_reservation permits reserve_idempotency
    complete_idempotency
drains_lab = refl

keeps_attic_retired :
    update_target_state operator "attic" "key" "digest" (asks_for "active") hosts ≡ err conflict
unfolding update_target_state permits reserve_idempotency
keeps_attic_retired = refl

update_target_state-AllMove_example : AllMove "draining" hosts.targets drained_hosts.targets
update_target_state-AllMove_example =
    update_target_state-AllMove operator "lab" "key" "digest" (asks_for "draining")
      (set_state "draining" (target "lab" "active")) hosts drained_hosts false refl drains_lab

update_target_state-StaysRetired_example :
    (t' : Target) × Member t' drained_hosts.targets × StaysRetired (target "attic" "retired") t'
update_target_state-StaysRetired_example =
    update_target_state-StaysRetired operator "lab" "key" "digest" (asks_for "draining")
      (target "attic" "retired") (set_state "draining" (target "lab" "active")) hosts drained_hosts
      false refl drains_lab (inl refl) refl

update_target_state_again_example :
    update_target_state operator "lab" "key" "digest" (asks_for "draining") drained_hosts
    ≡ ok (set_state "draining" (target "lab" "active"), true, drained_hosts)
update_target_state_again_example =
    update_target_state_again operator "lab" "key" "digest" (asks_for "draining")
      (set_state "draining" (target "lab" "active")) hosts drained_hosts drains_lab
