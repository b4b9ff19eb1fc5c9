-- ===== src/Store/Targets/Retirement.antt =====
-- internal/store/postgres/targets.go: a target that is retired takes no other state.
use jobman_control.Store.Targets.Lifecycle.{
  keyed_by_id, Moves, AllMove, no_rows, next_row, update_target_state-AllMove,
}
use jobman_control.Store.Targets.{
  Target, TargetTables, TargetStateChange, valid_target_state_transition, update_target_state,
}
use jobman_control.Store.Transactions.{Authorization}
use jobman_control.Prelude.{
  String, Bool, true, List, ok, ◌≡◌, refl, sym, ap, subst, ◌∙◌, Member, inl, inr, arith, eq_iff,
}

from_retired :
    (state : String) → valid_target_state_transition "retired" state ≡ true → state ≡ "retired"
unfolding valid_target_state_transition
from_retired state h = ground (arith, eq_iff "retired" state)

-- The same target, retired.
abbrev pub StaysRetired : Target → Target → Type 0
StaysRetired t t' = (t'.namespace_id ≡ t.namespace_id) × (t'.id ≡ t.id) × (t'.state ≡ "retired")

moved_retired :
    (state : String) (t t' : Target) → t.state ≡ "retired" → Moves state t t' → StaysRetired t t'
moved_retired state t t' h (inl e) =
    (ap (λ u. u.namespace_id) e, ap (λ u. u.id) e, ap (λ u. u.state) e ∙ h)
moved_retired state t t' h (inr (v, e)) = (
  ap (λ u. u.namespace_id) e,
  ap (λ u. u.id) e,
  ap (λ u. u.state) e
      ∙ from_retired state (ap (λ s. valid_target_state_transition s state) (sym h) ∙ v),
)

AllMove-StaysRetired :
    (state : String) (ts ts' : List Target) (t : Target)
    → AllMove state ts ts'
    → Member t ts
    → t.state ≡ "retired"
    → (t' : Target) × Member t' ts' × StaysRetired t t'
AllMove-StaysRetired state _ _ t no_rows m h = elim m [ ]
AllMove-StaysRetired state _ _ t (next_row {t = u} {t' = u'} step rest) (inl e) h =
    (u', inl refl, moved_retired state t u' h (subst (λ v. Moves state v u') e step))
AllMove-StaysRetired state _ _ t (next_row step rest) (inr m) h =
    let (t', found, same) = AllMove-StaysRetired state _ _ t rest m h in (t', inr found, same)

-- A target that is retired, in a table where no two rows of a namespace have one id, is still there
-- and still retired after any UpdateTargetState that succeeds.
pub update_target_state-StaysRetired :
    (a : Authorization) (name key digest : String) (change : TargetStateChange) (t answer : Target)
    (db db' : TargetTables) (again : Bool)
    → keyed_by_id db.targets ≡ true
    → update_target_state a name key digest change db ≡ ok (answer, again, db')
    → Member t db.targets
    → t.state ≡ "retired"
    → (t' : Target) × Member t' db'.targets × StaysRetired t t'
update_target_state-StaysRetired a name key digest change t answer db db' again k h m r =
    AllMove-StaysRetired change.state db.targets db'.targets t
      (update_target_state-AllMove a name key digest change answer db db' again k h) m r
