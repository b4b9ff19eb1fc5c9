-- ===== src/Store/Targets/Lifecycle.antt =====
-- internal/store/postgres/targets.go: how the row of a target may change.
use jobman_control.Store.Targets.{
  Target, TargetTables, TargetStateChange, valid_target_state_transition, has_name, has_target_id,
  set_state, change_target_state, update_target_state, target_state_key, get_target,
  target_state_audit, validate_target_state_change,
}
use jobman_control.Store.Rows.{Error, forbidden, not_found}
use jobman_control.Store.Transactions.{Authorization, permits}
use jobman_control.Store.Idempotency.{Reserved, replayed, reserve_idempotency, complete_idempotency}
use jobman_control.Prelude.{
  String, Bool, true, false, ◌&&◌, ◌||◌, not, List, [], ◌∷◌, ◌==◌, ok, ◌≡◌, refl, sym, ap, ◌∙◌, any,
  find?, update_rows, Option, none, some, if◌then◌else◌, All, ◌⊎◌, inl, inr, arith, eq_iff, eq_refl,
  find?-Member, any_of_Member, All-map, Result, ◌≢◌, ok-injective, refuse, or_fail, subst,
  >>=-eq-ok, refuse-eq-ok, Bool-cases,
}

-- The primary key: no two rows of one namespace have one id.
abbrev pub keyed_by_id : List Target → Bool
keyed_by_id [] = true
keyed_by_id (t ∷ ts) = not (any (has_target_id t.namespace_id t.id) ts) && keyed_by_id ts

-- A row that stays, or that takes an allowed transition to a state and its next revision.
abbrev pub Moves : String → Target → Target → Type 0
Moves state t t' =
    (t' ≡ t) ⊎ ((valid_target_state_transition t.state state ≡ true) × (t' ≡ set_state state t))

-- The rows of a table, each moved.
pub data AllMove (state : String) : List Target → List Target → Type 0 where
  no_rows : AllMove state [] []
  next_row :
      {t t' : Target} {ts ts' : List Target}
      → Moves state t t'
      → AllMove state ts ts'
      → AllMove state (t ∷ ts) (t' ∷ ts')

-- Where every row of an id may take the transition, the update moves each row.
update_rows-AllMove :
    (namespace_id id state : String) (ts : List Target)
    → All
        (λ t.
          has_target_id namespace_id id t ≡ true
          → valid_target_state_transition t.state state ≡ true)
        ts
    → AllMove state ts (update_rows (has_target_id namespace_id id) (set_state state) ts)
update_rows-AllMove namespace_id id state [] h = no_rows
update_rows-AllMove namespace_id id state (t ∷ ts) h =
    next_row
      (elim (Bool-cases (has_target_id namespace_id id t)) [
        | inl e ↦ inr (h.0 e, ap (λ b. if b then set_state state t else t) e)
        | inr e ↦ inl (ap (λ b. if b then set_state state t else t) e)
      ])
      (update_rows-AllMove namespace_id id state ts h.1)

pub or_fail-eq-ok : (o : Option Target) (e : Error) (t : Target) → or_fail o e ≡ ok t → o ≡ some t
or_fail-eq-ok none e t h = cc
or_fail-eq-ok (some u) e t h = ap some (ok-injective u t h)

pub true_is_not_false : true ≢ false
true_is_not_false h = cc

no_other :
    (namespace_id id : String) (P : Target → Type 0) (ts : List Target)
    → any (has_target_id namespace_id id) ts ≡ false
    → All (λ t. has_target_id namespace_id id t ≡ true → P t) ts
no_other namespace_id id P [] h = tt
no_other namespace_id id P (t ∷ ts) h =
    ((λ e. ground arith), no_other namespace_id id P ts (ground arith))

-- Two rows of one name's namespace and one id meet the test of each other's key.
has_target_id-swap :
    (namespace_id name : String) (t r : Target)
    → has_name namespace_id name r ≡ true
    → has_target_id namespace_id r.id t ≡ true
    → has_target_id t.namespace_id t.id r ≡ true
has_target_id-swap namespace_id name t r h e = ground (
  arith,
  eq_iff r.namespace_id namespace_id,
  eq_iff t.namespace_id namespace_id,
  eq_iff t.id r.id,
  eq_refl namespace_id,
  eq_refl r.id,
)

find?-head :
    (p : Target → Bool) (t r : Target) (ts : List Target)
    → p t ≡ true
    → find? p (t ∷ ts) ≡ some r
    → t ≡ r
find?-head p t r ts e h = ground arith

find?-tail :
    (p : Target → Bool) (t r : Target) (ts : List Target)
    → p t ≡ false
    → find? p (t ∷ ts) ≡ some r
    → find? p ts ≡ some r
find?-tail p t r ts e h = ground arith

both_hold : (a b : Bool) → (not a && b) ≡ true → (a ≡ false) × (b ≡ true)
both_hold a b h = ground arith

in_namespace :
    (namespace_id name : String) (t : Target)
    → has_name namespace_id name t ≡ true
    → t.namespace_id ≡ namespace_id
in_namespace namespace_id name t e = ground (arith, eq_iff t.namespace_id namespace_id)

module _ (namespace_id name : String) (r t : Target) (ts : List Target)
    (k : keyed_by_id (t ∷ ts) ≡ true)
    (h : find? (has_name namespace_id name) (t ∷ ts) ≡ some r) where
  key_is_alone : any (has_target_id t.namespace_id t.id) ts ≡ false
  key_is_alone = (both_hold (any (has_target_id t.namespace_id t.id) ts) (keyed_by_id ts) k).0

  none_behind :
      has_name namespace_id name t ≡ true → any (has_target_id namespace_id r.id) ts ≡ false
  none_behind e =
      ap (λ n. any (has_target_id n r.id) ts) (sym (in_namespace namespace_id name t e))
      ∙ ap (λ u. any (has_target_id t.namespace_id u.id) ts)
          (sym (find?-head (has_name namespace_id name) t r ts e h))
      ∙ key_is_alone

  none_before :
      has_name namespace_id name t ≡ false → has_target_id namespace_id r.id t ≡ true → t ≡ r
  none_before e i =
      let found =
        find?-Member (has_name namespace_id name) ts r
          (find?-tail (has_name namespace_id name) t r ts e h) in
      let met =
        any_of_Member (has_target_id t.namespace_id t.id) ts r found.0
          (has_target_id-swap namespace_id name t r found.1 i) in
      elim (true_is_not_false (sym met ∙ key_is_alone)) [ ]

-- The id of the row that a name finds is of no other row.
found_alone :
    (namespace_id name : String) (r : Target) (ts : List Target)
    → keyed_by_id ts ≡ true
    → find? (has_name namespace_id name) ts ≡ some r
    → All (λ t. has_target_id namespace_id r.id t ≡ true → t ≡ r) ts
found_alone namespace_id name r [] k h = tt
found_alone namespace_id name r (t ∷ ts) k h = elim (Bool-cases (has_name namespace_id name t)) [
  | inl e ↦ (
    (λ _. find?-head (has_name namespace_id name) t r ts e h),
    no_other namespace_id r.id (λ t'. t' ≡ r) ts (none_behind namespace_id name r t ts k h e),
  )
  | inr e ↦ (
    none_before namespace_id name r t ts k h e,
    found_alone namespace_id name r ts
        (both_hold (any (has_target_id t.namespace_id t.id) ts) (keyed_by_id ts) k).1
        (find?-tail (has_name namespace_id name) t r ts e h),
  )
]

-- The update of a row that was found by its name moves the rows of the table.
found-AllMove :
    (namespace_id name state : String) (r : Target) (ts : List Target)
    → keyed_by_id ts ≡ true
    → find? (has_name namespace_id name) ts ≡ some r
    → valid_target_state_transition r.state state ≡ true
    → AllMove state ts (update_rows (has_target_id namespace_id r.id) (set_state state) ts)
found-AllMove namespace_id name state r ts k h v = update_rows-AllMove namespace_id r.id state ts (
    All-map (λ t. has_target_id namespace_id r.id t ≡ true → t ≡ r)
      (λ t.
        has_target_id namespace_id r.id t ≡ true
        → valid_target_state_transition t.state state ≡ true)
      (λ t alone i. ap (λ u. valid_target_state_transition u.state state) (alone i) ∙ v) ts
      (found_alone namespace_id name r ts k h))

stays-AllMove : (state : String) (ts : List Target) → AllMove state ts ts
stays-AllMove state [] = no_rows
stays-AllMove state (t ∷ ts) = next_row (inl refl) (stays-AllMove state ts)

-- The tables of an answer.
answered :
    (x t : Target) (b c : Bool) (db db' : TargetTables)
    → ◌≡◌ {A = Result Error (Target × Bool × TargetTables)} (ok (x, b, db)) (ok (t, c, db'))
    → db'.targets ≡ db.targets
answered x t b c db db' h = ap (λ z. z.2.targets) (sym (ok-injective (x, b, db) (t, c, db') h))

refused_neither : (a b : Bool) → (not a || not b) ≡ false → b ≡ true
refused_neither a b h = ground arith

change_target_state-AllMove :
    (a : Authorization) (name key digest : String) (change : TargetStateChange) (r t : Target)
    (db db' : TargetTables) (reserved : Reserved) (again : Bool)
    → keyed_by_id db.targets ≡ true
    → find? (has_name a.namespace_id name) db.targets ≡ some r
    → change_target_state a name key digest change r db reserved ≡ ok (t, again, db')
    → AllMove change.state db.targets db'.targets
unfolding change_target_state
change_target_state-AllMove a name key digest change r t db db' (replayed id) again k f h =
    let (x, _, done) =
      >>=-eq-ok (get_target a.namespace_id id db.targets) (λ target. ok (target, true, db)) h in
    subst (AllMove change.state db.targets) (sym (answered x t true again db db' done))
      (stays-AllMove change.state db.targets)
change_target_state-AllMove a name key digest change r t db db' Reserved.fresh again k f h =
    let (_, passed, chosen) = >>=-eq-ok (refuse _ _) _ h in
    let (rs, _, completed) = >>=-eq-ok (complete_idempotency _ _ _ _) _ chosen in
    let (x, _, done) =
      >>=-eq-ok
        (get_target a.namespace_id r.id
          (update_rows (has_target_id a.namespace_id r.id) (set_state change.state) db.targets))
        _ completed in
    subst (AllMove change.state db.targets)
      (sym (
        answered x t false again
          (record {
            targets =
                update_rows (has_target_id a.namespace_id r.id) (set_state change.state) db.targets;
            reservations = rs;
            audits = target_state_audit a r.id digest ∷ db.audits;
          })
          db' done))
      (found-AllMove a.namespace_id name change.state r db.targets k f
        (refused_neither (r.revision == change.expected_revision) _ (refuse-eq-ok _ _ passed)))

-- UpdateTargetState, where no two rows of a namespace have one id, either leaves a row as it is or
-- moves it along an allowed transition to the requested state and to its next revision, and it adds
-- and removes no row.
pub update_target_state-AllMove :
    (a : Authorization) (name key digest : String) (change : TargetStateChange) (t : Target)
    (db db' : TargetTables) (again : Bool)
    → keyed_by_id db.targets ≡ true
    → update_target_state a name key digest change db ≡ ok (t, again, db')
    → AllMove change.state db.targets db'.targets
unfolding update_target_state
update_target_state-AllMove a name key digest change t db db' again k h =
    let (_, _, authorized) = >>=-eq-ok (validate_target_state_change change) _ h in
    let (_, _, locked) =
      >>=-eq-ok (refuse (not (permits a "targets.operate")) forbidden) _ authorized in
    let (r, found, keyed) =
      >>=-eq-ok (or_fail (find? (has_name a.namespace_id name) db.targets) not_found) _ locked in
    let ((reserved, rs), _, done) =
      >>=-eq-ok
        (reserve_idempotency (target_state_key a name key) digest "target" 200 db.reservations) _
        keyed in
    change_target_state-AllMove a name key digest change r t (record db { reservations = rs }) db'
      reserved again k
      (or_fail-eq-ok (find? (has_name a.namespace_id name) db.targets) not_found r found) done
