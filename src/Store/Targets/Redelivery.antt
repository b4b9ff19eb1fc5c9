-- ===== src/Store/Targets/Redelivery.antt =====
-- internal/store/postgres/targets.go: a change of a target's state that is asked for again.
use jobman_control.Store.Targets.{
  Target, TargetTables, TargetStateChange, update_target_state, change_target_state, has_name,
  has_target_id, set_state, target_state_key, get_target, validate_target_state_change,
  valid_target_state_transition, target_state_audit,
}
use jobman_control.Store.Targets.Lifecycle.{or_fail-eq-ok, true_is_not_false}
use jobman_control.Store.Transactions.{Authorization, permits}
use jobman_control.Store.Idempotency.{Reserved, replayed, reserve_idempotency, complete_idempotency}
use jobman_control.Store.Idempotency.Replay.{reserve_again}
use jobman_control.Store.Rows.{conflict, forbidden, not_found}
use jobman_control.Prelude.{
  String, true, false, not, List, [], ◌∷◌, ok, ◌≡◌, refl, sym, ap, ◌∙◌, ◌||◌, ◌==◌, arith, some,
  find?, update_rows, ok-injective, >>=-eq-ok, refuse, or_fail, if◌then◌else◌,
}

-- The row that a name finds once the rows of an id are updated.
abbrev updated : String → String → String → Target → Target
updated namespace_id id state t = if has_target_id namespace_id id t then set_state state t else t

found_again :
    (namespace_id name id state : String) (r : Target) (ts : List Target)
    → find? (has_name namespace_id name) ts ≡ some r
    → find?
        (has_name namespace_id name)
        (update_rows (has_target_id namespace_id id) (set_state state) ts)
      ≡ some (updated namespace_id id state r)
found_again namespace_id name id state r [] h = cc
found_again namespace_id name id state r (t ∷ ts) h =
    ground (arith, found_again namespace_id name id state r ts)

-- What a change that is not a replay has done.
abbrev Done :
    Authorization
    → String
    → String
    → String
    → TargetStateChange
    → Target
    → Target
    → TargetTables
    → TargetTables
    → Type 0
Done a name key digest change r t db db' =
    (complete_idempotency (target_state_key a name key) r.id 200 db.reservations
      ≡ ok db'.reservations)
    × (get_target a.namespace_id r.id db'.targets ≡ ok t)
    × (db'.targets
        ≡ update_rows (has_target_id a.namespace_id r.id) (set_state change.state) db.targets)

changed :
    (a : Authorization) (name key digest : String) (change : TargetStateChange) (r t : Target)
    (db db' : TargetTables) (reserved : Reserved)
    → change_target_state a name key digest change r db reserved ≡ ok (t, false, db')
    → (reserved ≡ Reserved.fresh) × Done a name key digest change r t db db'
unfolding change_target_state
changed a name key digest change r t db db' (replayed id) h =
    let (x, _, done) =
      >>=-eq-ok (get_target a.namespace_id id db.targets) (λ target. ok (target, true, db)) h in
    elim (true_is_not_false (ap (λ z. z.1) (ok-injective (x, true, db) (t, false, db') done))) [ ]
changed a name key digest change r t db db' Reserved.fresh h =
    let (_, _, chosen) =
      >>=-eq-ok
        (refuse
          (not (r.revision == change.expected_revision)
            || not (valid_target_state_transition r.state change.state))
          conflict)
        _ h in
    let (rs, closed, completed) =
      >>=-eq-ok (complete_idempotency (target_state_key a name key) r.id 200 db.reservations) _
        chosen in
    let (x, got, done) =
      >>=-eq-ok
        (get_target a.namespace_id r.id
          (update_rows (has_target_id a.namespace_id r.id) (set_state change.state) db.targets))
        _ completed in
    let same =
      ok-injective
        (
          x,
          false,
          record {
            targets =
                update_rows (has_target_id a.namespace_id r.id) (set_state change.state) db.targets;
            reservations = rs;
            audits = target_state_audit a r.id digest ∷ db.audits;
          },
        )
        (t, false, db') done in
    (
      refl,
      (
        closed ∙ ap (λ z. ok z.2.reservations) same,
        ap (λ ts. get_target a.namespace_id r.id ts) (sym (ap (λ z. z.2.targets) same))
            ∙ got
            ∙ ap (λ z. ok z.0) same,
        sym (ap (λ z. z.2.targets) same),
      ),
    )

replays :
    (a : Authorization) (name key digest : String) (change : TargetStateChange) (r t : Target)
    (db : TargetTables) (id : String)
    → get_target a.namespace_id id db.targets ≡ ok t
    → change_target_state a name key digest change r db (replayed id) ≡ ok (t, true, db)
unfolding change_target_state
replays a name key digest change r t db id h = rw h refl

-- A change of a target's state that was made is answered as a replay with the same target when it is
-- asked for again, and changes nothing.
pub update_target_state_again :
    (a : Authorization) (name key digest : String) (change : TargetStateChange) (t : Target)
    (db db' : TargetTables)
    → update_target_state a name key digest change db ≡ ok (t, false, db')
    → update_target_state a name key digest change db' ≡ ok (t, true, db')
unfolding update_target_state
update_target_state_again a name key digest change t db db' h =
    let (_, valid, authorized) = >>=-eq-ok (validate_target_state_change change) _ h in
    let (_, allowed, locked) =
      >>=-eq-ok (refuse (not (permits a "targets.operate")) forbidden) _ authorized in
    let (r, found, keyed) =
      >>=-eq-ok (or_fail (find? (has_name a.namespace_id name) db.targets) not_found) _ locked in
    let ((reserved, rs), reserves, chosen) =
      >>=-eq-ok
        (reserve_idempotency (target_state_key a name key) digest "target" 200 db.reservations) _
        keyed in
    let (is_fresh, (closed, got, rows)) =
      changed a name key digest change r t (record db { reservations = rs }) db' reserved chosen in
    let names =
      ap (λ ts. find? (has_name a.namespace_id name) ts) rows
      ∙ found_again a.namespace_id name r.id change.state r db.targets
          (or_fail-eq-ok (find? (has_name a.namespace_id name) db.targets) not_found r found) in
    let again =
      reserve_again (target_state_key a name key) digest "target" r.id 200 db.reservations rs
        db'.reservations (reserves ∙ ap (λ z. ok (z, rs)) is_fresh) closed in
    rw (valid, allowed, names, again)
      (replays a name key digest change (updated a.namespace_id r.id change.state r) t db' r.id got)
