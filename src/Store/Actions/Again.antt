-- ===== src/Store/Actions/Again.antt =====
-- An acknowledgement that is delivered again, and what it does to the rows.
use jobman_control.Store.Transactions.Safety.{ok-works}
use jobman_control.Store.Database.{Database}
use jobman_control.Store.Database.Evolution.{
  Evolves, WorksEvolve, update_rows-WorksEvolve, WorksEvolve-refl,
}
use jobman_control.Store.Consistency.{WorkFits}
use jobman_control.Store.Rows.{AgentIdentity, Work, Dispatch, Error}
use jobman_control.Store.Actions.{
  acknowledge_work, has_pending_action, has_action, Acknowledgement, names_action,
  state_is_acknowledged, acknowledge_desired_action, not_found,
}
use jobman_control.Prelude.{
  Bool, true, false, Option, none, some, List, [], ◌∷◌, Result, ok, err, ◌≡◌, refl, inl, inr, arith,
  any, find?, update_rows, Member, Bool-cases, Option-cases, any_of_Member, subst, find?-Member,
}

acknowledge_work-Evolves :
    (ack : Acknowledgement) (w : Work) (o : Option Dispatch)
    → w.dispatch ≡ o
    → WorkFits w
    → Evolves w (acknowledge_work ack w)
unfolding acknowledge_work
acknowledge_work-Evolves ack w none e f = ground arith
acknowledge_work-Evolves ack w (some d) e f = ground arith

-- The row of an acknowledged action is the same row, and no more pending.
module _ (identity : AgentIdentity) (ack : Acknowledgement) (w : Work) where
  acknowledged_dispatch :
      (o : Option Dispatch)
      → w.dispatch ≡ o
      → (has_action identity ack (acknowledge_work ack w) ≡ has_action identity ack w)
        × (has_pending_action identity ack (acknowledge_work ack w) ≡ false)
        × (has_action identity ack w ≡ true → state_is_acknowledged (acknowledge_work ack w) ≡ true)
  unfolding acknowledge_work has_action has_pending_action names_action
  acknowledged_dispatch none e = ground arith
  acknowledged_dispatch (some d) e = ground arith

  acknowledged-has_action :
      has_action identity ack (acknowledge_work ack w) ≡ has_action identity ack w
  acknowledged-has_action = (acknowledged_dispatch w.dispatch refl).0

  acknowledged-has_pending_action : has_pending_action identity ack (acknowledge_work ack w) ≡ false
  acknowledged-has_pending_action = (acknowledged_dispatch w.dispatch refl).1

  pending-has_action : has_pending_action identity ack w ≡ true → has_action identity ack w ≡ true
  unfolding has_action has_pending_action
  pending-has_action h = ground arith

  idle-state_is_acknowledged :
      has_pending_action identity ack w ≡ false
      → has_action identity ack w ≡ true
      → state_is_acknowledged w ≡ true
  unfolding has_action has_pending_action
  idle-state_is_acknowledged h k = ground arith

module _ (identity : AgentIdentity) (ack : Acknowledgement) where
  abbrev acknowledged_rows : List Work → List Work
  acknowledged_rows = update_rows (has_pending_action identity ack) (acknowledge_work ack)

  none_pending :
      (ws : List Work) → any (has_pending_action identity ack) (acknowledged_rows ws) ≡ false
  none_pending [] = refl
  none_pending (w ∷ ws) = elim (Bool-cases (has_pending_action identity ack w)) [
    | inl hit ↦ rw (hit, acknowledged-has_pending_action identity ack w) (none_pending ws)
    | inr miss ↦ rw (miss, miss) (none_pending ws)
  ]

  -- Every row of the action that is found afterwards is acknowledged.
  found_acknowledged :
      (ws : List Work)
      → any (has_pending_action identity ack) ws ≡ true
      → (v : Work) × (find? (has_action identity ack) (acknowledged_rows ws) ≡ some v)
        × (state_is_acknowledged v ≡ true)
  found_acknowledged [] h = cc
  found_acknowledged (w ∷ ws) h = elim (Bool-cases (has_pending_action identity ack w)) [
    | inl hit ↦
        let known = pending-has_action identity ack w hit in
        (
          acknowledge_work ack w,
          rw (hit, acknowledged-has_action identity ack w, known) refl,
          (acknowledged_dispatch identity ack w w.dispatch refl).2 known,
        )
    | inr miss ↦ elim (Bool-cases (has_action identity ack w)) [
      | inl known ↦ (w, rw (miss, known) refl, idle-state_is_acknowledged identity ack w miss known)
      | inr other ↦
          let (v, found, done) = found_acknowledged ws (rw miss at h) in
          (v, rw (miss, other) found, done)
    ]
  ]

  answer_idle :
      (db : Database) (v : Work)
      → any (has_pending_action identity ack) db.works ≡ false
      → find? (has_action identity ack) db.works ≡ some v
      → state_is_acknowledged v ≡ true
      → acknowledge_desired_action identity ack db ≡ ok (true, db)
  unfolding acknowledge_desired_action
  answer_idle db v idle found done = rw (idle, found, done) refl

  not_pending :
      (ws : List Work) (v : Work)
      → any (has_pending_action identity ack) ws ≡ false
      → Member v ws
      → has_pending_action identity ack v ≡ false
  not_pending ws v idle m = ground (arith, any_of_Member (has_pending_action identity ack) ws v m)

  same_tables :
      (a b : Bool) (db db' : Database)
      → ◌≡◌ {A = Result Error (Bool × Database)} (ok (a, db)) (ok (b, db'))
      → db ≡ db'
  same_tables a b db db' h = ground arith

  -- An acknowledgement that succeeded, because the action was pending or because it was acknowledged
  -- already, is answered as known when it is delivered again, and then changes nothing.
  pub acknowledge_desired_action_again :
      (db db' : Database) (again : Bool)
      → acknowledge_desired_action identity ack db ≡ ok (again, db')
      → acknowledge_desired_action identity ack db' ≡ ok (true, db')
  unfolding acknowledge_desired_action
  acknowledge_desired_action_again db db' again h =
      elim (Bool-cases (any (has_pending_action identity ack) db.works)) [
        | inl waits ↦
            let next = record db { works = acknowledged_rows db.works } in
            let (v, found, done) = found_acknowledged db.works waits in
            subst (λ x. acknowledge_desired_action identity ack x ≡ ok (true, x))
              (same_tables false again next db' (rw (acknowledge_desired_action, waits) at h))
              (answer_idle next v (none_pending db.works) found done)
        | inr idle ↦ elim (Option-cases (find? (has_action identity ack) db.works)) [
          | inl absent ↦
              absurd (no_answer again db' (rw (acknowledge_desired_action, idle, absent) at h))
          | inr (v, found) ↦
              let (m, known) = find?-Member (has_action identity ack) db.works v found in
              let done =
                idle-state_is_acknowledged identity ack v (not_pending db.works v idle m) known in
              subst (λ x. acknowledge_desired_action identity ack x ≡ ok (true, x))
                (same_tables (state_is_acknowledged v) again db db'
                  (rw (acknowledge_desired_action, idle, found) at h))
                (answer_idle db v idle found done)
        ]
      ]
    where
      no_answer :
          (again : Bool) (db' : Database)
          → ◌≡◌ {A = Result Error (Bool × Database)} (err not_found) (ok (again, db'))
          → ⊥
      no_answer again db' h = cc

-- An acknowledgement keeps the tables sound, and evolves the rows of the jobs.
pub acknowledge_desired_action-WorksEvolve :
    (identity : AgentIdentity) (ack : Acknowledgement) (db db' : Database) (again : Bool)
    → acknowledge_desired_action identity ack db ≡ ok (again, db')
    → WorksEvolve db.works db'.works
unfolding acknowledge_desired_action
acknowledge_desired_action-WorksEvolve identity ack db db' again h =
    elim (Bool-cases (any (has_pending_action identity ack) db.works)) [
      | inl waits ↦ rw (ok-works false again _ db' (rw (acknowledge_desired_action, waits) at h)) (
          update_rows-WorksEvolve (has_pending_action identity ack) (acknowledge_work ack)
            (λ w _ f. acknowledge_work-Evolves ack w w.dispatch refl f) db.works)
      | inr idle ↦ elim (Option-cases (find? (has_action identity ack) db.works)) [
        | inl absent ↦ cc (rw (acknowledge_desired_action, idle, absent) at h)
        | inr (v, found) ↦
            rw
              (ok-works (state_is_acknowledged v) again db db'
                (rw (acknowledge_desired_action, idle, found) at h))
              (WorksEvolve-refl db.works)
      ]
    ]
