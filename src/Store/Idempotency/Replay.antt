-- ===== src/Store/Idempotency/Replay.antt =====
-- What a key gives a client of internal/store/postgres/jobs.go: one effect, and its answer again.
use jobman_control.Prelude.{
  ℕ, String, true, some, List, ◌∷◌, ◌≡◌, ok, err, arith, eq_iff, eq_refl, ◌≢◌,
}
use jobman_control.Store.Rows.{idempotency_conflict}
use jobman_control.Store.Idempotency.{
  Reservation, Key, new_reservation, has_key, fresh, replayed, check_persisted, reserve_idempotency,
  complete_reservation, complete_row, complete_idempotency,
}

module _ (k : Key) (digest resource_type : String) where
  has_key-new_reservation : has_key k (new_reservation k digest resource_type) ≡ true
  unfolding has_key new_reservation
  has_key-new_reservation = simp eq_refl

  abbrev completed : String → ℕ → Reservation
  completed id status = complete_reservation id status (new_reservation k digest resource_type)

  has_key-completed : (id : String) (status : ℕ) → has_key k (completed id status) ≡ true
  unfolding has_key new_reservation complete_reservation
  has_key-completed id status = simp eq_refl

  check_persisted-completed :
      (id : String) (status : ℕ)
      → check_persisted (completed id status) digest resource_type status ≡ ok (replayed id)
  unfolding check_persisted new_reservation complete_reservation
  check_persisted-completed id status = ground (arith, eq_refl digest, eq_refl resource_type)

  check_persisted-other :
      (id other : String) (status : ℕ)
      → other ≢ digest
      → check_persisted (completed id status) other resource_type status ≡ err idempotency_conflict
  unfolding check_persisted new_reservation complete_reservation
  check_persisted-other id other status h = ground (arith, eq_iff digest other)

  reserve-eq-fresh :
      (status : ℕ) (rs rs' : List Reservation)
      → reserve_idempotency k digest resource_type status rs ≡ ok (fresh, rs')
      → rs' ≡ new_reservation k digest resource_type ∷ rs
  unfolding reserve_idempotency check_persisted
  reserve-eq-fresh status rs rs' h = ground arith

  complete_row-new :
      (id : String) (status : ℕ) (rs : List Reservation)
      → complete_row k id status (new_reservation k digest resource_type ∷ rs)
        ≡ some (completed id status ∷ rs)
  unfolding complete_row new_reservation
  complete_row-new id status rs = ground (arith, has_key-new_reservation)

  reserve-completed :
      (id d : String) (status : ℕ) (rs : List Reservation)
      → reserve_idempotency k d resource_type status (completed id status ∷ rs)
        ≡ (elim (check_persisted (completed id status) d resource_type status) [
          | ok reserved ↦ ok (reserved, completed id status ∷ rs)
          | err e ↦ err e
        ])
  unfolding reserve_idempotency
  reserve-completed id d status rs = ground (arith, has_key-completed id status)

  completed_rows :
      (id : String) (status : ℕ) (rs rs' done : List Reservation)
      → reserve_idempotency k digest resource_type status rs ≡ ok (fresh, rs')
      → complete_idempotency k id status rs' ≡ ok done
      → done ≡ completed id status ∷ rs
  unfolding complete_idempotency
  completed_rows id status rs rs' done h c =
      ground (arith, reserve-eq-fresh status rs rs' h, complete_row-new id status rs)

  pub reserve_again :
      (id : String) (status : ℕ) (rs rs' done : List Reservation)
      → reserve_idempotency k digest resource_type status rs ≡ ok (fresh, rs')
      → complete_idempotency k id status rs' ≡ ok done
      → reserve_idempotency k digest resource_type status done ≡ ok (replayed id, done)
  reserve_again id status rs rs' done h c = rw (
    completed_rows id status rs rs' done h c,
    reserve-completed id digest status rs,
    check_persisted-completed id status,
  )

  -- A request that was reserved and completed is answered by the resource that it created, however
  -- often it is repeated, and a repetition writes nothing. The same key with another digest is
  -- refused.
  pub reserve-complete_reservation :
      (id other : String) (status : ℕ) (rs rs' : List Reservation)
      → reserve_idempotency k digest resource_type status rs ≡ ok (fresh, rs')
      → other ≢ digest
      → (done : List Reservation) × (complete_idempotency k id status rs' ≡ ok done)
        × (reserve_idempotency k digest resource_type status done ≡ ok (replayed id, done))
        × (reserve_idempotency k other resource_type status done ≡ err idempotency_conflict)
  unfolding complete_idempotency
  reserve-complete_reservation id other status rs rs' h o = (
    completed id status ∷ rs,
    ground (arith, reserve-eq-fresh status rs rs' h, complete_row-new id status rs),
    rw (reserve-completed id digest status rs, check_persisted-completed id status),
    rw (reserve-completed id other status rs, check_persisted-other id other status o),
  )
