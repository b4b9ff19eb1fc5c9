-- ===== src/Store/Idempotency.antt =====
-- internal/store/postgres/jobs.go, reserveIdempotency and completeIdempotency: the table
-- idempotency_records, whose primary key is namespace, principal, operation and key.
pub mod Replay
use jobman_control.Prelude.{
  ℕ, String, Bool, ◌&&◌, Option, none, some, List, [], ◌∷◌, if◌then◌else◌, str_eq, Result, ok, err,
  ◌==◌,
}
use jobman_control.Store.Rows.{
  Error, idempotency_conflict, incomplete_idempotency, lost_idempotency,
}

pub record Reservation : Type 0 where
  pub namespace_id : String
  pub principal_id : String
  pub operation : String
  pub idempotency_key : String
  pub request_digest : String
  pub resource_type : String
  pub resource_id : Option String
  pub response_status : Option ℕ

-- The primary key.
pub record Key : Type 0 where
  pub namespace_id : String
  pub principal_id : String
  pub operation : String
  pub idempotency_key : String

unfoldable pub has_key : Key → Reservation → Bool
has_key k r =
    str_eq r.namespace_id k.namespace_id
    && str_eq r.principal_id k.principal_id
    && str_eq r.operation k.operation
    && str_eq r.idempotency_key k.idempotency_key

unfoldable pub lookup_key : Key → List Reservation → Option Reservation
lookup_key k [] = none
lookup_key k (r ∷ rs) = if has_key k r then some r else lookup_key k rs

unfoldable pub new_reservation : Key → String → String → Reservation
new_reservation k digest resource_type = record {
  namespace_id = k.namespace_id;
  principal_id = k.principal_id;
  operation = k.operation;
  idempotency_key = k.idempotency_key;
  request_digest = digest;
  resource_type = resource_type;
  resource_id = none;
  response_status = none;
}

-- A new reservation, or the resource that the same request created before.
pub data Reserved : Type 0 where
  fresh : Reserved
  replayed : String → Reserved

check_complete : Reservation → String → ℕ → Option String → Option ℕ → Result Error Reserved
check_complete r resource_type status (some id) (some persisted) =
    if str_eq r.resource_type resource_type && persisted == status
    then ok (replayed id)
    else err incomplete_idempotency
check_complete r resource_type status _ _ = err incomplete_idempotency

-- What is read back when the insertion meets an existing key.
unfoldable pub check_persisted : Reservation → String → String → ℕ → Result Error Reserved
unfolding check_complete
check_persisted r digest resource_type status =
    if str_eq r.request_digest digest
    then check_complete r resource_type status r.resource_id r.response_status
    else err idempotency_conflict

unfoldable pub reserve_idempotency :
    Key → String → String → ℕ → List Reservation → Result Error (Reserved × List Reservation)
unfolding check_persisted new_reservation lookup_key
reserve_idempotency k digest resource_type status rs = elim (lookup_key k rs) [
  | none ↦ ok (fresh, new_reservation k digest resource_type ∷ rs)
  | some r ↦ elim (check_persisted r digest resource_type status) [
    | ok reserved ↦ ok (reserved, rs)
    | err e ↦ err e
  ]
]

unfoldable pub complete_reservation : String → ℕ → Reservation → Reservation
complete_reservation id status r = record r { resource_id = some id; response_status = some status }

-- The update of the open reservation; `none` when no row is open under the key.
unfoldable pub complete_row : Key → String → ℕ → List Reservation → Option (List Reservation)
unfolding has_key complete_reservation
complete_row k id status [] = none
complete_row k id status (r ∷ rs) =
    if has_key k r
    then elim r.resource_id [ none ↦ some (complete_reservation id status r ∷ rs) | some _ ↦ none ]
    else elim (complete_row k id status rs) [ none ↦ none | some rs' ↦ some (r ∷ rs') ]

unfoldable pub complete_idempotency :
    Key → String → ℕ → List Reservation → Result Error (List Reservation)
unfolding complete_row
complete_idempotency k id status rs = elim (complete_row k id status rs) [
  | none ↦ err lost_idempotency
  | some rs' ↦ ok rs'
]
