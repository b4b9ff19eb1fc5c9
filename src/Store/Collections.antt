-- ===== src/Store/Collections.antt =====
-- internal/store/postgres/collections.go, applyCollectionCompletion: fail-fast by ordinary
-- cancellation. `new_id` is store.newID, the identity drawn for the action of a job.
use jobman_control.Store.Artifacts.{is_success}
use jobman_control.Store.Rows.{Work, Outcome}
use jobman_control.Store.Cancellation.{cancel_collection_sibling}
use jobman_control.Store.Database.{
  CollectionRow, FailurePolicy, find_job, Database, job_is_terminal,
}
use jobman_control.Prelude.{
  suc, String, Bool, true, false, ◌&&◌, not, Option, none, some, List, if◌then◌else◌, str_eq, find?,
  update_rows,
}

abbrev pub is_fail_fast : FailurePolicy → Bool
is_fail_fast FailurePolicy.fail_fast = true
is_fail_fast FailurePolicy.continue = false

-- The job's collection, if it has one in that namespace.
unfoldable pub collection_of : String → String → Database → Option CollectionRow
unfolding find_job
collection_of namespace_id id db = elim (find_job id db.works) [
  | none ↦ none
  | some w ↦ elim w.job.collection_id [
    | none ↦ none
    | some c ↦
        if str_eq w.job.namespace_id namespace_id
        then find? (λ (row : CollectionRow). str_eq row.id c) db.collections
        else none
  ]
]

abbrev pub in_collection : String → Work → Bool
in_collection c w = elim w.job.collection_id [ none ↦ false | some id ↦ str_eq id c ]

-- The siblings that are listed: the other jobs of the collection that are not over.
unfoldable pub is_open_sibling : String → String → Work → Bool
is_open_sibling c id w =
    in_collection c w && not (str_eq w.job.id id) && not (job_is_terminal w.job.phase)

bump_collection : CollectionRow → CollectionRow
bump_collection c = record c { revision = suc c.revision }

-- Each listed sibling is cancelled on its own, so the loop over them is one update of the rows.
unfoldable pub cancel_siblings : (String → String) → String → String → List Work → List Work
unfolding is_open_sibling cancel_collection_sibling
cancel_siblings new_id c id ws =
    update_rows (is_open_sibling c id) (λ w. cancel_collection_sibling (new_id w.job.id) w) ws

unfoldable pub apply_collection_completion :
    (String → String) → String → String → Option Outcome → Database → Database
unfolding collection_of cancel_siblings bump_collection
apply_collection_completion new_id namespace_id id outcome db =
    elim (collection_of namespace_id id db) [
      | none ↦ db
      | some c ↦ record db {
        works =
            if is_fail_fast c.failure_policy && not (is_success outcome)
            then cancel_siblings new_id c.id id db.works
            else db.works;
        collections =
            update_rows (λ (row : CollectionRow). str_eq row.id c.id) bump_collection
              db.collections;
      }
    ]
