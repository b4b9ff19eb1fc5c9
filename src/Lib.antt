-- ===== src/Lib.antt =====
-- Jobman Control: the transactions by which the control plane moves jobs.
--
-- The program keeps all its state in PostgreSQL. Clients submit and cancel jobs, a coordinator
-- assigns each waiting job to an agent, the agent accepts the assignment, runs the job and reports
-- events and log chunks, and the completion of a job may close other jobs of its collection or its
-- dependency graph. Every one of these steps is one serializable transaction, and the agents and
-- clients may repeat any request. The development models those transactions as functions on tables
-- that return the new tables or the error that rolls back, and proves what they keep together.
--
-- Store/Rows.antt with its children, and Store/Database.antt: the rows of internal/store/postgres/migrations and the
-- values of internal/domain. A job (`Work`) is kept with the one run, execution and assignment that
-- refer to it, and with the audit events about it.
-- Store/Acceptance.antt, Store/EventChecks.antt and Store/Events.antt, Store/Artifacts.antt,
-- Store/Cancellation.antt: what AcceptAssignment, RecordExecutionEvent,
-- validateArtifactPublication, CancelJob and
-- cancelCollectionSibling do to the rows of one job (internal/store/postgres/executions.go,
-- collections.go).
-- Store/Collections.antt, Store/Graphs.antt: applyCollectionCompletion and applyGraphCompletion
-- (collections.go, graphs.go), which those transactions call when a job ends.
-- Store/Idempotency.antt: reserveIdempotency and completeIdempotency (jobs.go).
-- Store/Coordinator.antt and Store/Coordinator/Offer.antt: claimAssignmentCandidate,
-- reconcileOneAssignment and ReconcileAssignments (coordinator.go).
-- Store/LogKeys.antt, Store/Logs.antt and Store/Logs/Delivery.antt: CommitLogChunk and contiguousLogProjection (logs.go).
-- Store/Targets.antt: the transaction of UpdateTargetState (targets.go), behind the tests of the form
-- of the key and the name.
-- Store/Sessions.antt: EnrollAgent behind the validation of the registration, RenewAgentSession and
-- AuthenticateAgent (agents.go).
-- Store/Actions.antt: AcknowledgeDesiredAction (executions.go).
-- Store/Transactions.antt: the transactions on all tables, composed of the above.
-- Store/Consistency.antt: what the rows of one job keep; Store/Database/Evolution.antt: how a row
-- may change in a transaction, and what the tables keep; Store/Histories.antt: sequences of
-- transactions. The other files under a component's name hold its proofs, and Store/Examples runs
-- the transactions on small tables. Prelude holds what the components share.
--
-- Directory.antt: readDirectoryFrame, directoryBERLength and validateDirectoryBER
-- (internal/directory/bounds.go), the bounds on a directory server's responses; Directory/Elements,
-- Termination, Bounds and Frames hold the proofs.
--
-- Domain.antt: EffectiveCapabilities (internal/domain/authorization.go) with ValidRole
-- (internal/domain/target.go); Domain/Grants and Domain/Ladder hold the proofs.
--
-- Contracts.antt with its children: the documents of contracts/jobman/v1alpha1. Contracts/Json and
-- Json/Numbers: canonicalJSON with decodeJSONValue, on the tokens of json.Decoder, and
-- normalizeJSONNumber (codec.go). Contracts/Names and Contracts/Paths: validateName,
-- validateStringMap, validateLogicalPath, validateLogicalURI and the patterns (validate.go).
-- Contracts/Workloads: the workload document (types.go); Workloads/Normal: normalizeWorkload
-- (normalize.go); Workloads/Parts and Workloads/Valid: ValidateWorkload (validate.go); Workloads/Seal:
-- SealWorkload (codec.go) and validateWorkloadBinding. Contracts/Graphs: graphContainsCycle, and
-- Contracts/Requests: ValidateJobRequest, ValidateCollectionRequest and ValidateGraphRequest
-- (validate.go); Requests/Seal: SealJobRequest, SealCollectionRequest and SealGraphRequest (codec.go).
-- Contracts/Executions: effective executions and assignments (validate.go, codec.go). Contracts/Offers,
-- Contracts/Observations and Contracts/Events: the documents of agents (agent_contracts.go).
-- Contracts/Sorting: sort.Slice and sort.Strings. The other files under these hold proofs,
-- and Contracts/Examples runs the checks on small documents.
--
-- The loop of applyGraphCompletion runs on fuel, one more than the number of jobs: each round closes
-- a waiting job. The loop of validateDirectoryBER runs on as much fuel as there are octets: every
-- element takes at least two. decodeJSONValue runs on twice as many calls as there are tokens, and one
-- more; the main loop of graphContainsCycle on one round more than there are nodes. Neither runs out.
-- Numbers are natural; a log chunk's offsets, which a client sends signed, are
-- integers until they are tested, and the guard against an overflow of 64 bits is kept.
--
-- Parameters: `seal` stands for buildAssignmentDocument with its JSON and SHA-256, `new_id` and
-- `ids` for the draw of identifiers, `now` for transaction_timestamp(), one for each
-- transaction of the loop of ReconcileAssignments. Decoded documents are
-- records of the fields that are read, and url.Parse is the decoded URL or none. `Secrets` of
-- Store/Sessions stands for deriveToken and hashToken. `Host` of
-- Contracts/Workloads holds what the standard library does for the contracts: time.ParseDuration,
-- url.Parse, json.Decoder, json.Marshal, the copy of a workload through its JSON, and SHA-256;
-- `Codec` of Requests/Seal holds the copy and json.Marshal of another kind of document.
-- Not modelled: errors of the database itself, the formats that the CHECKs of artifacts' rows want,
-- rows that another transaction has locked, updated_at, the details of audit events, the outbox,
-- submission of jobs, the creation of targets and enrollment tokens, agents' certificates, reads
-- for clients, the reading of a document's bytes (readCanonical, strictUnmarshal),
-- the HTTP interface, configuration and certificates.
mod Prelude
pub mod Store
pub mod Directory
pub mod Domain
pub mod Contracts
