-- ===== src/Lib.antt =====
-- Verification of the deterministic core of Argus, the incident response service of this repository.
--
-- The program: alerts are matched with failure modes (internal/correlation) and grouped under shared
-- roots of the service dependency graph (internal/topology); probes against Prometheus and Loki
-- corroborate or refute each failure mode (internal/evidence); internal/rca scores the hypotheses and
-- proposes remediations out of the action catalog (internal/actions); internal/policy allows or blocks
-- a proposal; internal/approvals lets a human decide it; internal/remediation moves it through its
-- states and sends its job through an outbox; internal/workers executes the job; internal/audit records
-- every step in a hash-chained ledger.
--
-- The files:
-- - Base: Boolean tests, maps, sorting, Go's string functions, integers and results.
-- - Actions: internal/actions/catalog.go. Risk and EffectiveRisk are risk and effective_risk, Validate
--   is validate. Actions/Names has the constants; Actions/Risk the proofs.
-- - Policy: internal/policy/engine.go. Evaluate is evaluate, its reasons a data type.
-- - Remediation/States: internal/remediation/states.go. RequireTransition is require_transition;
--   Lifecycle has the histories of steps that it allows.
-- - Topology: internal/topology/graph.go. New is new and Path is path. Route says what a path is
--   without a search, Build and Path have the proofs. Topology/Groups models Groups with its helpers,
--   and its children prove what the groups are; Reach has the walk of rootCandidates.
-- - Audit: internal/audit/chain.go and internal/audit/service.go. WriteTx is write_tx on a ledger of
--   rows and a head, Audit/Verify has Verify, Audit/Backfill the migration of old rows. Chain says what
--   a sound ledger is.
-- - Approvals: internal/approvals/store.go and internal/approvals/service.go. A Database has the
--   requests, the remediations and a ledger; Approvals/Store has Create and Decide, Approvals/Sweep the
--   other operations of the store, Approvals/Service the service. Steps has the sequences of its
--   operations, Meaning and Verdict what a decision means, Approved, Quiet and Approving which operation
--   approves something.
-- - Evidence: internal/evidence/evidence.go. runOne is run_one and Render is render.
-- - Correlation: internal/correlation/correlator.go, with the rules of internal/correlation/rules.go in
--   Correlation/Rules and the compiled table in Correlation/Table.
-- - Rca: internal/rca/service.go from the matches to the ranked hypothesis; the score of one hypothesis
--   is in Rca/Score, the runs of the probes and the evidence items in Rca/Gather; Rca/Grouping and
--   Rca/Ranking prove which hypothesis is reported.
-- - Incidents: the life cycle of internal/incidents/service.go with TransitionIncident of
--   internal/incidents/store.go.
-- - Jobs: the rows of remediations and dispatches, the heartbeats, the ledger and the stream in one
--   World. Jobs/Store has the statements of internal/incidents/store.go on jobs, Jobs/Outbox and
--   Jobs/Reconcile are internal/remediation/dispatch.go, Jobs/Proposals and Jobs/Execution are Propose,
--   Execute and Cancel of internal/remediation/service.go, with the rows and entries in their children
--   Rows and Entries, and Jobs/Runner has the messages of internal/workers/runner.go. The names are
--   those of the code (publish is publish_due, redispatchTx is redispatch_tx, handleMessage is
--   handle_message); execute_read and cancel_read are what follows the reading of the row. Moves,
--   Follows, Publishing, Working and Handling prove what every operation on jobs keeps, Steps has their
--   sequences; Settled and Answered are about messages, Twins, Proposing and Repeating about proposals,
--   Batches, Sending, Late, Stuck, Verdicts, Reserving and Delays about the other parts.
-- - System: the approval service and the jobs on one database. asks is RequestApproval as Propose calls
--   it, absorb takes over what an operation of the approval service wrote; Lives has the sequences of
--   the operations of both, Shared and Born what the table of remediations becomes.
-- - Workers: the control state of internal/workers/control_state.go; Merge has the merged states, Once
--   that a job is applied once, Effect what a job does to the states. Workers/Handlers has the handlers
--   of internal/workers/typed_handlers.go and the static ones of internal/workers/runner.go.
-- - Examples: runs at concrete inputs.
--
-- Parameters: Audit takes a Platform, which is what the code uses of encoding/json, crypto/sha256
-- and PostgreSQL: the JSON that a row returns may differ from what was stored, and an INSERT may be
-- refused for its values, such as a NUL in a text or a \u0000 in a JSON column. IsReliable names
-- what the code relies on, that a digest is 64 lower-case hex digits. KeepsJson says of one entry
-- that its JSON comes back with the same canonical form, which PostgreSQL does not promise for a
-- number in E notation. A backend of Evidence is a function from a query and a time to an answer.
-- Approvals takes the ledger and its WriteTx, which may fail, and what a notification ends with.
-- Jobs takes WriteTx in the same way, Publish on a stream, the executor, the identifiers that
-- common.NewID makes, the digest and the comparison of parameters, and the approval workflow with a
-- state of its own, which System fills with the approval service. A transaction of the database is
-- atomic, and none runs beside another; what others do between the transactions of one operation is
-- a stale row or a function on the World. Errors of the database itself are left out of Audit,
-- Approvals and Jobs, and arguments of Workers.
--
-- Numbers: weights and scores are exact decimals, whole numbers of 1/10000 (1/20000 before a score is
-- rounded), where the code has float64. A value of a backend is a whole number of a unit that divides
-- all values and thresholds, not a number, or infinite. A time is a number, in Jobs of nanoseconds, and
-- 0 the zero time.
--
-- Fuel: the search of Path and the walk of rootCandidates get two rounds more than the graph has
-- dependency entries, since every round takes a service off a queue that each service enters once;
-- the loop of Groups gets one more than there are services, since every round assigns one at least.
--
-- Maps and sets are lists. Where Go ranges over a map, its result is sorted before it is used, and a
-- stable sort is an insertion sort. Error texts, summaries and explanations are data types or left out;
-- so are concurrency in Run and collectEvidence, whose parts are independent, and the language model.
-- Not modelled: the HTTP API, authentication, the ingestion of alerts and the listings of
-- internal/incidents, the Helios executor, the loops of the dispatcher and the workers with their
-- heartbeats, notifications, the queue, configuration, telemetry and the command line programs.
pub mod Actions
pub mod Approvals
pub mod Audit
pub mod Base
pub mod Correlation
pub mod Evidence
pub mod Examples
pub mod Incidents
pub mod Jobs
pub mod Policy
pub mod Rca
pub mod Remediation
pub mod System
pub mod Topology
pub mod Workers
