-- ===== src/Lib.antt =====
-- A verification of the orchestration core of Kase, the audit service under apps/api/src.
--
-- The program runs security audits. An audit is a graph of jobs: `OrchestratorService.dispatch`
-- writes its rows from a template, the scheduler hands ready jobs to queues, workers claim them, beat
-- while they run, wait for children, succeed or fail, and an audit ends when its graph has settled
-- or its cancellation was requested. All parts share the tables of one PostgreSQL database.
--
-- Orchestrator/JobGraph.antt and its children: orchestrator/job-graph.ts. `validate_job_graph` is
--   `validateJobGraph`, `ready_jobs` and `blocked_jobs` are `readyJobs` and `blockedJobs`,
--   `graph_template` is `graphTemplate`, `new_node` the row that `dispatch` makes of a template. The
--   depth-first search runs on fuel, one more than there are nodes: no path repeats an id.
-- Orchestrator/AuditState.antt: orchestrator/audit-state-machine.ts.
-- Orchestrator/RetryPolicy.antt: orchestrator/retry-policy.ts.
-- Orchestrator/Store.antt: the tables that the services share, with their queries and updates, and
--   the messages for the queue transport, which is an external service.
-- Orchestrator/Lifecycle.antt: orchestrator/audit-job-lifecycle.service.ts, a function for each
--   method: `claim`, `heartbeat`, `wait_for_child`, `succeed`, `fail`.
-- Orchestrator/Scheduler.antt and Orchestrator/Settlement.antt:
--   orchestrator/audit-scheduler.service.ts, `advance`, `recover` and `finishSettledGraph`. The loop
--   that skips blocked jobs runs on fuel, one more than there are jobs: each round skips one.
-- Orchestrator/Cancellation.antt: orchestrator/audit-cancellation.service.ts.
-- Orchestrator/History and its children: sequences of these operations in any order, as a relation.
-- Agents/Budget.antt and its children: agent-runtime/budget, `BudgetService.reserve`, `settle`,
--   `expireReservation` and `recoverRun` on the rows of one audit, and sequences of them.
-- Access.antt and its children: auth/, the guards of a route in their order (`admit`), and
--   tokens/tokens.service.ts. `Externals` holds what they take from other packages.
-- Scope/HostPattern.antt and its child: common/host-pattern.ts, the patterns of a scope policy. Texts
--   are walked by code points.
-- Recon/Budget.antt and its children: recon/recon-budget.service.ts, the requests that the recon jobs
--   of an audit may send: `reserve_requests` is `reserve` and `settle_requests` is `settle`.
-- Scope/ReconScope.antt and its child: recon/recon-scope.service.ts, the decision on a URL.
-- Listings/Pagination.antt and its child: common/pagination.ts, and a client that follows the cursors
--   of a listing which does not change meanwhile; one page more than there are rows is enough.
-- Orchestrator/Dispatch.antt and its child: orchestrator/orchestrator.service.ts, the checks that
--   `dispatch` makes of a request alone; those of the project's rows are not modelled.
-- Agents/RetryStrategy.antt: ai-provider/retry-strategy.ts, the errors of a provider and the backoff.
-- Retention/Policy.antt and its children: retention/retention-policy.service.ts, with the SQL that moves
--   the expiries (Writes.antt). Retention/Worker.antt and its children:
--   retention/retention-worker.service.ts; History.antt has the statements of all workers, captures and
--   policies as steps in any order.
-- Projects.antt and its children: projects/projects.service.ts. Slug.antt derives and matches slugs,
--   Operations.antt has the projects and their policies, Sections.antt repositories and targets,
--   History.antt the operations in any order. Foreign keys follow
--   packages/db/migrations/20260825000000_init/migration.sql.
-- Secrets.antt and its children: secrets/. Secrets.antt has the envelope encryption, with the contract
--   `IsProvider` that a provider of keys keeps and the laws `IsPlatform` of Node's crypto module;
--   Service.antt is secrets.service.ts, where a rotation is split at its read so that others may come
--   between; Versions.antt, Keeping.antt, Frozen.antt and Rotation.antt have the operations in any order.
-- Findings.antt and its children: agent-runtime/capabilities/finding-authority.ts,
--   and, in Persistence.antt, findings/finding-persistence.service.ts, of
--   which Occurrences.antt takes each call as run to its end.
-- Storage.antt and its children: storage/s3.service.ts and the URI that
--   retention/retention-object-store.service.ts reads.
-- Provenance.antt and Provenance/Agreement.antt: provenance/provenance-resolver.ts.
-- AuditTrail.antt and AuditTrail/Redaction.antt: audit-trail/audit-trail.service.ts.
-- Correlation.antt and Correlation/Best.antt: correlation/route-resolution.ts.
-- Recon/HostLease.antt and its children: recon/host-rate-lease.service.ts. `acquire_loop` recurses on the
--   delays that pass before the abort signal.
--
-- An operation is a function from tables to tables, with the clock and the worker's arguments as
-- parameters; one that may throw returns a `Result`. Each operation is one step, also where the source
-- makes several statements without a transaction. Which messages the queue refuses is a parameter of
-- `advance`. Times are natural numbers of milliseconds. Counters that the source decrements are
-- natural numbers, whose subtraction stops at zero.
--
-- Not modelled: the transport, HTTP, the processes of the workers, the loop of an agent, the matching of
-- findings over a graph of symbols, the web client, and the parts of the service that are rows in and
-- rows out. Cryptography, the object store, Git and the Unicode tables are parameters, with what is
-- documented of them as hypotheses.
pub mod Prelude
pub mod Orchestrator
pub mod Agents
pub mod Access
pub mod Scope
pub mod Recon
pub mod Listings
pub mod Retention
pub mod Projects
pub mod Secrets
pub mod Findings
pub mod Storage
pub mod Provenance
pub mod AuditTrail
pub mod Correlation
