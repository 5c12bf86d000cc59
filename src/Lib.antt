-- ===== src/Lib.antt =====
-- ScopeGuard keeps freelancers' change orders and their payments; its services write all work that
-- reaches outside into durable tables first. This library models the durable core of the services
-- and the payment service that stands on it.
--
-- Parts and files, with the program's files as paths from the repository's root:
--   * Base: what all parts share. Exceptions by class (services/domain/errors.py), code with a state
--     that may raise (Exec), the rules Does and Leads that carry conditions through such code,
--     sessions with a committed state, tables as lists of rows, JSON values.
--   * Domain: services/domain/auth.py (the trusted context) and services/domain/money.py (paise and
--     decimal hours); Decimals is the rounding of decimal's default context, and Rounding
--     holds the proofs on it; Calendar is services/domain/terms.py, in which dates are ordinals, the
--     time zones are a parameter, and the loop over days is structural in the days that the calendar has left.
--   * Workers: services/workers. Tables are the rows of services/domain/models.py; Jobs, Actions, Outbox and
--     Locks are services/workers/durable.py (enqueue_job, claim_jobs, heartbeat_job, complete_job,
--     fail_job, recover_expired_jobs; prepare_external_action to cancel_action; publish_outbox;
--     LockOrderGuard); Operator is retry_failed_job of services/api/operations.py; Commands is
--     services/workers/transactions.py with record_consumer_receipt; Capacity and Recovery are capacity.py and recovery.py; Faults is faults.py.
--   * Payments: services/payments/service.py. Status is _transition; Links prepares and replaces
--     payment links, Dispatch dispatches them; Webhooks accepts and normalizes deliveries; Facts and Observe are
--     observe_payment_event; Replay, Reconcile the rest. Texts holds the text and dictionary operations.
--   * Handlers: services/workers/handlers.py, which runs a claimed job by its kind.
--   * Agents: the deterministic rules around the language models. Gates is apply_evidence_gate of
--     services/agents/gates.py on the outputs of schemas.py, Limits is services/agents/limits.py.
--   * ChangeOrders: services/change_orders/service.py. Tables are its rows and Office the state with all tables,
--     beside what the operations share; Payload is _proposal_payload, Proposals _new_revision and
--     create_revision, Assembly assemble_change_order with its notification, Approvals approve_freelancer,
--     Sessions and Receipts the client's access, Acceptance accept_client, which amends the scope
--     (Amendments), Sends and Notices the outcomes of Gmail and SES, Decisions freelancer_decide,
--     withdraw_change_order and client_decide, Expiry expire_stale_offers. read_change_order is
--     find_order. Tokens, hash, encryption, UUID texts and the base of review links are the fields of
--     Desk. Lifecycle holds the proofs on the statuses of orders over all operations; Issued,
--     Exact, Accepted, Price, Requested with Single and Priced, Again, Sent and Revoked those on
--     single operations.
-- Each operation of the source is one definition of the same name, without its leading underscore; its
-- parts stand before it. Child modules hold the proofs and are named for what they prove.
--
-- How the parts interact: the payment service prepares external actions and enqueues jobs in the
-- transaction of its own writes (on_db); the change orders do so too (on_work) and, on an acceptance,
-- have the payment service prepare the link (on_ledger); a worker claims the job, runs it through Handlers, and
-- writes the outcome back under its fencing generation; the outbox is published after the commit.
--
-- The model. A state is a record of tables, each a list of rows in the order of their insertion; a write to
-- an object of the session is the write-back of its row. What was written before an exception stays
-- written until the caller rolls back. Identities are numbers from one supply, tenants, workers and digests
-- are numbers that are only compared, times count microseconds. Numbers are natural, but for the days of
-- add_working_days: where the source subtracts, the comparison is written with the sum. Loops are
-- structural recursion over the rows that were selected or the days the calendar has left, so no fuel
-- is used there; the digits of a number are counted with the number itself as the fuel, and no number
-- has more digits than it counts. The rows that FOR UPDATE SKIP LOCKED skips are a predicate; the
-- publisher, the provider's clients, SHA-256 and str() of values that are not text are parameters. A query that takes one of
-- several rows without an order takes the first. Inserting a change order or a payment
-- request under an identity that is taken fails; the schema's other constraints are not modelled.
--
-- Not modelled: messages of exceptions, metrics, column lengths, the validators of the calendar rules and the
-- commercial terms, isolation below the commit, the agents' workflow, contracts, connectors and the API but for
-- an operator's retry of a job, and the transport of the
-- providers. The bodies of the Gmail and SES job kinds are parameters
-- of Handlers.
pub mod Base
pub mod Domain
pub mod Workers
pub mod Payments
pub mod Handlers
pub mod Agents
pub mod ChangeOrders
