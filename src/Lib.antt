-- ===== src/Lib.antt =====
-- Mizan, a gateway for language models that admits, meters and charges requests.
--
-- The parts, with the files that model them:
--   Prelude     shared names: Boolean tests, lists, texts as code points, decimal numerals, signed
--               integers, and the machine words u32, u64 and i64 with their wrap-around.
--   Core        crates/mizan-core: identifiers (Id), the errors with their texts, codes and statuses
--               (Error: src/error.rs, and from_app_error, app_error_status_code and
--               error_code_from_app_error of crates/mizan-api), calls on a state that may fail (Exec), the
--               redaction of secrets (Redaction: src/redaction.rs), the context of a request
--               (Context: src/context.rs) and HTTP headers as axum gives them (Headers).
--   Wallet      crates/mizan-wallet: calculate_usage_charge.
--   Billing     crates/mizan-api/src/billing.rs: Tables holds the rows, Database the transactions,
--               Wallets ensure_wallet, ensure_wallet_in_tx and grant_credits, Usage estimate_usage,
--               record_usage and ensure_sufficient_credit. Settlement says what record_usage may
--               come to; Balance, Rules, Writes and Charge hold the lemmas, Metering, Preflight and
--               Grants the theorems.
--   Limits      crates/mizan-limits: Redis holds the counters and the two scripts, Acquire
--               check_and_acquire and release; Counters and Leases hold the lemmas, Admission, Granted and
--               Keys the theorems.
--   Rtk         crates/mizan-rtk/src/filter.rs: Filter and its Laws.
--   Dispatch    crates/mizan-api/src/dispatch.rs: Jobs holds the row and the payloads, Statements the
--               SQL statements, Queue the operations; Status and Calls show how a row may move, Final
--               has the theorems about sequences of calls, Wait the polling loop.
--   Sql         prepare_sql of crates/mizan-api/src/utils.rs and DatabaseBackend of
--               crates/mizan-core/src/database.rs.
--   Metrics     crates/mizan-api/src/metrics.rs: the registry, with Labels, Render and the theorems in
--               Laws and Escape.
--   Logging     crates/mizan-api/src/logging.rs: record_request_log and record_admin_audit, with
--               Laws on what an insertion comes to.
--   Nodes       crates/mizan-api/src/daemon_nodes.rs: Table holds the rows, Capabilities what a node
--               reports, Payloads the bodies, Rows mark_node_seen, revoke_node and the insertion, Calls
--               and List the handlers, Select select_eligible_daemon_node, Signature the signed
--               requests, Identity daemon_node_auth; the theorems are in Signature/Replay, Refusal and
--               Choice, over the lemmas of Revocation.
--   Providers   crates/mizan-providers/src/lib.rs: Payloads holds the replies and stream events, Sse the
--               machine of stream_sse_chunks, Sse/Reference what it is to give, Sse/Pieces and
--               Sse/Ending the proof.
--   Gateway     crates/mizan-api/src/gateway.rs: Requests, Policy and Routes hold the payloads, the small
--               decisions and resolve_model_route; State the state that a request changes (tables,
--               Redis, job queue, nodes, metrics, logs, calls of the provider); Attempt, Provider and
--               Daemon the steps after the resolution of a route, on either way, and Handler
--               chat_completions_impl; Stream is build_stream_events. The theorems are in Handler/Leases,
--               Handler/Logs, Handler/Admission, Handler/Money, Stream/Ending and Stream/Metering.
--
-- How they interact: the gateway asks ensure_sufficient_credit and check_and_acquire before it calls a
-- provider, or puts a job for a chosen node into the dispatch queue, and record_usage, the metrics,
-- the request log and release after it. Billing and Metrics use the charge of Wallet.
--
-- How the code is read. A database statement and a Redis command may fail: a schedule of failures is
-- part of the state, and a theorem that names no schedule holds for all of them. A statement that
-- fails has no effect, and a transaction that is not committed leaves nothing. Fresh uuids and
-- readings of the clock are arguments. Transactions are taken one at a time, as the row lock and
-- SQLite give them; a call on the dispatch queue is taken as one step. Uuids are numbers, and an id
-- that a column stores as text may be malformed. JSON is a parameter, and so are SHA-256, the
-- printed form of a uuid, the decryption of a provider key, the UTF-8 decoder of the stream and what
-- the provider answers. A task that the gateway spawns, to insert a log or to release a lease, runs
-- to its end at once; its error is only warned of. Counters of the metrics wrap at 2^64.
--
-- Bounds and fuel. The loops of filter_output run on the number of characters left to drop, which is
-- enough since each round drops one; decimal printing runs on the number plus one. Sizes stay below
-- usize. The loop of redact_segment runs on the length of the segment, and the polling loop on a
-- number of polls, which is enough when the clock shows the timeout before it is spent, and after
-- which the gateway's dispatch is taken as timed out. The sum and products of a charge are integers,
-- since i128 holds them for every u64 and i64.
--
-- Not modelled: HTTP, axum routing, the sqlx and redis drivers, encryption and hashing, tracing,
-- the command line client and the daemon process; and, of the code that decides, authentication of
-- users, the management of provider connections and model routes, the list queries of billing, and configuration.
pub mod Prelude
pub mod Core
pub mod Wallet
pub mod Billing
pub mod Limits
pub mod Rtk
pub mod Dispatch
pub mod Sql
pub mod Metrics
pub mod Logging
pub mod Nodes
pub mod Providers
pub mod Gateway
