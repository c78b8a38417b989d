-- ===== src/Lib.antt =====
-- Verification of daddy-config, a remittance service on the Stellar network: parts of the TypeScript
-- SDK (sdk/src), of the backend service (backend/src) and of the public API (api/src).
--
-- The program. The SDK calls a contract that keeps remittances, agents and fees; its mock client is the
-- same ledger in memory, for tests. The backend follows deposits and withdrawals through the anchors'
-- webhooks and keeps their states in Postgres, keeps what each anchor says of a user's identity, caches
-- rates of exchange, tells subscribers of events by outbound webhooks, and asks a second administrator
-- to confirm high-risk operations. The API serves the administrators' confirmations too.
--
-- The files.
-- Base: lists, maps in insertion order (`Map`), Boolean tests, `===` as the interface `Equality`,
--   results, integers.
-- Ledger: `sdk/src/testing/mock-client.ts`, with the types of `sdk/src/types.ts`. Ledger.Client is the
--   state and the seed helpers, Reads the queries, Writes creation and the private helpers,
--   Lifecycle and Admin the other writes, Trace sequences of writes. Effects is the abstract view: the
--   changes that a write may make, as a step relation. Ledger.Effects.Calls refines each write to it, and
--   Invariant, Fees and Life are inductions on the relation; Errors, Batch and Estimates are on the
--   writes themselves.
-- Transactions: `backend/src/transaction-state.ts`. Transactions.State is the database and the
--   transition tables, Update the two updates as sequences of SQL statements, Graph the transition
--   diagram and what it reaches, Laws and Runs the behaviour of one update and of many.
-- Kyc: `backend/src/kyc-upsert-service.ts` in Kyc.Store and `backend/src/transfer-guard.ts` in Kyc.Guard.
--   The guard reads what the store answers; Laws and Upsert are about the two.
-- Webhooks: `backend/src/webhooks`. Webhooks.Store is `InMemoryWebhookStore`, Postgres and Taken
--   `PostgresWebhookStore`, with the prefix `pg_` to the names of its methods, Dispatcher and Signatures
--   are `WebhookDispatcher`, Service is `WebhookService`, which calls both.
-- Confirmation: `backend/src/admin-confirmation.ts`, and `verify` of `api/src/admin-confirmation.ts`.
--   Confirmation.Steps is the system in which requests interleave.
-- Inbound: `backend/src/webhook-handler.ts`, with `backend/src/webhook-verifier.ts`,
--   `backend/src/webhook-logger.ts`, and `recordWebhookNonce` and the other statements of
--   `backend/src/database.ts` that it calls. Inbound.Gate is the checks, Payload the validation of
--   a body, Handlers the four handlers of an event, Webhook the whole of `handleWebhook`, which calls
--   Transactions and Kyc. Admission is about one request and Nonces about sequences of admissions;
--   Lifecycle is the relation of a transaction's row before a delivery to the row after it, Sequences
--   that each handler keeps to it, Runs and Redelivery sequences of deliveries.
-- Remittances: `api/src/db/remittanceStore.ts`. Remittances.Store is the rows and the page of a query,
--   Order the order of rows in it, Pages one page, Traversal a client that follows the cursors.
-- Queue: `backend/src/webhook-dispatcher.ts` with its tables in `backend/src/database.ts`. Queue.Store is
--   the statements, Dispatcher `WebhookDispatcher`; Invariant and Runs are about sequences of
--   dispatches and retries, Delay about the wait before a retry.
-- Rates: `backend/src/fx-rate-cache.ts` on `backend/src/fx-provider.ts`. Rates.Failover is
--   `FailoverFxService`, State and Cache are `FxRateCache` and its methods, Steps what happens between two
--   waits, in any order. Calm and Fallback are about stale rates, Remembered about two providers that fail,
--   Sharing, Starting, Ending and OneFetch about the fetch that the requests of a pair share.
-- Each Tests module runs the code on concrete inputs.
--
-- Names. A function or a field of the source keeps its name in the spelling of this library:
-- `confirmPayout` is `confirm_payout`, `platformFees` is `platform_fees`. A class is a record of its
-- fields, and a method takes that record last and returns its result beside the new one.
--
-- How the source is read. Amounts, ids, times and basis points are natural numbers; an amount in a
-- request or an estimate, which may be negative, is an integer. The clock, random ids, the network, signatures,
-- serialization and the rounding of a quotient of floating-point numbers are arguments. An error is a
-- value beside the state, which stays as it is where it is thrown. Texts of errors are constructors. A
-- SQL statement is what the SQL says on a list of rows; in Transactions each statement may fail, by an
-- argument, and the row lock makes an update one step; in Confirmation the two statements of
-- `confirm` are two steps, since the source has no transaction there. A transaction hash or a UUID is
-- its place in the order of those made. What only logs is left out.
--
-- Recursion is structural. The attempts of a delivery run on the number that is left until
-- `maxRetries`, which bounds the recursion of the source too. `all_pages`, a client that asks for pages
-- as long as there is a cursor, is the one function on fuel: as much fuel as there are rows, and one
-- more, is enough. Times in Postgres have microseconds, those of a cursor milliseconds, and both are
-- kept in Remittances. A collation is an order of texts given by an argument, and so is the encoding of
-- a cursor.
--
-- Of the constraints of columns, three are modelled: the CHECKs on the status and the level of an
-- identity record, where the statement fails on what they refuse, and the UUID column of the logs of
-- suspicions, by the argument `logs_webhook_id` that says which texts it takes. A refusal that cannot
-- be logged is answered 500, as in the source.
--
-- Not modelled: the other constraints of columns, so that a statement which they refuse is one that
-- fails; in Queue, statements that fail; the joining of Inbound, which lists its calls of
-- the outbound dispatcher, with Queue; the package `node-cache`, which is an input; the contract in Rust,
-- the Soroban client `sdk/src/client.ts`, the HTTP routes and their middleware, GraphQL, the web
-- sockets, metrics, secrets, the rest of the migrations and the front ends.
pub mod Base
pub mod Ledger
pub mod Transactions
pub mod Kyc
pub mod Webhooks
pub mod Confirmation
pub mod Inbound
pub mod Queue
pub mod Rates
pub mod Remittances
