-- ===== src/Lib.antt =====
-- A model of the Vorcaro ledger server, and what holds of it.
--
-- The server keeps an append-only ledger of signed client events. A device sends an event under its
-- client certificate; the appender of server/src/ledger/appender.ts checks it, asks the policy
-- engine of server/src/policy/engine.ts, gives it the next sequence number, chains it to the row
-- before it by a hash, signs an acknowledgement, and updates in one transaction the ledger row, the
-- device's watermark, the open conflicts and the head of the object. Events, acknowledgements and
-- hashes are those of packages/protocol/src.
--
-- The modules:
--   Prelude            numbers, texts, lists, tests and a sorting routine that the others share
--   Protocol           packages/protocol/src: Types, Envelope, Pattern and Schema (schemas.ts),
--                      Spelling (the texts of the enumerations), Decimal (bigints as text), Json and
--                      Canonical (canonical.ts), Crypto (crypto.ts), Result (thrown errors)
--   Policy             server/src/policy/engine.ts: Document, Amount (rates and conversion),
--                      Snapshot (currency snapshots and document hashes), Engine (evaluate);
--                      Decision proves what a decision rests on. server/src/policy/service.ts:
--                      Activation (activatePolicy, policyDocument); Storing, Grounds and Activated say
--                      what it checks and leaves;
--                      Schema is policyDocumentSchema of packages/protocol/src/schemas.ts,
--                      Stored the JSON of a policy and Reading what is read of it
--   Database           server/migrations/ledger/0001_initial.sql: Tables, Action (a program on the
--                      database, and a transaction), Select, Insert;
--                      Keeps, Returns and Restores reason about a program by its steps
--   Ledger             server/src/ledger/appender.ts: Rows (rowToAck, the bound values), Conflicts
--                      (openConflict, resolveConflict, updateObjectHead), Append
--                      (appendValidatedEvent), Admission (appendNow), Queue (append, appendBatch).
--                      Effects, Outcome and Frame say what a call does to each table; Chain,
--                      Agreement, Authority, Idempotence, Watermark, Queue.Invariants and Queue.Order
--                      prove on it
--   Audit              server/src/api/audit.ts: writeAuditLog and its hash chain; the modules
--                      Trail follow it through the calls
--   Recovery           server/src/recovery/service.ts: Statements (its SQL), Ceremony
--                      (initiateCeremony, approveCeremony), Rotation (rewrapKeyPackages,
--                      appendAcceptedEvent), Checks and Execution (executeCeremony); Chain,
--                      Authority, Rotated, Executed, Once and Approval prove on it
--   Enrollment         server/src/pki/enrollment.ts: Service (options, inputs, dates), Statements
--                      (its SQL), Tokens (issueEnrollmentToken, beginEnrollment), Checks and
--                      Completion (completeEnrollment), Revocation (revokeDevice); Chain, Grounds,
--                      Effects, Once, Revoked and Errors prove on it
--   Projections        server/src/projections/worker.ts: Tables (server/migrations/projections),
--                      Statements (applyEvent, syncOpenConflicts, setMeta), Cash
--                      (rebuildCashPosition), Worker (applyNextBatch, rebuildAll); Progress, Rebuild
--                      and Coverage prove on the batches, Frame, Totals, Accounts, Order and Batches
--                      lead, with Rounds
--                      and Loop, to Equivalence and Liveness
--   System             the calls of the appender and of the three services on their one database, in
--                      any order (server/src/main.ts opens it once and hands it to each)
--   Examples           a small server, and each theorem at one of its requests
--
-- How the code corresponds to the model. A statement of SQL is a function on lists of rows, which
-- fails where a constraint of the schema does; a call is a function `Db → Result A × Db`, whose
-- second part is the database afterwards, also when it throws; a transaction restores it then. The
-- promise chain `tail` of the appender is `run_queue`, which goes on after a request that throws.
-- Loops are structural recursions, but for two on fuel: the decimal digits of a number n, where
-- n + 1 rounds are given and fewer are used, and the batches of `rebuildAll`, which needs one round
-- more than the ledger has rows at most; that this is enough is a result below.
--
-- Code outside the repository is the record `Host`: the bytes of a text, base64, SHA-256, Ed25519,
-- `localeCompare` and zod's test of a timestamp. Nothing is asked of it but where a theorem says so.
-- `now()` is the field `now` of the appender and of the services; the recovery service's key
-- management is the record `KeyManagementService`, the enrollment service's certificate authority
-- and dates are the records `CertificateAuthority` and `Dates`, and its random texts are fields.
--
-- What is simplified. A JavaScript number is an integer. A column of JSON text holds the value that
-- JSON reads from it; the policy document is written and read again with its marks for bigints, the
-- ids of a conflict's events are kept as they are, and the metadata has the decimal text of each
-- bigint. A schema that the protocol's functions run again on an event that has been parsed is not
-- run again. The columns that the modelled code neither reads nor writes are left out of the rows.
-- `activatePolicy` waits for its append before it stores the policy: `activate_policy` is the call
-- without another one in between, and `Call` has the second half as a call of its own. An answer of
-- the key management is a function of the request, although the local one draws a random number for
-- each wrapping; nothing is asked of it.
pub mod Prelude
pub mod Protocol
pub mod Policy
pub mod Database
pub mod Ledger
pub mod Audit
pub mod Recovery
pub mod Enrollment
pub mod Projections
pub mod System
mod Examples
