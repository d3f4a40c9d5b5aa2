-- ===== src/Lib.antt =====
-- The freight auditor: carrier invoices are parsed into charges, audited against rubrics of predicates,
-- and the outcome drives a payment gate and, for accepted overcharges, claims against carriers. Every
-- state change writes evidence to an append-only ledger.
--
-- Files, with the code they model (paths from the repository's root):
--   Money       decimal.js, which the modules import: the record of its operations is a parameter of
--               every model. `IsExact`, which theorems name as exact decimal arithmetic, assumes more
--               of it than holds everywhere: an ordered group in which nothing rounds, no value is
--               NaN or Infinity, and a printed value reads back. Cents is an instance of it, at which the tests run.
--   Audit       src/modules/audit-ledger/write-audit-event.ts: the ledger as a list, writeAuditEvent.
--   RuleEngine  src/modules/rule-engine: Ast (ast.ts), Interpreter (interpreter.ts; `evaluate`, its
--               value functions and `verdict`) with proofs in Totality, Missing and Purity; Lifecycle
--               (transition-rule-lifecycle.ts, promote-shadow-rule.ts, quarantine-on-reversal.ts,
--               promotion-policy.ts and the ratify route of src/server/rule-governance-routes.ts) with
--               proofs below it.
--   Rubric      src/modules/rubric-resolver: Standard (standard-rubric.ts, contract-rubric.ts),
--               Cascade (apply-inherit-add.ts, apply-replace.ts, apply-exempt.ts, exemption-policy.ts) on
--               folded operations, with proofs in Agreement and Resolution; Tighten (monotonic-tighten.ts),
--               with proofs below it that go through the interpreter.
--   Evaluator   src/modules/evaluator: Invoice (types of ingestion/charge-fact.ts), FactBundle
--               (fact-bundle.ts), Evaluate (evaluate-invoice.ts), and proofs by what they show.
--   RateEngine  src/modules/rate-engine: Variance (attribute-grouped-variance.ts), Direction its proofs.
--   Payments    src/modules/payments: Compose (the two compose-*.ts), Decisions (the decision table and
--               generate-*.ts, authorize-payment.ts, list-pending-payment-authorizations.ts); Ledger, Gate,
--               Retry and ShortPay are proofs.
--   Claims      src/modules/claims: Status, Validation, Store (the transactions), Buckets and Reports
--               (reconciliation); Lifecycle and the modules below it are proofs.
--   Workflow    src/modules/workflow and the jobs of src/jobs that run it: Queue (claim-due-workflow-commands.ts,
--               reclaim-stale-claims.ts: the rows of commands and messages), Commands (scheduling, the scan,
--               running one), Instances (instances and transitions), Outbox (messages and deliveries); Keys
--               is about the texts that make ids, the modules below the others are proofs. pg-boss is its
--               table of jobs. The limits are the code's defaults: twenty rows a scan and account, thirty
--               minutes a claim, five attempts.
--   Tests       concrete runs, and each theorem with conditions applied to one.
--
-- State is a record of tables, a table a list of rows. An operation is one transaction: a function
-- from an input and a database to an error or a new database, so that an error changes nothing.
-- Sequences of transactions are the data types `Step` and `Reach`. A thrown error is an error
-- result. The tenant is fixed, since every query is scoped to one; the scans of the workflow go
-- through all active ones, and rules belong to none. Generated ids, times, hashes, JSON texts and
-- the collation of localeCompare are parameters. deterministicJobId and deterministicAuditEventId
-- are truncated digests; the theorems on the queue of commands assume that they never collide, each
-- where it says so. Every function recurs on its input, but for the digits of a number:
-- `print_digits` has the number's successor as fuel, which is enough, since the digits read back.
--
-- Not modelled: HTTP routes, but for the ratification of a rule, authentication, the other jobs, the web
-- client, document parsing by language models, and list queries, but for the pending queue and the
-- portfolio reports. Concurrency is left to the row locks and unique constraints of the database, which
-- the models take over as checks of a single transaction: SKIP LOCKED never skips a row here.

pub mod Prelude
pub mod Money
pub mod Cents
pub mod Audit
pub mod RuleEngine
pub mod Rubric
pub mod Evaluator
pub mod RateEngine
pub mod Payments
pub mod Claims
pub mod Workflow
pub mod Tests
