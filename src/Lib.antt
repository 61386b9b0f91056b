-- ===== src/Lib.antt =====
-- A verification of resgraph: the write path of its resource graph, the raw-first ingest, the
-- remediation that an operator approves, the policy of its serving gateway and its eval gate, as
-- definitions translated from the Python source and theorems about them.
--
-- Update messages (src/resgraph/schema.py) arrive on a Redis stream. The consumer
-- (src/resgraph/consumer.py) reads them in batches, applies each batch through the function that it
-- is given, halves a batch that fails and dead-letters what the store cannot take. In production
-- that function is the hot store's ingest (src/resgraph/graph/ingest.py), which keeps the statement
-- of the highest sequence for each resource. The gateway (src/resgraph/gateway) decides which model
-- serves a request (router.py, quality.py), which of the model's endpoints may (registry.py and
-- `_endpoint_plan` of server.py), which backend is next (dispatch.py), relays its stream (relay.py,
-- accounting.py), and bounds what a day may cost (budget.py, with the ledger of
-- src/resgraph/evals/breaker.py) and what an account may spend (accounts.py); cache.py answers repeated
-- requests; where an endpoint fails, server.py walks on to the next one. Apart from these, raw batches
-- are spooled and queued by reference (src/resgraph/ingest/spool.py), and workers write their events to
-- a sink (worker.py, sink.py). The analyst proposes a plan; an operator approves it
-- (src/resgraph/analyst/approval.py), the step machine (remediation.py) executes it and rolls it back
-- through the executor (executor.py), which emits messages to the same stream and reads the hot store;
-- the trail of it is a hash chain (audit.py). Tools answer in pages (src/resgraph/tools/budgets.py), and
-- a gate compares the evals of a change with a baseline (src/resgraph/evals/gate.py). The hot and the
-- cold store are compared by src/resgraph/reconcile.py.
--
-- Which file models which part:
--   Prelude          the library's names, Boolean tests on native numbers, lists, mappings
--   Floats           the arithmetic of Python's floats, a parameter: nothing is assumed of it
--   Schema           schema.py and `label_for` of graph/schema.py
--   Graph            graph/ingest.py. `Db` is the interface of the graph database, which is a
--                    service: its operations are the statements of ingest.py, its laws what Cypher
--                    says of them, and `tables` an implementation. `Apply` is `apply_message`,
--                    `Batch` is `apply_batch`. `View` is the abstract specification, the message
--                    that each resource shows; `Converge` and `Batch.Refines` refine it.
--   Consumer         consumer.py: `run`, `_apply_batch`, `_apply_entries`, the quarantine and the
--                    dead letters. `Promise`, `Settle` and `Balance` prove it.
--   Gateway.Dispatch gateway/dispatch.py: `Recovery`, `Windows` and `Choose` prove it.
--   Gateway.Router   gateway/router.py
--   Gateway.Quality  gateway/quality.py and `_quality_route` of gateway/server.py, whose lottery is
--                    an argument; `Frontier` and `Route` prove it.
--   Gateway.Relay    gateway/relay.py over gateway/accounting.py; `Traces` and `Slots` prove it.
--   Gateway.Plan     gateway/registry.py and the constraint pipeline of gateway/server.py; `Expand`
--                    is the endpoint table, `Hard` proves the pipeline.
--   Gateway.Cache    gateway/cache.py; `Lru` proves it.
--   Gateway.Budget   gateway/budget.py and evals/breaker.py; `Warning` and `Judge` prove it.
--   Gateway.Accounts gateway/accounts.py, with `_check_balance` and `_identify` of gateway/server.py;
--                    `Totals` and `Keyed` prove it.
--   Gateway.Walk     the routes and the fallback walk of gateway/server.py; `Routes`, `Hop` and `Ends`
--                    prove it.
--   Ingest.Queue     `RefQueue` of src/resgraph/ingest/spool.py; `Delivery` and `Claimed` prove it.
--   Ingest.Pipeline  `Spool` of spool.py, ingest/sink.py and ingest/worker.py, with producers and workers
--                    that may die while they write a file, between spooling and enqueueing, after a claim, and
--                    in front of an acknowledgement; `Written`, `Lossless`, `Drain`, `Actions`,
--                    `Replay` and `Named` prove it.
--   Analyst.Steps    the step machine of analyst/remediation.py, over any apply and rollback; `Calls` is
--                    its abstract specification, a step relation that says which calls a run makes and
--                    what it reports; `Guards`, `Forward`, `Unwound` and `Run` prove it.
--   Analyst.Executor `Remediator` of analyst/executor.py over the interface `Ingests` of the store and the
--                    stream (`Confirm`), which the view of the hot store fills (`Hot`); `Messages`, `Restore` and
--                    `Texts` prove it.
--   Analyst.Remediate  `apply_remediation` of executor.py: the executor under the step machine, where
--                    the driver may raise in any call (`Faults`).
--   Analyst.Approval analyst/approval.py; `Counted` proves it.
--   Analyst.Audit    the chain of analyst/audit.py; `Evident` proves it.
--   Evals.Gate       `evaluate` of src/resgraph/evals/gate.py; `Passes` proves it.
--   Reconcile        `compare` of src/resgraph/reconcile.py; `Agrees` proves it.
--   Tools.Budgets    src/resgraph/tools/budgets.py; `Pages` proves it.
-- The modules called Tests hold concrete runs.
--
-- Conventions. A transaction or a call that raises returns `none` or an outcome of its own, and
-- state is passed from call to call. Times are milliseconds on ℕ. Where the program compares
-- floats that it has summed or subtracted (dollars, rates of the gate), the model's are abstract
-- floats too; scores, prices and shares, which are only compared or rounded before they are
-- summed, are natural numbers in a small unit. A message's sequence is not negative, as its schema
-- demands; a watermark of -1 is `none`.
--
-- Bounds and fuel. The consumer's retry loop runs on `patience` and its halving on `depth`: the
-- theorems ask for more patience than the calls that the outage lasts plus the retries, and give
-- `_apply_batch` a depth above the number of its pairs; they show that the result is then reached.
-- The relay runs on fuel for its restarts: as many as hops that the walk has left are enough. The
-- fallback walk has fuel for the endpoints of the routed alias and for a hop to each routable endpoint,
-- and the loop that cuts a page for each item: the theorems show that this is enough.
--
-- What the parameters stand for. The database and its laws; the apply function, which the
-- consumer's theorems take to work whole or not at all and to recover from an outage (`Behaves`);
-- Redis, by the answers it gives and the deliveries it reports; SQLite and DuckDB, by the rows of
-- one table; `reopen`, the relay's callback, which is taken to only add hops and to give up at
-- some number of them; SHA-256, which the audit chain takes to have no collisions, and the spool
-- none among its batches; the ceiling of a percentile's rank, a float expression; the exceptions
-- of the graph driver under a remediation, by the calls in which they come (`Faults`), which in a
-- rollback are taken to have a text; `enrich`, the columns of a sink row; the calls of `cancel`,
-- by the value of the flag in front of each step; the store and the stream under the executor,
-- which `Ingests` takes to apply a newer message in time where nobody else writes the resource.
--
-- Not modelled: metrics, logs and sleeping; JSON and YAML; the clients of the model providers; the
-- order in which planned endpoints are tried, and the probes; the cold store and its queries, the
-- reconciliation of the ingest, the agent's harness and its prompts, the runner and the graders of
-- the evals, the sentinel, the generator, the API and the command lines.
pub mod Prelude
pub mod Schema
pub mod Graph
pub mod Consumer
pub mod Floats
pub mod Gateway
pub mod Ingest
pub mod Analyst
pub mod Evals
pub mod Tools
pub mod Reconcile
