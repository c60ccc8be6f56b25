-- ===== src/Lib.antt =====
-- A verification library of the evaluation pipeline of spikes/schema-generalization-evaluation, of
-- the BigQuery calls of spikes/report-generation that it makes, and of the pull request policy of
-- scripts.
--
-- The program turns each planned run of an evaluation into a recording: it discovers the scope,
-- generates an analysis contract, plans, generates SQL, validates it, inspects it by a dry run,
-- executes it, validates the result and renders it. Every paid call passes a budget gate.
--
-- Budget models execution_budget.py: Amount is `_amount` and `BudgetLimits`, Gate is `BudgetGate`
-- with its reservations, as functions on a record of the state. A `Decimal` is its sign,
-- coefficient and exponent; an accepted amount is a natural number of micro-JPY. The methods run
-- under a lock, so Trace takes a run of the gate as a list of calls. The digits of a coefficient are
-- counted on fuel equal to the coefficient, which has no more digits than that.
--
-- Diagnostic models sql_diagnostic.py of spikes/report-generation; Outcome models run_outcome.py,
-- and Outcome/Diagnosed models recorded_diagnostic.py: the recorded run and its validators.
--
-- Pipeline models the stages: Attempts has the record of each, Stages is preflight.py,
-- manifest_planning.py and manifest_sql_generation.py, Validation is manifest_sql_validation.py,
-- Inspection is manifest_dry_run.py and manifest_execution.py, and Run is
-- manifest_result_validation.py and manifest_rendering.py. Recording has the recording methods of
-- all of them, Artifacts is one round of `build_manifest_artifacts` of manifest_artifacts.py, Collection
-- the whole of it, and Measured is `_measure_attempt`.
-- What the stages call of spikes/report-generation is the record of Boundary, with one value for
-- one planned run, and with the exceptions that the stages let through: of the section, of the
-- contract's context and policy, and of the planner, the SQL role, its price table and the renderer. The
-- scope discovery and the contract generation raise only what preflight.py catches. The conditions
-- on a boundary that a theorem uses are the fields of `IsLawful`.
-- Sound has the invariant that the stages carry from one to the next.
--
-- BigQuery models bigquery_execution.py of spikes/report-generation: Scan and Replace are its regular
-- expressions, Validation is `validate_sql_diagnostic`, DryRun is `_inspect_bq_dry_run` and Execution
-- is `_execute_bq` with its polling loop. Tokens and Contract are `contract_sql_diagnostic` of
-- contract_sql_validation.py, which reads SQL by a tokenizer of regular expressions; Words says
-- where a keyword stands in a text. Validation takes the check of the contract as an argument;
-- Lawful gives it `contract_sql_diagnostic` and puts the calls in the place of the boundary's, so
-- that `IsLawful` is no condition there. The loop runs on fuel: 900 rounds of 0.2 seconds reach its
-- deadline of 180 seconds. Parameters are the client with its jobs, the clock, which characters
-- beyond ASCII `\w` takes, `str.casefold` and `str.upper`. The messages for display are left out.
--
-- Spending models vertex_budget.py, bigquery_budget.py and their adapters: Pricing is `pricing_for` of
-- manifest_runtime_meter.py, Ceilings are the reservations, Vertex and QueryJob are the clients that
-- hold them on the gate of Budget. A `BudgetError` of an adapter is the gate's `operation_error`. The
-- arithmetic is exact, as the 384 digits of the program's decimal context are for rates of at most
-- 150 digits before and after the point; a longer sum the program rounds before it rounds up. `urlsplit`, `Decimal` of a text
-- and `float` are parameters.
--
-- Meter models the rest of manifest_runtime_meter.py: Ledger is `_RunLedger`, Run has the measured
-- clients and `RuntimeMeter`. A measured run is the sequence of its calls with what the clients
-- answer; it may swallow what they raise. The float arithmetic of `cost_jpy` is a parameter.
--
-- Evaluation models evaluate.py and evaluation_capabilities.py on a bundle whose fields have their
-- types: Validation has the tests before the scoring, Summary the scores and Reports the reports that accept or refuse
-- a bundle. A rate is in millionths, rounded from the exact fraction to the nearest, and to the even
-- one of two; the program rounds the float quotient, which is another only where the fraction lies
-- halfway and is no float, and that takes a total that 640 divides. An error's message is not kept.
--
-- PullRequest models scripts/pr_size_policy.py: the counts of lockfiles and the size levels.
--
-- A cost is a natural number in a unit that divides every finite float, so that a comparison with
-- zero is exact; a row is its canonical JSON text. Not modelled are the validation of the manifest,
-- the copies through JSON, the calls of the stages for one run after the other, the analysis contract,
-- files and prompts.
pub mod Prelude
pub mod Text
pub mod BigQuery
pub mod Budget
pub mod Diagnostic
pub mod Outcome
pub mod Pipeline
pub mod Spending
pub mod Meter
pub mod Evaluation
pub mod PullRequest
