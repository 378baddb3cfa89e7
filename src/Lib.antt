-- ===== src/Lib.antt =====
-- aa-sifter, the Python program of sifter/: one compute interface over a local model and an expert in
-- the cloud, with a human who decides what is major. This library models its core under
-- sifter/src/aa_sifter/, and the contracts of contracts/python/, and states what makes it correct.
--
-- The parts, and how they work together. A run (app.py) classifies its prompt (decisions/), asks the human
-- where the level requires it, assesses the task and chooses a route (routing/), calls the models of
-- that route within a budget (routing/budget.py), verifies the answer, and escalates a failure.
-- - Models: models/provider.py (`Tier`, `Message`, `GenerationResult`, `provider_for`), models/config.py
--   (`SifterConfig`, `_enforce_safety` as `enforce_safety`, `estimate_cost`), model_defaults.py.
-- - Decisions: decisions/classifier.py (Level, Patterns with each regular expression, Signals,
--   Classifier), decisions/approval.py (Approval/Types, Input for `parse_decision_input`, Auto for
--   `AutoApprovalProvider`), decisions/policy.py (Rules, Rules/Metadata), decisions/gate.py (Gate).
-- - Routing: routing/preflight.py (Preflight, and Preflight/Merge for `merge_assessment`),
--   routing/policy.py (Policy), routing/budget.py (Budget), routing/escalation.py (Escalation).
-- - Context: context/compression.py (Compression), context/handoff.py (Redaction), context/packet.py
--   (Packet).
-- - Metrics: metrics/usage.py.
-- - App: app.py. App/State has the state of a run, which is the budget, the two usage records, the
--   approvals and the events, newest first: each call of a model, each question with its answer, each
--   verification. The providers, the human and the verifier are the `World` of a run: functions of the
--   events so far. App/Exec is the monad of methods that change this state and may raise
--   `BudgetExceeded` or `ProviderError`; App/Calls has `_call_tier`, App/Decision
--   `_handle_major_decision`, App/Route `_execute_route`, App/Failure `_escalate_after_failure`,
--   App/Run `_run_impl` and `_finish`, App/Generate `generate`. App/Guard walks through them once for any
--   invariant, which App/Consent, App/Confinement and App/Spending use; App/Exec/Costs counts calls for
--   App/Attempts.
-- - Catalog: catalog/ (the models' metadata, their keys and filters).
-- - Config: config/. Config/Schema and Config/Defaults have the records, Config/Profiles the operations on
--   profiles (Change for `set_tier` and `update_profile`, Kept and Session for sequences of operations),
--   Config/Resolve `resolve_config` (Cloud for what its result allows), Config/Validation
--   `validate_profile`, Config/Store `parse_application_config`, `migrate` and `load_runtime_config`,
--   Config/Toml the printer of the file, which Toml/Reading reads back. A run takes the configuration that
--   these resolve.
-- - Rpc: rpc/envelope.py, contracts.py (`make_route_response`) and rpc/service.py, whose methods use the
--   classifier, the assessment, the policies and `generate` of the other parts.
-- - Contracts: contracts/python/aa_contracts/v1.py, `validate` on JSON values (Json) with the patterns of its
--   fields (Fields), the checks of each kind (Kinds) and the tables and workflows (V1).
-- - Desktop: desktop/service.py. Desktop/Record has `TaskRecord`, Desktop/Task the parts of a task's
--   coroutine from one `await` to the next, Task/Steps the steps that a task may take, with the callbacks, those
--   for a cancellation among them, which the event loop runs in their order, and Desktop/Service the calls of
--   clients. That a task which is cancelled before its first step does not run at all is allowed, as asyncio says.
-- - Tasks: tasks/task.py, tasks/graph.py (`TaskGraph` as the list of its tasks) and tasks/executor.py
--   (`TaskExecutor`, whose worker is a function of the task).
-- - Prelude: texts, lists, tests, Python's `re` for the patterns at hand, floats. Examples: the theorems at
--   concrete inputs.
--
-- Bounds and fuel. The retries of a local route recur on the number of attempts that are left. The loop of
-- `fit_messages` has the total of the tokens as its fuel, since a round that goes on lowers this total by
-- at least one. An execution of tasks has rounds, of which one more than there are open tasks is enough.
-- A topological order has one level of recursion more than there are tasks, since the
-- tasks that are open are different ones. `str` of a number has one round more than the number's value.
--
-- What is simplified. A text is a native string; letters fold and white space counts as in ASCII. Floats are an
-- interface (`Float`), and a theorem that needs their order names it (`IsOrdered`). Whole numbers of
-- the configuration are natural numbers. The time of the clock is an argument of what reads it, and
-- free-form options of a model are left out. The limits of a profile may be below zero, which `validate_profile`
-- refuses, but a run takes such a limit as 0. An infinite number in the model's answer to the assessment is a
-- field that `merge_assessment` does not take, where Python raises OverflowError. The reader of quoted texts knows
-- the basic strings of one line, and none with three quotes.
--
-- What is not modelled: the trace, progress events, cancellation, the memory candidate and the history
-- rows, which only report; free-form metadata; the cost waiver that standing rules derive, which is an
-- argument of a run; the descendants in a task graph, and the semaphores of
-- its execution; decomposition; the writing of the configuration file, and `tomllib`, which is an argument;
-- the threads, the server and the launcher of the desktop; the contracts as text and their static shapes, the
-- check of a contract being an argument of the service; the recommender and the command line; the verifier and the providers, which are input and output; the modules in Go.
pub mod Prelude
pub mod Models
pub mod Decisions
pub mod Routing
pub mod Context
pub mod Metrics
pub mod Tasks
pub mod Contracts
pub mod Rpc
pub mod Desktop
pub mod App
pub mod Examples
pub mod Catalog
pub mod Config
