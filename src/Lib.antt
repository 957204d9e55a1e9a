-- ===== src/Lib.antt =====
-- FoamPilot runs language models against OpenFOAM: it asks a model for a case, checks the plan, runs
-- it in a sandbox or on the host, and supervises the run as a local job. This library models the parts
-- that decide: who is asked, how often, where a command may run, and what may be done with a job.
--
-- Model access, src/foampilot/models:
--   Models/Errors                errors.py, the failure kinds and one failure.
--   Models/CircuitBreaker        circuit_breaker.py: before_request, record_success, record_failure,
--                                each on the record of one key. Calls folds calls of many threads, in
--                                the order of the lock. Invariant and Cooldown hold the proofs.
--   Models/Budgets               budgets.py: the ledger of transport attempts and the windows.
--   Models/Registry              registry.py: register, _ordered, candidates.
--   Models/Gateway               gateway.py: generate_structured. State has the data, Attempt the
--                                pieces of one attempt, Steps the loop over the attempts (open_window,
--                                send, settle, react, retry, wait follow its body from top to bottom),
--                                Run the loop over the candidates. It calls the breaker and the ledger.
--
-- Execution, src/foampilot/runtime:
--   Runtime/Policy               policy.py with the contracts it reads in runtime/models.py.
--
-- Jobs, src/foampilot/jobs:
--   Jobs/Records                 models.py.
--   Jobs/Recovery                recovery.py: _run_path, _artifact_state and reconcile_job, whose
--                                branches are decide_alive, decide_finalized and so on.
--   Jobs/Worker                  worker.py and the status of store.py: the heartbeat (beat_read,
--                                beat_write), _StatusListener (listen) and the end of run_local_job
--                                (finish) as steps of one shared state, in any order.
--
-- Plans, src/foampilot/plans:
--   Plans/Validation             validation.py: validate_execution_plan, each of its ifs an issue_if,
--                                its loops each_file, each_command, each_argument and each_value.
--
-- What a run came to, and what follows:
--   Evidence/Assessment          src/foampilot/evidence/assessment.py: assess_native_run.
--   Agent/Failure                src/foampilot/agent/failure.py: classify_native_failure, each branch
--                                of its chain a rule in Rules; Contracts has its types, Validity
--                                validate_failure_classification, Hints _keyword_hints and
--                                _resolve_declared_paths. It reads an assessment and a plan.
--   Agent/Repair                 src/foampilot/agent/repair.py: should_stop_repair.
--
-- Workflow, src/foampilot/workflow:
--   Workflow/Records             models.py and events.py.
--   Workflow/Store               store.py: record (record_event), checkpoint, finish, and a store made
--                                over the files of a run (open_store). Log and Reopen have the proofs.
--   Workflow/Services            services.py: the contract of an outcome and the order of the stages.
--   Workflow/Coordinator         coordinator.py: advance (start_service, settle, cancel_before) and run
--                                (each_service, after_stage, stop_at, finalize). State has its data;
--                                Story is the specification that Refinement compares it with.
--
-- Artifacts and what reads the files of a job:
--   Artifacts/Manifest           src/foampilot/artifacts/store.py: _entries, finalize and verify.
--   Jobs/Finalization            src/foampilot/jobs/recovery.py: recover_finalize behind
--                                reconcile_job. recover_locked is what happens under the lock: a Plan,
--                                and then the writes one by one, so that a crash can come between.
--   Jobs/Termination             the same file: terminate_orphan, a wait_group_exit on fuel. Its loop
--                                sleeps 10 ms a round, so that it ends within as many rounds as the
--                                grace period has milliseconds, and one more.
--   Desktop/Cursors              src/foampilot/desktop/cursors.py: IncrementalLineCursor.read.
--
-- Acceptance, over a type of floats that is a parameter (its comparisons are those of an order, as no
-- float of the contracts is a NaN):
--   Acceptance/Conditions        src/foampilot/acceptance/models.py and evaluator.py: the conditions,
--                                _scoped_samples and _matches. An assert that fails raises.
--   Acceptance/Observations      evaluator.py: _latest_sample and the loop over the requests.
--   Acceptance/Evaluator         evaluator.py: AcceptanceEvaluator.evaluate, the loop over the
--                                conditions (judge is its body) and the verdict. Spec says
--                                what a condition asks, without this code. The digests of the report
--                                are left out.
--
-- Prelude has the shared types and lemmas: results of code that raises, Python's dict, pure paths, and
-- texts (splitlines; casefold and lower, as far as the comparison with ASCII texts can tell).
--
-- Choices. Times are milliseconds in natural numbers and never negative; a difference of two times
-- stops at 0 where the code compares it with 0. Objects that the code shares (breaker, ledger, trace)
-- are passed on as state. The clock, sleep, the transport and the check against the response schema
-- are an environment, whose world they may change as they like. The loop over the attempts at one
-- candidate has max_transport_attempts rounds: each round that goes on has raised the counter of the
-- attempts by one, and the loop ends when the counter reaches that number. The loop over the
-- candidates is structural.
--
-- Not modelled: files, processes, HTTP and printing; the activity reporter of the gateway and its
-- cancellation; the texts for the user; the contracts that only hold fields; and the parts of the
-- program that no module above names.
pub mod Prelude
pub mod Plans
pub mod Evidence
pub mod Agent
pub mod Models
pub mod Runtime
pub mod Workflow
pub mod Artifacts
pub mod Acceptance
pub mod Desktop
pub mod Jobs
