-- ===== src/Lib.antt =====
-- The control plane of an Oracle patching service: the Python application of webapp/, which plans,
-- hands out and records patch tasks that bash programs of bin/ execute on the database hosts.
--
-- The parts and their files:
--   * Queue (webapp/agent_queue.py): the durable work queue that pull agents claim sealed tasks from.
--     Queue/Store has the job record, the directory of jobs (`Queue`) and the reads and writes;
--     Queue/Claim has `_expire`, `claim`, `_owned` and `list_jobs`; Queue/Lease `extend_lease`,
--     `defer_pending`, `require_reconciliation` and `complete`; Queue/Publish `publish_task` and
--     `publish_plan_tasks`; Queue/Reconcile `reconcile`. An operation is an action of Exec: from a
--     queue to a value or an error and the queue that it leaves. What holds a file lock is one step;
--     between the two locked sections of `defer_pending`, `complete` and `reconcile` the others
--     change the queue by any function, the argument `between`.
--   * Enroll (webapp/agent_enroll.py): the registry of agents, which the queue asks in
--     `_require_enrollment`; the state is the registry file.
--   * Adapters (webapp/adapters.py): the table of executors that a published task must name.
--   * Auth (webapp/auth.py): Auth/Registry has the principal registry, when it is in force and
--     `_load_entries`; Auth has `extract_bearer`, `ensure_token`, `require_api_auth`, `load_principals`
--     and `require_role`. Auth/Access and Auth/Roles are proofs; `permissions` of Auth/Roles says anew, role by
--     role, what the table of actions says action by action.
--   * Itsm (webapp/itsm.py): the change-ticket registry and `validate_ticket`.
--   * Production (webapp/production.py): the certificate and `require_live_mutation_allowed`.
--   * Runner (webapp/pipeline_runner.py): the run engine, in memory and on disk: `start_run` with its
--     worker thread as the steps `begin`, `log`, `set_execution_context` and `settle`, `get_run`,
--     `reconcile_run` and the restart of a controller. One controller is modelled at a time.
--   * Plan (webapp/planctl.py): Plan/Nodes has the hosts that a plan's nodes are executed on, as
--     hosts.json gives them; Plan/Execute `execute_next_task` and `execute_remaining_tasks`;
--     Plan/Poll the poll loop of a detached execution and Plan/Detached `reconcile_detached_run`, which
--     reads a launch context of the shape that the launch wrote. The plan tool, ssh and the executors
--     are arguments, which may also raise what the except clause does not catch (`uncaught`); Plan/Verified
--     and Plan/Wired are proofs.
--   * Remote (webapp/remote.py): Remote/Quote has the words of a command line, `shlex.quote` and what a
--     shell makes of them; Remote/Run the `run_remote` functions, `push_file` and `pull_file`;
--     Remote/Hosts `host_ips` and `reachable_from`; Remote/Transfer `pipe_remote` and
--     `direct_transfer`, from its checks to the `finally` block. Remote/Bounds and Remote/Withdrawn are
--     proofs.
--   * World: what the steps of a pipeline share: the evidence files, the ssh calls made so far, and the
--     tool trees verified. Evidence/Store and Evidence/Snapshots (webapp/evidence.py) read and write
--     those files; Tools/Local (webapp/localtools.py) runs a program of bin/ over them; Tools/
--     Fingerprint, Install and Sync (webapp/tools_sync.py) bring the programs to a host.
--   * Phases (webapp/discovery_phases.py): Phases/Values has the values of a document as Python
--     compares and prints them; the other modules have the phases of a host's discovery, their roll-up
--     and `derive_discovery_phases`; Phases/Rollup and Phases/Passed are proofs.
--   * Pipeline (webapp/pipeline_steps.py): Pipeline/Targets, Collect, Compat and Refresh have the steps
--     of the evidence chain, which use all four parts above; Pipeline/Chain the readiness chain that
--     runs them in order; Pipeline/Owner, Media, StageNodes and Stage the staging of media on the nodes of a host;
--     Pipeline/Overview what an operator is shown. The other modules are proofs on what a step
--     reads and leaves in the store, whether it returns or raises.
--   * Prelude, Exec and Json: tests, lists, text predicates (the regular expressions of the source
--     written out), Python's dict, actions that may raise with the rules to prove what they meet,
--     and JSON values with `get`, `isinstance` and truth.
--
-- Parameters of the model: the clock (`now` and `later`, the two readings that a call can take), the
-- environment's texts, `secrets.token_urlsafe`, `hashlib.sha256` and the output of
-- bin/opu-patch-plan, all fields of `Env`; for the pipeline also what an ssh process does, as a
-- function of the calls made before it, what a local program returns, as a function of the files it
-- is given, ssh-keygen (whose public key ends in the comment it is given,
-- where a theorem says so), `json.loads`, `int` of a text, the UUID (its hex form has letters and digits only), the tarball, `repr`, whether a write
-- succeeds and where a directory resolves. A refused lock, an `OSError` of a write in the registries, the queue
-- and the run engine (but for the last one of a worker thread), a failing unlink and a crash inside a
-- locked section are not modelled, nor are the times in the reports of a chain and the log lines.
-- A process that a signal ends has some nonzero code. Seconds are natural numbers: a negative number
-- of seconds fails the range test as 0 does. Numbers that JSON reads as floats keep a sign, a whole
-- part and whether there is a fraction; a float equals no key of the dictionaries in
-- Pipeline/Refresh and Pipeline/Owner. `.lower()` acts on ASCII, which decides the words that the source compares with.
-- Loops are structural recursion on lists, or on the number of rounds that the source allows
-- (`max_tasks`); the printing of a number n in decimal has fuel n + 1, and each digit makes n
-- smaller.
--
-- Not modelled: the HTTP server, notifications, the agent's worker loop, recovery control,
-- procedure hints, the fixtures of the test mode, and the bash programs, which a parameter stands for
-- where they are called.
pub mod Prelude
pub mod Exec
pub mod Json
pub mod Adapters
pub mod Enroll
pub mod Queue
pub mod Auth
pub mod Evidence
pub mod Itsm
pub mod Phases
pub mod Pipeline
pub mod Plan
pub mod Production
pub mod Remote
pub mod Runner
pub mod Tools
pub mod World
