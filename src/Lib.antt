-- ===== src/Lib.antt =====
-- The control plane of a Slurm scheduler (slurm_scheduler/*.py), which keeps allocations on a cluster
-- and starts tasks inside them.
--
-- One process keeps its state in SQLite (slurm_scheduler/db.py) and in the object `Scheduler`
-- (slurm_scheduler/scheduler.py). A tick asks Slurm about allocations and tasks, ends what is over,
-- recomputes what is free, and places queued tasks; web requests cancel tasks and close allocations
-- in between. The operations that hold `_task_assignment_lock` run one after the other.
--
-- Which file models what:
--   Models          slurm_scheduler/models.py: the statuses and the normalised spellings
--   Store           slurm_scheduler/db.py: the rows, the queries and the updates. A table is the list
--                   of its rows, newest id first, which is the order of ORDER BY id DESC
--   Config          the settings of `Scheduler.__init__` that are read
--   Inventory       slurm_scheduler/inventory.py: normalize_gpu_model, gpu_model_candidates
--   Policy          the tests of a task's and an allocation's columns in scheduler.py
--   License         the license claims, license_admission_diagnostics, _license_task_admitted_locked
--                   and aedt_pool_warm_spare_admission. Policy and Store are below it
--   Scheduler       the state, the event log, on_task_terminal; its children are the operations:
--     Close           close_allocation
--     Capacity        recalculate_allocation_capacity, of all allocations and of those given
--     JobState        _apply_allocation_state
--     Expiry          expire_pending_allocation_if_stale and the backoff tables, above Close
--     Lifecycle       apply_allocation_lifecycle, request_close_allocation, above Expiry and Close
--     Tasks           _apply_task_probe, requeues, recover_transient_states, above Lifecycle;
--                     Tasks/Cancel request_cancel_task, Tasks/Stale the stale references
--     Placement       account_supports, allocation_can_run_task, fit_slots_for_allocation and the tests
--                     below them; Placement/Reserve reserve_task_on_allocation
--     Attach          finish_reserved_task_attach, strict_node_attach_readback_error
--     Caps            project_active_cap_reason, standalone_aedt_running_cap_details
--   AedtPool        slurm_scheduler/aedt_pool.py: the pool of AEDT sessions whose slots are leased to
--                   projects. It reads the scheduler's allocations and tasks, and drains allocations.
--                   Rows the tables and the errors, Refresh and Upkeep
--                   _refresh_exact_session_reservations, Canary _refresh_mixed_canary_admissions, Compat
--                   _lease_fits_session, Placement _place_queued_leases, Solve the solve waves, Leases
--                   heartbeat_lease and accept_lease, Owners activate_lease, bind_lease_project_name and
--                   cancel_lease, Release complete_release and close_session, Faults the reports of
--                   faults, Starts claim_start and bind_session_host_task, Registering register_session, Hosts
--                   heartbeat_session and session_commands. History is the system of the steps
--   Pestat          slurm_scheduler/pestat.py: plan_dynamic_allocations
--   Retention       slurm_scheduler/retention.py: the marker paths that protect an artifact
--   WebReadGuard    slurm_scheduler/web_read_guard.py: the response cache
--   WebSupervisor   slurm_scheduler/web_supervisor.py: the gate and the loop
--   Tests           a small cluster on which the theorems are applied
--
-- How the state is written. A row is a record of the columns that are read, a status an enumeration,
-- a missing value `none`, and counts, ids and times are natural numbers: a time column and every
-- clock is the instant in seconds, read from the database's `clock`. Texts are strings, compared
-- whole, or lists of code points where the program strips, lowers or searches them; `lower` knows the
-- ASCII letters. The answers of Slurm are the record `Remote`, an argument of the operations that
-- ask. An account that the tick has given up, which raises, is the outcome `unavailable`. What is
-- handed to a background thread is a list of requests. Texts of license messages are constructors.
--
-- The pool. Its tables are lists by ascending id, its clock is the instant `now` of the transaction. An
-- operation gives the pool after its transaction, or what it raises, which leaves the pool as it was;
-- `report_project_fault` has several transactions, and gives the pool after the last that was committed
-- with what it raises. The answer that a client reads afterwards, `get_lease`, is not part of it. The
-- digest of a token and the port in an endpoint are functions, arguments of the operations. Names and
-- messages come stripped.
-- Transactions run one after the other; `heartbeat_lease` and `heartbeat_session` read and write in one.
--
-- The attach. The turns of other threads, before the node is read back, before the claim is written,
-- during the launch, and before the start is written, are functions on the database; a launch is noted
-- among the requests, and what it gives back is the client's answer. The tests of placement that look
-- at FEA pressure, storage, overlays and workers are the record `Gates`.
--
-- Bounds. The queries list at most 5000 tasks and 500 recent with 5000 live allocations, as the code
-- does, and a theorem that needs them all says so. A cancel has four rounds, as the code. Every loop is
-- by recursion on its list, but for the walk of Retention, whose fuel is the length of the path.
--
-- Not modelled: the choice of the best allocation and the order of the queue; of the pool the requests
-- for leases, the creation of reservations and admissions, `reconcile` with its planner, and the reaping
-- of dead sessions; the hosts and clients on the nodes, the relay, the texts of Slurm commands, the web
-- routes, shells and files. The ids that `pending_fea_cpu_demand_timeout_protected_allocation_ids`
-- gives, and the messages that are read from the files of a task, are arguments.
pub mod AedtPool
pub mod Prelude
pub mod Models
pub mod Retention
pub mod Store
pub mod Config
pub mod Inventory
pub mod Policy
pub mod License
pub mod Scheduler
pub mod Pestat
pub mod WebReadGuard
pub mod WebSupervisor
mod Tests
