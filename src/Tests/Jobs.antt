-- ===== src/Tests/Jobs.antt =====
-- Tasks: the races of a cancel, the failing of the tasks of an allocation, and a limit.
use slurm_scheduler.Prelude.{
  ℕ, ◌≤◌, ◌≡◌, refl, arith, some, none, [], ◌∷◌, Option, keep, ◌+◌, ◌<◌, ◌⊎◌,
}
use slurm_scheduler.Models.{TaskStatus, queued, running, failed}
use slurm_scheduler.Store.{Task, Db}
use slurm_scheduler.Store.Queries.{
  get_task, update_task, update_task_if_status, list_live_task_claims_for_allocation,
}
use slurm_scheduler.Scheduler.{Scheduler}
use slurm_scheduler.Scheduler.Tasks.Cancel.{cancel_rounds, request_cancel_task}
use slurm_scheduler.Scheduler.Tasks.Race.{replay, Won, cancels_only_wanted, kept_writes_nothing}
use slurm_scheduler.Scheduler.Tasks.{recover_transient_states, requeue_pressure_killed_task}
use slurm_scheduler.Scheduler.Tasks.Recovery.{launched, recovery_keeps_launched}
use slurm_scheduler.Scheduler.Tasks.Attempts.{pressure_kill_counts}
use slurm_scheduler.Scheduler.Tasks.Stale.{is_queued}
use slurm_scheduler.Scheduler.Lifecycle.{fail_running_tasks}
use slurm_scheduler.Scheduler.Lifecycle.Failing.{fail_running_tasks-frees}
use slurm_scheduler.Scheduler.Caps.{standalone_aedt_running_cap_details}
use slurm_scheduler.Scheduler.Caps.Limits.{with_row, start_within_limit}
use slurm_scheduler.Tests.{config, task, scheduler_of}

abbrev waiting : Scheduler
waiting = scheduler_of [] (task 7 queued "fea_bursty" none ∷ [])

-- Another thread starts the task in the turn before the write of the first round.
abbrev starts_it : ℕ → Db → Db
starts_it n db = update_task 7 (λ t. record t { status = running }) db

abbrev nothing : ℕ → Db → Db
nothing n db = db

cancels_only_wanted_example :
    (k : ℕ) × Won config is_queued nothing 7 4 k queued waiting
      (request_cancel_task config is_queued nothing 7 waiting)
unfolding request_cancel_task cancel_rounds update_task_if_status get_task
    slurm_scheduler.Store.Table.get
cancels_only_wanted_example = cancels_only_wanted config is_queued nothing 7 waiting queued refl

kept_writes_nothing_example :
    (k : ℕ) × (k ≤ 4)
    × ((request_cancel_task config is_queued starts_it 7 waiting).0
        ≡ record waiting { db = replay config is_queued starts_it 7 k 4 waiting.db })
unfolding request_cancel_task cancel_rounds update_task_if_status get_task update_task
    slurm_scheduler.Store.Table.get slurm_scheduler.Store.Table.update
kept_writes_nothing_example =
    kept_writes_nothing config is_queued starts_it 7 waiting (λ status h. cc)

abbrev busy : Scheduler
busy = scheduler_of [] (
    task 9 running "standard" (some 3)
    ∷ task 8 running "fea_bursty" (some 4)
    ∷ task 7 queued "standard" none
    ∷ [])

fail_running_tasks-frees_example :
    list_live_task_claims_for_allocation (fail_running_tasks config 3 "lost" busy).db 3 ≡ []
fail_running_tasks-frees_example = fail_running_tasks-frees config 3 "lost" busy (omega arith)

abbrev active_one : Task
active_one = task 8 running "fea_bursty" (some 4)

abbrev next_one : TaskStatus → Task
next_one status = task 9 status "fea_bursty" none

start_within_limit_example :
    let before =
      with_row waiting.db []
        (active_one ∷ [])
        (next_one queued)
        (next_one running)
        (next_one queued) in
    let after =
      with_row waiting.db []
        (active_one ∷ [])
        (next_one queued)
        (next_one running)
        (next_one running) in
    let details = standalone_aedt_running_cap_details config after (next_one queued) in
    (details.active ≤ details.limit)
    × (details.limit ≡ (standalone_aedt_running_cap_details config before (next_one queued)).limit)
unfolding slurm_scheduler.Policy.task_is_fea_infra slurm_scheduler.Policy.task_is_fea_bursty
    slurm_scheduler.Models.normalize_scheduling_profile
    slurm_scheduler.Scheduler.Caps.standalone_aedt_running_cap_reached
start_within_limit_example =
    start_within_limit waiting.db [] (active_one ∷ []) (next_one queued) (next_one running) config
      (next_one queued) (unfold standalone_aedt_running_cap_details in refl) refl

abbrev attaching_with : ℕ → Option ℕ → Task
attaching_with i launch = record (task i TaskStatus.attaching "fea_bursty" (some 3)) {
  attach_token = "t";
  launch_started_at = launch;
}

abbrev crashed : Scheduler
crashed = scheduler_of [] (attaching_with 8 (some 900) ∷ attaching_with 7 none ∷ [])

recovery_keeps_launched_example :
    keep launched (recover_transient_states config crashed).db.tasks
    ≡ keep launched crashed.db.tasks
recovery_keeps_launched_example = recovery_keeps_launched config crashed

pressure_kill_counts_example :
    (after : Task) × (get_task
        (requeue_pressure_killed_task config (task 8 running "fea_bursty" (some 4)) busy).db
        8
      ≡ some after)
    × (after.attempt_count ≡ 0 + 1)
    × (((after.status ≡ queued) × (after.allocation_id ≡ none) × (after.attempt_count < 3))
        ⊎ ((after.status ≡ failed) × (3 ≤ after.attempt_count)))
unfolding get_task slurm_scheduler.Store.Table.get
pressure_kill_counts_example =
    pressure_kill_counts config (task 8 running "fea_bursty" (some 4)) busy refl
