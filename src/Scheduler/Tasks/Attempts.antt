-- ===== src/Scheduler/Tasks/Attempts.antt =====
-- A task that memory pressure takes down again and again.
use slurm_scheduler.Prelude.{
  ◌+◌, ◌≤◌, ◌<◌, ◌≡◌, refl, ◌∙◌, ap, arith, ◌⊎◌, inl, inr, none, some, leb, Bool-cases,
}
use slurm_scheduler.Models.{TaskStatus}
use slurm_scheduler.Config.{Config}
use slurm_scheduler.Store.{Task}
use slurm_scheduler.Store.Queries.{get_task}
use slurm_scheduler.Store.Queries
use slurm_scheduler.Store.Laws.{get-update_task}
use slurm_scheduler.Scheduler.{Scheduler, update_task, record_event}
use slurm_scheduler.Scheduler.Lifecycle.Failing.{on_task_terminal-db}
use slurm_scheduler.Scheduler.Tasks.{requeued, give_up, requeue_pressure_killed_task}
use slurm_scheduler.Policy.{task_requested_account_name}

-- If a task's row is as it was read, then a memory-pressure kill counts one attempt, and the row is
-- queued again, with no allocation and below the limit on attempts, or it is failed and the count has
-- reached the limit.
pub pressure_kill_counts :
    (c : Config) (t : Task) (s : Scheduler)
    → get_task s.db t.id ≡ some t
    → (after : Task) × (get_task (requeue_pressure_killed_task c t s).db t.id ≡ some after)
      × (after.attempt_count ≡ t.attempt_count + 1)
      × (((after.status ≡ TaskStatus.queued)
            × (after.allocation_id ≡ none)
            × (after.attempt_count < c.fea_pressure_max_attempts))
          ⊎ ((after.status ≡ TaskStatus.failed)
              × (c.fea_pressure_max_attempts ≤ after.attempt_count)))
unfolding requeue_pressure_killed_task update_task record_event Queries.record_event get_task
    Queries.update_task
pressure_kill_counts c t s found =
    let attempts = t.attempt_count + 1 in
    elim (Bool-cases (leb c.fea_pressure_max_attempts attempts)) [
      | inl spent ↦
          let failed = update_task t.id (give_up attempts s.clock) s in
          rw spent (
            give_up attempts s.clock t,
            ap (λ db. get_task db t.id) (on_task_terminal-db c t "failed" failed)
                ∙ get-update_task s.db t.id (give_up attempts s.clock) t (λ r. refl) found,
            refl,
            inr (refl, ground arith),
          )
      | inr left ↦ rw left (
        requeued (task_requested_account_name t) attempts t,
        get-update_task s.db t.id (requeued (task_requested_account_name t) attempts) t (λ r. refl)
            found,
        refl,
        inl (refl, refl, ground arith),
      )
    ]
