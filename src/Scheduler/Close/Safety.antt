-- ===== src/Scheduler/Close/Safety.antt =====
-- What has to hold for an allocation to be closed, and what a close does to its row.
use slurm_scheduler.Prelude.{
  ℕ, ◌≡◌, ◌⊎◌, inl, inr, arith, Bool, true, false, some, [], String, is_empty, Option-cases,
}
use slurm_scheduler.Config.{Config}
use slurm_scheduler.Store.{Allocation}
use slurm_scheduler.Store.Queries.{
  get_allocation, allocation_has_aedt_pool_claim, list_live_task_claims_for_allocation,
}
use slurm_scheduler.Policy.{allocation_is_dedicated_aedt_pool}
use slurm_scheduler.Scheduler.{Scheduler, Remote}
use slurm_scheduler.Scheduler.Close.{
  closed_it, is_ending, has_client, close_current, close_allocation,
}

-- Why the close of `current` may end in `closed_it` when it is not forced.
pub record IsFree (c : Config) (remote : Remote) (allow_owner : Bool) (s : Scheduler)
    (current : Allocation) : Type 0 where
  pub live : is_ending current.state ≡ false
  pub no_task : is_empty (list_live_task_claims_for_allocation s.db current.id) ≡ true
  pub no_session : allocation_has_aedt_pool_claim s.db current.id ≡ false
  pub not_dedicated : (allow_owner ≡ true) ⊎ (allocation_is_dedicated_aedt_pool current ≡ false)
  pub no_step :
      (has_client c current ≡ false)
      ⊎ (remote.live_allocation_task_steps current.slurm_job_id ≡ some [])

close_current-IsFree :
    (c : Config) (remote : Remote) (reason : String) (allow_owner : Bool) (current : Allocation)
    (s : Scheduler)
    → (close_current c remote reason false allow_owner current s).1 ≡ closed_it
    → IsFree c remote allow_owner s current
unfolding close_current
close_current-IsFree c remote reason allow_owner current s h = record {
  live = ground arith;
  no_task = ground arith;
  no_session = ground arith;
  not_dedicated = ground arith;
  no_step = ground arith;
}

-- An allocation that is closed without force had a row that was not ending, no live task claim, no
-- counted AEDT session, was not dedicated to the AEDT pool unless its owner asked, and, where
-- Slurm can be asked for it, no live step.
pub close-IsFree :
    (c : Config) (remote : Remote) (reason : String) (allow_owner : Bool) (i : ℕ) (s : Scheduler)
    → (close_allocation c remote reason false allow_owner i s).1 ≡ closed_it
    → (current : Allocation) × (get_allocation s.db i ≡ some current)
      × IsFree c remote allow_owner s current
unfolding close_allocation
close-IsFree c remote reason allow_owner i s h = elim (Option-cases (get_allocation s.db i)) [
  | inl e ↦ absurd (cc (rw (e, close_allocation) at h))
  | inr (current, e) ↦ (
    current,
    e,
    close_current-IsFree c remote reason allow_owner current s (rw (e, close_allocation) at h),
  )
]
