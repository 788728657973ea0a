-- ===== src/Scheduler/Close/States.antt =====
-- The row of an allocation after an attempt to close it.
use slurm_scheduler.Prelude.{
  ℕ, ◌≡◌, ◌≢◌, refl, ap, ◌∙◌, subst, inl, inr, arith, Bool, true, false, not, ◌&&◌, ◌||◌, and-split,
  List, Option, none, some, String, is_empty, if◌then◌else◌, format, Bool-cases, Option-cases,
}
use slurm_scheduler.Models.{AllocationStatus, warm, active, closed}
use slurm_scheduler.Config.{Config}
use slurm_scheduler.Store.{Allocation}
use slurm_scheduler.Store.Queries.{
  allocation_has_aedt_pool_claim, list_live_task_claims_for_allocation,
}
use slurm_scheduler.Policy.{allocation_is_dedicated_aedt_pool}
use slurm_scheduler.Store.Laws.{get_allocation-id}
use slurm_scheduler.Scheduler.Rows.{row, row-update, row-record_event}
use slurm_scheduler.Scheduler.{Scheduler, Remote, update_allocation}
use slurm_scheduler.Scheduler.Close.{
  Outcome, closed_it, refused, unavailable, is_ending, is_warm, reactivate, mark_closing,
  mark_closed, restore, note_failure, refuse_owned, cancel_and_close, probe_and_close, has_client,
  close_current, close_allocation,
}

-- A task that is attaching or running claims the allocation, or Slurm lists a step of a task in its job.
unfoldable pub has_owner : Remote → Scheduler → Allocation → Bool
has_owner remote s current =
    not (is_empty (list_live_task_claims_for_allocation s.db current.id))
    || has_steps (remote.live_allocation_task_steps current.slurm_job_id)
  where
    has_steps : Option (List String) → Bool
    has_steps none = false
    has_steps (some steps) = not (is_empty steps)

-- How an attempt may leave a row that was in the state `before`.
pub data Ends (owned : Bool) (before : AllocationStatus) (after : Allocation)
    : Outcome → Type 0 where
  ended : after.state ≡ closed → is_ending before ≡ false → Ends owned before after closed_it
  kept : {o : Outcome} → o ≢ closed_it → after.state ≡ before → Ends owned before after o
  reactivated :
      owned ≡ true → before ≡ warm → after.state ≡ active → Ends owned before after refused

pub record Leaves (i : ℕ) (owned : Bool) (before : AllocationStatus) (r : Scheduler × Outcome)
    : Type 0 where
  pub 0 as after : Allocation
  pub 1 : row i r.0 ≡ some after
  pub 2 : Ends owned before after r.1

module _ (owned : Bool) (current : Allocation) (s : Scheduler)
    (found : row current.id s ≡ some current) where
  refuse_owned-Leaves :
      owned ≡ true → Leaves current.id owned current.state (refuse_owned current s)
  unfolding refuse_owned
  refuse_owned-Leaves by = elim (Bool-cases (is_warm current.state)) [
    | inl e ↦ rw e (
      reactivate s.clock current,
      row-update current.id (reactivate s.clock) current s (λ r. refl) found,
      reactivated by (ground arith) refl,
    )
    | inr e ↦ rw e (current, found, kept (λ h. cc) refl)
  ]

  abbrev marked : String → Scheduler
  marked reason = update_allocation current.id (mark_closing reason) s

  row-marked :
      (reason : String) → row current.id (marked reason) ≡ some (mark_closing reason current)
  row-marked reason = row-update current.id (mark_closing reason) current s (λ r. refl) found

  cancel-Leaves :
      (reason : String) (error : Option String)
      → is_ending current.state ≡ false
      → Leaves current.id owned current.state (cancel_and_close current reason error s)
  unfolding cancel_and_close
  cancel-Leaves reason none live =
      let now = (marked reason).clock in
      (
        mark_closed now (mark_closing reason current),
        row-record_event current.id _ _ _ _ current.id _
            ∙ row-update current.id (mark_closed now) (mark_closing reason current) (marked reason)
                (λ r. refl) (row-marked reason),
        ended refl live,
      )
  cancel-Leaves reason (some exc) live = (
    restore current.state exc (mark_closing reason current),
    row-update current.id (restore current.state exc) (mark_closing reason current) (marked reason)
        (λ r. refl) (row-marked reason),
    kept (λ e. cc) refl,
  )

  probe-Leaves :
      (reason : String) (remote : Remote)
      → is_ending current.state ≡ false
      → has_owner remote s current ≡ owned
      → Leaves current.id owned current.state (probe_and_close current reason remote s)
  unfolding probe_and_close has_owner
  probe-Leaves reason remote live by =
      elim (Option-cases (remote.live_allocation_task_steps current.slurm_job_id)) [
        | inl e ↦
            rw (e, probe_and_close)
              (
                note_failure (format _) current,
                row-update current.id (note_failure (format _)) current s (λ r. refl) found,
                kept (λ h. cc) refl,
              )
        | inr (steps, e) ↦
            rw (e, probe_and_close)
              (elim (Bool-cases (is_empty steps)) [
                | inl none_left ↦
                    rw none_left
                      (cancel-Leaves reason (remote.cancel_error current.slurm_job_id) live)
                | inr some_left ↦
                    rw some_left (refuse_owned-Leaves (ground (arith, e, some_left, by)))
              ])
      ]

Leaves-if :
    (i : ℕ) (owned : Bool) (before : AllocationStatus) (b : Bool) (x y : Scheduler × Outcome)
    → (b ≡ true → Leaves i owned before x)
    → (b ≡ false → Leaves i owned before y)
    → Leaves i owned before (if b then x else y)
Leaves-if i owned before true x y p q = p refl
Leaves-if i owned before false x y p q = q refl

claimed-has_owner :
    (remote : Remote) (s : Scheduler) (current : Allocation)
    → not (is_empty (list_live_task_claims_for_allocation s.db current.id)) ≡ true
    → has_owner remote s current ≡ true
unfolding has_owner
claimed-has_owner remote s current h = ground (arith, h)

module _ (c : Config) (remote : Remote) (reason : String) (force allow_owner : Bool) where
  close_current-Leaves :
      (current : Allocation) (s : Scheduler)
      → row current.id s ≡ some current
      → Leaves current.id
          (has_owner remote s current)
          current.state
          (close_current c remote reason force allow_owner current s)
  unfolding close_current
  close_current-Leaves current s found =
      let owned = has_owner remote s current in
      let refuse = unchanged refused (λ e. cc) in
      let claims = not (is_empty (list_live_task_claims_for_allocation s.db current.id)) in
      branch (is_ending current.state) (λ e. refuse)
        (λ live.
          branch (not force && not allow_owner && allocation_is_dedicated_aedt_pool current)
            (λ e. refuse)
            (λ e1.
              branch (not force && allocation_has_aedt_pool_claim s.db current.id) (λ e. refuse)
                (λ e2.
                  branch (not force && claims)
                    (λ e.
                      refuse_owned-Leaves owned current s found
                        (claimed-has_owner remote s current (and-split (not force) claims e).1))
                    (λ e3.
                      branch (not (has_client c current))
                        (λ e. cancel-Leaves owned current s found reason none live)
                        (λ e4.
                          branch (not (remote.client current.account_name))
                            (λ e. unchanged unavailable (λ e. cc))
                            (λ e5.
                              branch force
                                (λ e.
                                  cancel-Leaves owned current s found reason
                                    (remote.cancel_error current.slurm_job_id) live)
                                (λ e.
                                  probe-Leaves owned current s found reason remote live refl)))))))
    where
      unchanged :
          (o : Outcome)
          → o ≢ closed_it
          → Leaves current.id (has_owner remote s current) current.state (s, o)
      unchanged o open_still = (current, found, kept open_still refl)

      branch :
          {x y : Scheduler × Outcome} (b : Bool)
          → (b ≡ true → Leaves current.id (has_owner remote s current) current.state x)
          → (b ≡ false → Leaves current.id (has_owner remote s current) current.state y)
          → Leaves current.id (has_owner remote s current) current.state (if b then x else y)
      branch {x} {y} b = Leaves-if current.id (has_owner remote s current) current.state b x y

  -- Whatever an attempt to close an allocation with a row meets, forced or not, the row is then closed and
  -- was not ending before, or it is in the state it was in, or it was warm and is active, and a task that
  -- is attaching or running claims it or Slurm lists a step of a task in its job.
  pub close-Leaves :
      (i : ℕ) (s : Scheduler) (current : Allocation)
      → row i s ≡ some current
      → Leaves i
          (has_owner remote s current)
          current.state
          (close_allocation c remote reason force allow_owner i s)
  unfolding close_allocation
  close-Leaves i s current found =
      let same = get_allocation-id s.db i current found in
      rw (found, close_allocation)
        (subst
          (λ j.
            Leaves j (has_owner remote s current) current.state
              (close_current c remote reason force allow_owner current s))
          same (close_current-Leaves current s (ap (λ j. row j s) same ∙ found)))
