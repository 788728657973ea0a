-- ===== src/Scheduler/Close/Forced.antt =====
-- What a forced attempt to close that is refused does to the marker of the AEDT pool.
use slurm_scheduler.Prelude.{
  ℕ, ◌≡◌, refl, ◌∙◌, ap, subst, Bool, true, false, not, Option, none, some, String, codes,
  starts_with, arith, if◌then◌else◌,
}
use slurm_scheduler.Config.{Config}
use slurm_scheduler.Store.{Allocation}
use slurm_scheduler.Store.Laws.{get_allocation-id}
use slurm_scheduler.Policy.{allocation_is_dedicated_aedt_pool}
use slurm_scheduler.Scheduler.Rows.{row, row-update}
use slurm_scheduler.Scheduler.{Scheduler, Remote, update_allocation}
use slurm_scheduler.Scheduler.Close.{
  Outcome, refused, is_ending, mark_closing, restore, cancel_and_close, has_client, close_current,
  close_allocation,
}

-- If the attempt is refused, the row is back in its state, and is dedicated to the pool if the reason of
-- the attempt begins as the pool's reasons do, whatever it was before.
Forgets : ℕ → Allocation → String → Scheduler × Outcome → Type 0
Forgets i current reason r =
    r.1 ≡ refused
    → (after : Allocation) × (row i r.0 ≡ some after)
      × (after.state ≡ current.state)
      × (allocation_is_dedicated_aedt_pool after ≡ starts_with (codes reason) (codes "AEDT pool"))

Forgets-if :
    (i : ℕ) (current : Allocation) (reason : String) (b : Bool) (x y : Scheduler × Outcome)
    → (b ≡ true → Forgets i current reason x)
    → (b ≡ false → Forgets i current reason y)
    → Forgets i current reason (if b then x else y)
Forgets-if i current reason true x y f g = f refl
Forgets-if i current reason false x y f g = g refl

cancel-Forgets :
    (current : Allocation) (s : Scheduler) (reason : String) (error : Option String)
    → row current.id s ≡ some current
    → Forgets current.id current reason (cancel_and_close current reason error s)
unfolding Forgets cancel_and_close allocation_is_dedicated_aedt_pool
cancel-Forgets current s reason none found h = cc
cancel-Forgets current s reason (some exc) found h =
    let closing = mark_closing reason current in
    (
      restore current.state exc closing,
      row-update current.id (restore current.state exc) closing
          (update_allocation current.id (mark_closing reason) s) (λ r. refl)
          (row-update current.id (mark_closing reason) current s (λ r. refl) found),
      refl,
      refl,
    )

module _ (c : Config) (remote : Remote) (reason : String) (allow_owner : Bool) where
  current-Forgets :
      (current : Allocation) (s : Scheduler)
      → row current.id s ≡ some current
      → is_ending current.state ≡ false
      → Forgets current.id current reason (close_current c remote reason true allow_owner current s)
  unfolding close_current Forgets
  current-Forgets current s found live =
      let step = Forgets-if current.id current reason in
      step (is_ending current.state) _ _ (λ e h. absurd (ground (arith, e, live)))
        (λ e.
          step (not (has_client c current)) _ _ (λ e1. cancel-Forgets current s reason none found)
            (λ e1.
              step (not (remote.client current.account_name)) _ _ (λ e2 h. cc)
                (λ e2.
                  cancel-Forgets current s reason (remote.cancel_error current.slurm_job_id)
                    found)))

  -- A forced attempt to close a row that is not ending, if it is refused, puts the row back in the state it
  -- had, but the row then counts as dedicated to the AEDT pool by the reason of the attempt alone: a
  -- dedicated allocation is an ordinary one afterwards, unless that reason begins with "AEDT pool".
  pub refused_force_forgets_pool :
      (i : ℕ) (s : Scheduler) (current : Allocation)
      → row i s ≡ some current
      → is_ending current.state ≡ false
      → (close_allocation c remote reason true allow_owner i s).1 ≡ refused
      → (after : Allocation) × (row i (close_allocation c remote reason true allow_owner i s).0
          ≡ some after)
        × (after.state ≡ current.state)
        × (allocation_is_dedicated_aedt_pool after ≡ starts_with (codes reason) (codes "AEDT pool"))
  unfolding close_allocation Forgets
  refused_force_forgets_pool i s current found live =
      let same = get_allocation-id s.db i current found in
      rw (found, close_allocation)
        (subst
          (λ j. Forgets j current reason (close_current c remote reason true allow_owner current s))
          same (current-Forgets current s (ap (λ j. row j s) same ∙ found) live))
