-- ===== src/Scheduler/Placement/Reserve/Granting.antt =====
-- What a reservation that is granted saw of the tables, and what it wrote.
use slurm_scheduler.Prelude.{
  ℕ, ◌≡◌, refl, ◌∙◌, arith, Bool, true, false, not, ◌&&◌, Option, none, some, is_some, List, [],
  ◌∷◌, String, ◌==◌, map, any, if◌then◌else◌, Bool-cases, inl, inr,
}
use slurm_scheduler.Config.{Account, Config}
use slurm_scheduler.Store.{Allocation, Task, Db}
use slurm_scheduler.Store.Queries.{
  get_task, get_allocation, task_key, update_task_if_status, is_active_status, claims_allocation,
  is_at,
}
use slurm_scheduler.Store.Queries
use slurm_scheduler.Policy.{is_pooled}
use slurm_scheduler.License.{Reason, LicenseState}
use slurm_scheduler.License.Admission.{license_task_admitted}
use slurm_scheduler.Scheduler.{Scheduler}
use slurm_scheduler.Scheduler.Capacity.{
  recalculate_scoped, CapacityRow, update_allocation_capacities, recompute, scoped_tasks,
  scoped_rows, sorted_ids, capacity_rows, collect,
}
use slurm_scheduler.Scheduler.Tasks.Stale.{is_queued}
use slurm_scheduler.Scheduler.Placement.{Gates, allocation_can_run_task}
use slurm_scheduler.Scheduler.Placement.Reserve.{
  is_reservable, claim_row, finish_claim, claim_admitted, reserve_checked, account_of,
  reserve_task_on_allocation, claimed_by, validation_task,
}

-- The primary key: no id stands in two rows.
abbrev pub HasUniqueIds : List Task → Type 0
HasUniqueIds [] = Unit
HasUniqueIds (r ∷ rs) = (any (λ x. x.id == r.id) rs ≡ false) × HasUniqueIds rs

-- What a granted reservation saw and wrote.
pub record Granted (c : Config) (gates : Gates) (attach_token : String) (a : Allocation) (t : Task)
    (s after : Scheduler) : Type 0 where
  pub own : Account
  pub checked : is_reservable c gates s.db own a t ≡ true
  pub tasks :
      after.db.tasks
      ≡ map
          (λ r.
            if r.id == t.id && is_queued r.status then claimed_by s.clock a attach_token r else r)
          s.db.tasks

capacities-tasks :
    (rows : List CapacityRow) (db : Db) → (update_allocation_capacities rows db).tasks ≡ db.tasks
unfolding update_allocation_capacities Queries.update_allocation
capacities-tasks [] db = refl
capacities-tasks (r ∷ rs) db = capacities-tasks rs _

recompute-tasks :
    (tasks : List Task) (rows : List Allocation) (db : Db)
    → (recompute tasks rows db).tasks ≡ db.tasks
recompute-tasks tasks rows db = capacities-tasks (capacity_rows (collect tasks []) rows) db

recalculated-tasks : (ids : List ℕ) (db : Db) → (recalculate_scoped ids db).tasks ≡ db.tasks
unfolding recalculate_scoped
recalculated-tasks ids db =
    recompute-tasks (scoped_tasks db (sorted_ids ids)) (scoped_rows db (sorted_ids ids)) db

module _ (c : Config) (gates : Gates) (attach_token : String) (a : Allocation) (t : Task) where
  claimed-Granted :
      (own : Account) (s x : Scheduler) (r : Db × Bool)
      → is_reservable c gates s.db own a t ≡ true
      → (r.1 ≡ true
          → r.0.tasks
            ≡ map
                (λ u.
                  if u.id == t.id && is_queued u.status
                  then claimed_by s.clock a attach_token u
                  else u)
                s.db.tasks)
      → is_some (finish_claim c gates attach_token own a t x r).1 ≡ true
      → Granted c gates attach_token a t s (finish_claim c gates attach_token own a t x r).0
  claimed-Granted own s x (db, false) checked written h = cc
  claimed-Granted own s x (db, true) checked written h = record {
    own = own;
    checked = checked;
    tasks = recalculated-tasks (a.id ∷ []) db ∙ written refl;
  }

  claim_row-tasks :
      (db : Db)
      → (claim_row c gates attach_token a t db).1 ≡ true
      → (claim_row c gates attach_token a t db).0.tasks
        ≡ map
            (λ u.
              if u.id == t.id && is_queued u.status
              then claimed_by db.clock a attach_token u
              else u)
            db.tasks
  unfolding update_task_if_status
  claim_row-tasks db h =
      elim (Bool-cases (is_pooled t.aedt_backend && not (gates.pooled_has_room db t a))) [
        | inl full ↦ absurd (cc (rw full at h))
        | inr room ↦ rw room refl
      ]

  admitted-Granted :
      (own : Account) (s : Scheduler) (answer : LicenseState × Bool × Option Reason)
      → is_reservable c gates s.db own a t ≡ true
      → is_some (claim_admitted c gates attach_token own a t s answer).1 ≡ true
      → Granted c gates attach_token a t s (claim_admitted c gates attach_token own a t s answer).0
  admitted-Granted own s (license, false, reason) checked h = cc
  admitted-Granted own s (license, true, reason) checked h =
      claimed-Granted own s (record s { license = license })
        (claim_row c gates attach_token a t s.db) checked (claim_row-tasks s.db) h

  checked-Granted :
      (s : Scheduler) (own : Option Account)
      → is_some (reserve_checked c gates attach_token s a t own).1 ≡ true
      → Granted c gates attach_token a t s (reserve_checked c gates attach_token s a t own).0
  checked-Granted s none h = cc
  checked-Granted s (some own) h = elim (Bool-cases (is_reservable c gates s.db own a t)) [
    | inl ok ↦ rw ok (
        admitted-Granted own s (license_task_admitted c.license s.license s.clock t) ok
          (rw ok at h))
    | inr refused ↦ absurd (cc (rw refused at h))
  ]

  pub reserve-Granted :
      (account : Account) (task_id allocation_id : ℕ) (s : Scheduler)
      → get_allocation s.db allocation_id ≡ some a
      → get_task s.db task_id ≡ some t
      → is_some (reserve_task_on_allocation c gates attach_token task_id allocation_id account s).1
        ≡ true
      → Granted c gates attach_token a t s
          (reserve_task_on_allocation c gates attach_token task_id allocation_id account s).0
  unfolding reserve_task_on_allocation
  reserve-Granted account task_id allocation_id s row task h =
      rw (row, task) (checked-Granted s (account_of c account a) (rw (row, task) at h))

  pub checks :
      (db : Db) (own : Account)
      → is_reservable c gates db own a t ≡ true
      → (is_queued t.status ≡ true)
        × (allocation_can_run_task c gates db a (validation_task c a t) false ≡ true)
  unfolding is_reservable
  checks db own h = ground arith
