-- ===== src/Scheduler/Caps/Limits.antt =====
-- A start that the standalone AEDT limit lets through stays within it.
use slurm_scheduler.Prelude.{
  ◌+◌, ◌≡◌, ◌≤◌, arith, Bool, false, List, [], ◌∷◌, ◌++◌, Text, codes, length, keep, strip, ◌==◌,
  Bool-cases, inl, inr,
}
use slurm_scheduler.Config.{Config, Lane}
use slurm_scheduler.Store.{Task, Db}
use slurm_scheduler.License.{project_name}
use slurm_scheduler.Scheduler.Caps.{
  counts_in_scope, count_active_standalone_fea_tasks_by_scope, lane_or_project, in_lane,
  standalone_aedt_running_cap_details, standalone_aedt_running_cap_reached,
}

-- Changing one row changes a count by one at most.
length-keep-change :
    (p : Task → Bool) (xs ys : List Task) (old new : Task)
    → length (keep p (xs ++ new ∷ ys)) ≤ length (keep p (xs ++ old ∷ ys)) + 1
length-keep-change p [] ys old new = ground arith
length-keep-change p (x ∷ xs) ys old new = ground (arith, length-keep-change p xs ys old new)

module _ (db : Db) (xs ys : List Task) (old new : Task) where
  abbrev pub with_row : Task → Db
  with_row t = record db { tasks = xs ++ t ∷ ys }

  count-change :
      (project prefix : Text)
      → count_active_standalone_fea_tasks_by_scope (with_row new) project prefix
        ≤ count_active_standalone_fea_tasks_by_scope (with_row old) project prefix + 1
  unfolding count_active_standalone_fea_tasks_by_scope
  count-change project prefix =
      ground (arith, length-keep-change (counts_in_scope (strip project) prefix) xs ys old new)

  lanes-change :
      (c : Config) (t : Task) (lanes : List Lane)
      → let before = lane_or_project c (with_row old) t lanes in
        let after = lane_or_project c (with_row new) t lanes in
        (after.active ≤ before.active + 1) × (after.limit ≡ before.limit)
  lanes-change c t [] = ground (arith, count-change (project_name t) [])
  lanes-change c t (lane ∷ rest) = elim (Bool-cases (in_lane t lane)) [
    | inl here ↦ ground (arith, here, count-change (project_name t) (codes lane.name_prefix))
    | inr other ↦ ground (arith, other, lanes-change c t rest)
  ]

  details-change :
      (c : Config) (t : Task)
      → let before = standalone_aedt_running_cap_details c (with_row old) t in
        let after = standalone_aedt_running_cap_details c (with_row new) t in
        (after.active ≤ before.active + 1) × (after.limit ≡ before.limit)
  unfolding standalone_aedt_running_cap_details
  details-change c t = ground (arith, lanes-change c t c.standalone_aedt_running_lanes)

  -- If the standalone AEDT limit of a task is above 0 and is not reached, then after one row of the
  -- tasks is replaced by any other, as the start of the task does, the tasks that count are within
  -- that limit, which is the same.
  pub start_within_limit :
      (c : Config) (t : Task)
      → ((standalone_aedt_running_cap_details c (with_row old) t).limit == 0) ≡ false
      → standalone_aedt_running_cap_reached c (with_row old) t ≡ false
      → let after = standalone_aedt_running_cap_details c (with_row new) t in
        (after.active ≤ after.limit)
        × (after.limit ≡ (standalone_aedt_running_cap_details c (with_row old) t).limit)
  unfolding standalone_aedt_running_cap_reached
  start_within_limit c t some_limit open_still = ground (arith, details-change c t)
