-- ===== src/Scheduler/Placement/Reserve/Strict.antt =====
-- Where a task with a strict node contract is placed.
use slurm_scheduler.Prelude.{
  ℕ, and-split, ◌≡◌, arith, Bool, true, false, ◌&&◌, ◌||◌, some, is_some, String, str_eq, eq_iff,
}
use slurm_scheduler.Config.{Account, Config}
use slurm_scheduler.Store.{Allocation, Task, Db}
use slurm_scheduler.Store.Queries.{get_task, get_allocation}
use slurm_scheduler.Policy.{
  task_has_strict_node_contract, task_can_relax_preferred_node, task_node_name_policy,
}
use slurm_scheduler.Scheduler.{Scheduler}
use slurm_scheduler.Scheduler.Placement.{
  Gates, allocation_can_run_task, allocation_matches_task_constraints, place_matches,
  partition_spec_allows,
}
use slurm_scheduler.Scheduler.Placement.Reserve.{validation_task, reserve_task_on_allocation}
use slurm_scheduler.Scheduler.Placement.Reserve.Granting.{reserve-Granted, checks}

strict-validation :
    (c : Config) (a : Allocation) (t : Task)
    → task_has_strict_node_contract t ≡ true
    → validation_task c a t ≡ t
unfolding validation_task task_can_relax_preferred_node task_node_name_policy
    task_has_strict_node_contract
strict-validation c a t contract = ground (arith, contract)

last-and : (x y : Bool) → (x && y) ≡ true → y ≡ true
last-and x y h = (and-split x y h).1

constraints-place :
    (c : Config) (gates : Gates) (db : Db) (a : Allocation) (t : Task)
    → allocation_matches_task_constraints c gates db a t false ≡ true
    → place_matches c gates db a t ≡ true
unfolding allocation_matches_task_constraints
constraints-place c gates db a t h = last-and _ (place_matches c gates db a t) h

last-or : (x y z : Bool) → (x && (y || z)) ≡ true → y ≡ false → z ≡ true
last-or true true z h named = cc
last-or true false z h named = h
last-or false y z h named = cc

place-node :
    (c : Config) (gates : Gates) (db : Db) (a : Allocation) (t : Task)
    → place_matches c gates db a t ≡ true
    → str_eq t.node_name "" ≡ false
    → a.node_name ≡ t.node_name
place-node c gates db a t h named = (eq_iff a.node_name t.node_name).0 (
    last-or
      (str_eq t.partition ""
        || str_eq t.partition "auto"
        || partition_spec_allows t.partition a.partition)
      (str_eq t.node_name "") (str_eq a.node_name t.node_name) h named)

-- A task with a strict node contract that names a node is given a place on no other node.
pub strict_gets_its_node :
    (c : Config) (gates : Gates) (attach_token : String) (account : Account)
    (task_id allocation_id : ℕ) (s : Scheduler) (a : Allocation) (t : Task)
    → get_allocation s.db allocation_id ≡ some a
    → get_task s.db task_id ≡ some t
    → task_has_strict_node_contract t ≡ true
    → str_eq t.node_name "" ≡ false
    → is_some (reserve_task_on_allocation c gates attach_token task_id allocation_id account s).1
      ≡ true
    → a.node_name ≡ t.node_name
unfolding allocation_can_run_task
strict_gets_its_node c gates attach_token account task_id allocation_id s a t row task contract
      named granted =
    let g =
      reserve-Granted c gates attach_token a t account task_id allocation_id s row task granted in
    let (free, ok) = checks c gates attach_token a t s.db g.own g.checked in
    let runs = rw (strict-validation c a t contract) at ok in
    place-node c gates s.db a t
      (constraints-place c gates s.db a t
        (and-split (allocation_matches_task_constraints c gates s.db a t false) _ runs).0)
      named
