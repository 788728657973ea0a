-- ===== src/Scheduler/Placement/Reserve/Fits.antt =====
-- What a reservation that is granted guarantees about the place.
use slurm_scheduler.Prelude.{
  ℕ, and-split, ◌+◌, ◌-◌, ◌≤◌, ◌≡◌, refl, ◌∙◌, ap, arith, Bool, true, false, not, ◌&&◌, ◌||◌,
  Option, some, is_some, List, [], ◌∷◌, String, ◌==◌, leb, ltb, map, any, if◌then◌else◌, Bool-cases,
  ◌⊎◌, inl, inr, ==_refl,
}
use slurm_scheduler.Config.{Account, Config}
use slurm_scheduler.Store.{Allocation, Task, Db}
use slurm_scheduler.Store.Table.{get, get-key}
use slurm_scheduler.Store.Queries.{get_task, get_allocation, task_key, claims_allocation}
use slurm_scheduler.Policy.{
  borrowable_cpus, task_is_fea_bursty, task_requires_gpu, task_scheduling_profile,
  task_can_relax_preferred_node, task_can_overlap_same_node_allocation,
}
use slurm_scheduler.Scheduler.{Scheduler}
use slurm_scheduler.Scheduler.Capacity.Sums.{claimed, reserves}
use slurm_scheduler.Scheduler.Tasks.Stale.{is_queued}
use slurm_scheduler.Scheduler.Placement.{
  Gates, allocation_can_run_task, allocation_gpu_matches_task, standard_fits,
  allocation_matches_task_constraints,
}
use slurm_scheduler.Scheduler.Placement.Reserve.{
  reserve_task_on_allocation, claimed_by, validation_task,
}
use slurm_scheduler.Scheduler.Placement.Reserve.Granting.{HasUniqueIds, checks, reserve-Granted}

-- The claims on an allocation after one queued row becomes a claim on it.
claims-absent :
    (f : Task → Task) (i : ℕ) (p : Task → Bool) (j : ℕ) (amount : Task → ℕ) (rs : List Task)
    → any (λ x. x.id == i) rs ≡ false
    → claimed j amount (map (λ r. if r.id == i && p r then f r else r) rs) ≡ claimed j amount rs
claims-absent f i p j amount [] h = refl
claims-absent f i p j amount (r ∷ rs) h = ground (arith, claims-absent f i p j amount rs)

queued_claims_nothing :
    (i : ℕ) (t : Task) → is_queued t.status ≡ true → claims_allocation i t ≡ false
queued_claims_nothing i t h = ground arith

claims-after :
    (f : Task → Task) (j : ℕ) (amount : Task → ℕ) (t : Task) (rs : List Task)
    → HasUniqueIds rs
    → get task_key t.id rs ≡ some t
    → is_queued t.status ≡ true
    → claims_allocation j (f t) ≡ true
    → claimed j amount (map (λ r. if r.id == t.id && is_queued r.status then f r else r) rs)
      ≡ claimed j amount rs + amount (f t)
unfolding get
claims-after f j amount t [] unique found free claims = cc
claims-after f j amount t (r ∷ rs) unique found free claims = elim (Bool-cases (r.id == t.id)) [
  | inl own ↦
      let same : r ≡ t = ground (arith, own) in
      ground (
        arith,
        own,
        same,
        claims-absent f t.id (λ x. is_queued x.status) j amount rs,
        unique.0,
        queued_claims_nothing j t free,
      )
  | inr other ↦ ground (arith, other, claims-after f j amount t rs unique.1)
]

last-holds : (x p q : Bool) → (not x || (p && q)) ≡ true → (x ≡ false) ⊎ (q ≡ true)
last-holds true p q h = inr (and-split p q h).1
last-holds false p q h = inl refl

gpu-room :
    (a : Allocation) (t : Task) → allocation_gpu_matches_task a t ≡ true → t.gpus ≤ a.free_gpus
unfolding allocation_gpu_matches_task task_requires_gpu
gpu-room a t h = elim (last-holds (ltb 0 t.gpus) _ (leb t.gpus a.free_gpus) h) [
  | inl none_asked ↦ ground arith
  | inr enough ↦ ground arith
]

borrowable-le : (c : Config) (a : Allocation) → borrowable_cpus c a ≤ a.free_cpus
unfolding borrowable_cpus
borrowable-le c a = ground arith

overlap-alone :
    (db : Db) (a : Allocation) (t : Task)
    → t.same_node_as_task_id ≡ 0
    → task_can_overlap_same_node_allocation db a t false ≡ false
unfolding task_can_overlap_same_node_allocation
overlap-alone db a t alone = rw alone refl

-- A task that is not tied to another one's node has to fit in what is free.
standard_fits-room :
    (c : Config) (gates : Gates) (db : Db) (a : Allocation) (t : Task)
    → standard_fits c gates db a t false ≡ true
    → t.same_node_as_task_id ≡ 0
    → (t.cpus ≤ a.free_cpus) × (t.memory_mb ≤ a.free_memory_mb) × (t.gpus ≤ a.free_gpus)
unfolding task_requires_gpu
standard_fits-room c gates db a t ok alone =
    ground (arith, overlap-alone db a t alone, borrowable-le c a, gpu-room a t)

can_run-room :
    (c : Config) (gates : Gates) (db : Db) (a : Allocation) (t : Task)
    → allocation_can_run_task c gates db a t false ≡ true
    → task_is_fea_bursty t ≡ false
    → t.same_node_as_task_id ≡ 0
    → (t.cpus ≤ a.free_cpus) × (t.memory_mb ≤ a.free_memory_mb) × (t.gpus ≤ a.free_gpus)
unfolding allocation_can_run_task
can_run-room c gates db a t ok standard alone =
    standard_fits-room c gates db a t
      (rw standard at (and-split (allocation_matches_task_constraints c gates db a t false) _ ok).1)
      alone

validation-standard :
    (c : Config) (a : Allocation) (t : Task)
    → task_is_fea_bursty t ≡ false
    → validation_task c a t ≡ t
unfolding validation_task task_can_relax_preferred_node
validation-standard c a t standard = ground (arith, standard)

-- The claims on an allocation stay within what it has; FEA tasks claim GPUs only.
abbrev pub IsWithin : Allocation → Db → Type 0
IsWithin a db =
    (claimed a.id (reserves λ t. t.cpus) db.tasks ≤ a.total_cpus)
    × (claimed a.id (reserves λ t. t.memory_mb) db.tasks ≤ a.total_memory_mb)
    × (claimed a.id (λ t. t.gpus) db.tasks ≤ a.total_gpus)

-- The row's free columns are what the claims on it leave, as a recalculation sets them.
abbrev pub IsCurrent : Allocation → Db → Type 0
IsCurrent a db =
    (a.free_cpus ≡ a.total_cpus - claimed a.id (reserves λ t. t.cpus) db.tasks)
    × (a.free_memory_mb ≡ a.total_memory_mb - claimed a.id (reserves λ t. t.memory_mb) db.tasks)
    × (a.free_gpus ≡ a.total_gpus - claimed a.id (λ t. t.gpus) db.tasks)

get_task-id :
    (db : Db) (i : ℕ) (t : Task) → get_task db i ≡ some t → get task_key t.id db.tasks ≡ some t
unfolding get_task
get_task-id db i t h = ap (λ j. get task_key j db.tasks) (get-key task_key i db.tasks h) ∙ h

claim-reserves :
    (now : ℕ) (a : Allocation) (attach_token : String) (amount : Task → ℕ) (t : Task)
    → amount (claimed_by now a attach_token t) ≡ amount t
    → task_is_fea_bursty t ≡ false
    → reserves amount (claimed_by now a attach_token t) ≡ amount t
unfolding task_is_fea_bursty task_scheduling_profile
claim-reserves now a attach_token amount t same standard = rw standard same

module _ (c : Config) (gates : Gates) (attach_token : String) (account : Account)
    (task_id allocation_id : ℕ) (s : Scheduler) (a : Allocation) (t : Task) where
  abbrev pub reserved : Scheduler × Option Task
  reserved = reserve_task_on_allocation c gates attach_token task_id allocation_id account s

  -- If no two task rows have one id, the free columns of an allocation's row are what the claims on
  -- it leave, and these claims are within what the allocation has, then after a standard task that is
  -- not tied to another one's node is given a place on it the claims are still within what it has:
  -- cpus, memory and GPUs.
  pub reserve_never_overbooks :
      get_allocation s.db allocation_id ≡ some a
      → get_task s.db task_id ≡ some t
      → HasUniqueIds s.db.tasks
      → task_is_fea_bursty t ≡ false
      → t.same_node_as_task_id ≡ 0
      → IsCurrent a s.db
      → IsWithin a s.db
      → is_some reserved.1 ≡ true
      → IsWithin a reserved.0.db
  reserve_never_overbooks row task unique standard alone current within granted =
      let g =
        reserve-Granted c gates attach_token a t account task_id allocation_id s row task granted in
      let (free, ok) = checks c gates attach_token a t s.db g.own g.checked in
      let room =
        can_run-room c gates s.db a t (rw (validation-standard c a t standard) at ok) standard
          alone in
      let stored = get_task-id s.db task_id t task in
      let after = λ (amount : Task → ℕ).
        claims-after (claimed_by s.clock a attach_token) a.id amount t s.db.tasks unique stored free
          (ground (arith, ==_refl a.id)) in
      rw g.tasks (
        omega (
          arith,
          after (reserves λ u. u.cpus),
          claim-reserves s.clock a attach_token (λ u. u.cpus) t refl standard,
          room.0,
          current.0,
          within.0,
        ),
        omega (
          arith,
          after (reserves λ u. u.memory_mb),
          claim-reserves s.clock a attach_token (λ u. u.memory_mb) t refl standard,
          room.1,
          current.1,
          within.1,
        ),
        omega (arith, after (λ u. u.gpus), room.2, current.2, within.2),
      )
