-- ===== src/Scheduler/Expiry.antt =====
-- Pending allocations that Slurm does not start in time: the exemptions, the retry of pinned warm
-- pools, and the backoff of a resource pool or a node.
pub mod Backoff
use slurm_scheduler.Prelude.{
  ℕ, zero, suc, ◌+◌, ◌-◌, min, max, Bool, true, false, not, ◌&&◌, ◌||◌, Option, none, some, or_else,
  List, [], ◌∷◌, String, Text, codes, text_eq, strip, lower, contains, is_blank, ltb, leb, ◌==◌,
  str_eq, mem_nat, show, format, keep, if◌then◌else◌,
}
use slurm_scheduler.Models.{AllocationStatus, fea_bursty, standard}
use slurm_scheduler.Config.{Config}
use slurm_scheduler.Store.{Allocation}
use slurm_scheduler.Inventory.{normalize_gpu_model}
use slurm_scheduler.Policy.{
  allocation_is_dedicated_aedt_pool, allocation_demand_profile, protected_gpu_warm_pool,
}
use slurm_scheduler.Scheduler.{Scheduler, Remote}
use slurm_scheduler.Scheduler.Close.{Outcome, refused, unavailable, close_allocation}

-- `(reason or "").strip().lower()`
abbrev normalized : String → Text
normalized reason = lower (strip (codes reason))

unfoldable pub pending_reason_is_priority : String → Bool
unfolding strip lower
pending_reason_is_priority reason =
    text_eq (normalized reason) (codes "priority")
    || text_eq (normalized reason) (codes "(priority)")

abbrev pub pool_of : Allocation → String
pool_of a = if str_eq a.resource_pool "" then "cpu" else a.resource_pool

abbrev is_fea_demand : Allocation → Bool
is_fea_demand a = elim (allocation_demand_profile a) [
  | none ↦ false
  | some p ↦ (elim p [ standard ↦ false | fea_bursty ↦ true ])
]

abbrev is_pending : AllocationStatus → Bool
is_pending AllocationStatus.pending = true
is_pending _ = false

-- A clock that moves back gives a negative age, which passes no limit above 0.
unfoldable pub stale_priority_fea_cpu_demand_allocation : Config → Allocation → ℕ → Bool
unfolding pending_reason_is_priority
stale_priority_fea_cpu_demand_allocation c a now =
    is_pending a.state
    && str_eq (pool_of a) "cpu"
    && is_fea_demand a
    && pending_reason_is_priority a.pending_reason
    && (elim (or_else a.submitted_at a.created_at) [
      | none ↦ false
      | some at ↦ leb (at + c.allocation_pending_timeout_seconds) now
    ])

module _ (c : Config) where
  -- The ids of pending rows whose place in the queue a current task still needs are given.
  unfoldable pub pending_allocation_timeout_exempt : Allocation → String → List ℕ → Bool
  unfolding pending_reason_is_priority contains strip lower
  pending_allocation_timeout_exempt a reason protected =
      (pending_reason_is_priority reason
        && str_eq (pool_of a) "cpu"
        && is_fea_demand a
        && mem_nat a.id protected)
      || (contains (normalized reason) (codes "priority")
          && text_eq (normalize_gpu_model (codes a.gpu_model)) (codes "a6000")
          && str_eq a.resource_pool "gpu:a6000"
          && leb (max 1 c.gpu_prewarm_gpus_per_allocation) a.total_gpus
          && contains (lower (codes a.drain_reason)) (codes "warm pool"))

  -- The table of backoffs, by `table[key] = until`.
  abbrev pub set_until {ℓ} : {K : Type ℓ} → (K → K → Bool) → K → ℕ → List (K × ℕ) → List (K × ℕ)
  set_until same key until [] = (key, until) ∷ []
  set_until same key until ((k, u) ∷ rest) =
      let more = set_until same key until rest in
      if same key k then (k, until) ∷ rest else (k, u) ∷ more

  abbrev pub same_node : String × Text → String × Text → Bool
  same_node (p, n) (q, m) = str_eq p q && text_eq n m

  unfoldable pub retry_pinned_gpu_warm_allocation :
      Remote → Allocation → ℕ → String → Scheduler → Option (Scheduler × Outcome)
  unfolding protected_gpu_warm_pool
  retry_pinned_gpu_warm_allocation remote a age reason s =
      if c.gpu_prewarm_pinned_pending_timeout_seconds == 0
        || ltb age c.gpu_prewarm_pinned_pending_timeout_seconds
        || not (protected_gpu_warm_pool a)
        || is_blank a.node_name
      then none
      else some (
          close_allocation c remote
            (format ("pinned warm pool retry after " ∷ show age ∷ "s: " ∷ reason ∷ [])) false false
            a.id
            (record s {
              node_backoff =
                  set_until same_node (pool_of a, strip (codes a.node_name))
                    (s.clock
                      + max c.gpu_prewarm_pinned_pending_timeout_seconds
                          (min c.allocation_pending_backoff_seconds 1800))
                    s.node_backoff;
            }))

  abbrev pub reason_of : Allocation → String
  reason_of a =
      if str_eq a.pending_reason "" then "unknown Slurm pending reason" else a.pending_reason

  abbrev pub back_off : Allocation → Scheduler → Scheduler
  back_off a s =
      if not (str_eq (pool_of a) "cpu")
        || not (contains (normalized (reason_of a)) (codes "priority"))
      then record s {
        pool_backoff =
            set_until str_eq (pool_of a) (s.clock + c.allocation_pending_backoff_seconds)
              s.pool_backoff;
      }
      else s

  abbrev expire_at : Remote → List ℕ → Allocation → ℕ → Scheduler → Scheduler × Outcome
  expire_at remote protected a age s =
      elim (retry_pinned_gpu_warm_allocation remote a age (reason_of a) s) [
        | some retried ↦ (retried.0, (elim retried.1 [ unavailable ↦ unavailable | _ ↦ refused ]))
        | none ↦
            if ltb age c.allocation_pending_timeout_seconds
              || pending_allocation_timeout_exempt a (reason_of a) protected
            then (s, refused)
            else close_allocation c remote
                (format ("pending timeout after " ∷ show age ∷ "s: " ∷ reason_of a ∷ [])) false
                false a.id (back_off a s)
      ]

  -- A request from the future has an age below 0 in the source, which passes no limit above 0; both
  -- limits are above 0 where the age is read, so 0 serves.
  unfoldable pub expire_pending_allocation_if_stale :
      Remote → List ℕ → Allocation → Scheduler → Scheduler × Outcome
  unfolding retry_pinned_gpu_warm_allocation
  expire_pending_allocation_if_stale remote protected a s =
      if c.allocation_pending_timeout_seconds == 0 || allocation_is_dedicated_aedt_pool a
      then (s, refused)
      else (elim (or_else a.submitted_at a.created_at) [
        | none ↦ (s, refused)
        | some at ↦ expire_at remote protected a (s.clock - at) s
      ])

-- A backoff that is over leaves the table.
abbrev drop_key {ℓ} : {K : Type ℓ} → (K → Bool) → List (K × ℕ) → List (K × ℕ)
drop_key is_key = keep λ (k, u). not (is_key k)

abbrev pub until_of {ℓ} : {K : Type ℓ} → (K → Bool) → List (K × ℕ) → Option ℕ
until_of is_key [] = none
until_of is_key ((k, u) ∷ rest) = if is_key k then some u else until_of is_key rest

abbrev in_backoff {ℓ} : {K : Type ℓ} → (K → Bool) → ℕ → List (K × ℕ) → List (K × ℕ) × Bool
in_backoff is_key now table = elim (until_of is_key table) [
  | none ↦ (table, false)
  | some zero ↦ (table, false)
  | some (suc n) ↦ if leb (suc n) now then (drop_key is_key table, false) else (table, true)
]

unfoldable pub allocation_pool_in_backoff : String → Scheduler → Scheduler × Bool
allocation_pool_in_backoff pool s =
    let (table, waits) = in_backoff (str_eq pool) s.clock s.pool_backoff in
    (record s { pool_backoff = table }, waits)

unfoldable pub allocation_node_in_backoff : String → String → Scheduler → Scheduler × Bool
allocation_node_in_backoff pool node s =
    let (table, waits) =
      in_backoff
        (λ (p, n). str_eq (if str_eq pool "" then "cpu" else pool) p && text_eq (codes node) n)
        s.clock s.node_backoff in
    (record s { node_backoff = table }, waits)
