-- ===== src/Scheduler/Expiry/Backoff.antt =====
-- How long a resource pool that is set to back off waits.
use slurm_scheduler.Prelude.{
  ℕ, ◌≡◌, refl, arith, some, List, [], ◌∷◌, String, str_eq, eq_iff, ltb, if◌then◌else◌,
}
use slurm_scheduler.Scheduler.{Scheduler}
use slurm_scheduler.Config.{Config}
use slurm_scheduler.Scheduler.Expiry.{set_until, until_of, allocation_pool_in_backoff}

until_of-set_until :
    (c : Config) (pool asked : String) (until : ℕ) (table : List (String × ℕ))
    → until_of (str_eq asked) (set_until c str_eq pool until table)
      ≡ (if str_eq asked pool then some until else until_of (str_eq asked) table)
until_of-set_until c pool asked until [] = refl
until_of-set_until c pool asked until ((k, u) ∷ rest) = ground (
  arith,
  until_of-set_until c pool asked until rest,
  eq_iff asked pool,
  eq_iff pool k,
  eq_iff asked k,
)

-- After a pool is set to back off until some time, the pool waits exactly before that time, and every
-- other pool waits or not as it did.
pub backs_off_until :
    (c : Config) (s : Scheduler) (pool asked : String) (until : ℕ)
    → (allocation_pool_in_backoff asked
        (record s { pool_backoff = set_until c str_eq pool until s.pool_backoff })).1
      ≡ (if str_eq asked pool then ltb s.clock until else (allocation_pool_in_backoff asked s).1)
unfolding allocation_pool_in_backoff
backs_off_until c s pool asked until =
    ground (arith, until_of-set_until c pool asked until s.pool_backoff)
