-- ===== src/Scheduler/Capacity/Listed.antt =====
-- Which rows and claims the queries of a recalculation bring.
use mathlib.Core.List.{reverse, reverse-cons}
use slurm_scheduler.Prelude.{
  ℕ, ◌+◌, ◌≤◌, ◌≡◌, refl, ◌∙◌, ap, inl, inr, arith, Bool, true, ◌||◌, some, List, [], ◌∷◌, ◌++◌,
  ◌==◌, keep, take-all, any, All, length, map, mem_nat, ==_iff, Bool-cases,
}
use slurm_scheduler.Store.{Allocation, Task, Db}
use slurm_scheduler.Store.Table
use slurm_scheduler.Store.Queries.{
  get_allocation, allocation_key, is_live_state, claims_allocation, is_active_status,
  list_allocations_with_live,
}
use slurm_scheduler.Scheduler.Capacity.Sums.{claimed}

pub All-keep {ℓ κ} :
    {A : Type ℓ} (P : A → Type κ) (p : A → Bool) (xs : List A) → All P xs → All P (keep p xs)
All-keep P p [] all = tt
All-keep P p (x ∷ xs) (this, all) = elim (Bool-cases (p x)) [
  | inl e ↦ rw e (this, All-keep P p xs all)
  | inr e ↦ rw e (All-keep P p xs all)
]

get-any :
    (i : ℕ) (rs : List Allocation) (a : Allocation)
    → Table.get allocation_key i rs ≡ some a
    → any (λ r. r.id == i) rs ≡ true
unfolding Table.get
get-any i [] a h = cc
get-any i (r ∷ rs) a h = ground (arith, get-any i rs a)

get-live :
    (i : ℕ) (rs : List Allocation) (a : Allocation)
    → Table.get allocation_key i rs ≡ some a
    → is_live_state a.state ≡ true
    → mem_nat i (map allocation_key (keep (λ r. is_live_state r.state) rs)) ≡ true
unfolding Table.get
get-live i [] a h live = cc
get-live i (r ∷ rs) a h live = ground (arith, get-live i rs a)

any-listed :
    (i : ℕ) (recent live : List ℕ) (rs : List Allocation)
    → mem_nat i live ≡ true
    → any (λ r. r.id == i) rs ≡ true
    → any (λ r. r.id == i) (keep (λ r. mem_nat r.id recent || mem_nat r.id live) rs) ≡ true
any-listed i recent live [] m h = cc
any-listed i recent live (r ∷ rs) m h = elim (Bool-cases (r.id == i)) [
  | inl same ↦ rw (ap (λ j. mem_nat j live) ((==_iff r.id i).0 same) ∙ m) (ground (arith, same))
  | inr other ↦ ground (arith, any-listed i recent live rs m)
]

-- While the live rows are no more than the query's limit, a live row is listed.
pub live-listed :
    (db : Db) (i : ℕ) (a : Allocation)
    → get_allocation db i ≡ some a
    → is_live_state a.state ≡ true
    → length (keep (λ r. is_live_state r.state) db.allocations) ≤ 5000
    → any (λ r. r.id == i) (list_allocations_with_live db 500 5000) ≡ true
unfolding get_allocation list_allocations_with_live
live-listed db i a found live few =
    rw (take-all 5000 (keep (λ r. is_live_state r.state) db.allocations) few) (
      any-listed i _ _ db.allocations (get-live i db.allocations a found live)
        (get-any i db.allocations a found))

module _ (i : ℕ) (amount : Task → ℕ) where
  pub claimed-append :
      (xs ys : List Task) → claimed i amount (xs ++ ys) ≡ claimed i amount xs + claimed i amount ys
  claimed-append [] ys = omega arith
  claimed-append (x ∷ xs) ys = omega (arith, claimed-append xs ys)

  claimed-reverse : (xs : List Task) → claimed i amount (reverse xs) ≡ claimed i amount xs
  claimed-reverse [] = refl
  claimed-reverse (x ∷ xs) = omega (
    arith,
    ap (claimed i amount) (reverse-cons x xs),
    claimed-append (reverse xs) (x ∷ []),
    claimed-reverse xs,
  )

  pub claimed-active :
      (ts : List Task)
      → claimed i amount (keep (λ t. is_active_status t.status) ts) ≡ claimed i amount ts
  claimed-active [] = refl
  claimed-active (t ∷ ts) = ground (arith, claimed-active ts)

  claimed-own :
      (ts : List Task) → claimed i amount (keep (claims_allocation i) ts) ≡ claimed i amount ts
  claimed-own [] = refl
  claimed-own (t ∷ ts) = ground (arith, claimed-own ts)

  pub claimed-scoped :
      (ts : List Task)
      → claimed i amount (reverse (keep (claims_allocation i) ts) ++ []) ≡ claimed i amount ts
  claimed-scoped ts = omega (
    arith,
    claimed-append (reverse (keep (claims_allocation i) ts)) [],
    claimed-reverse (keep (claims_allocation i) ts),
    claimed-own ts,
  )
