-- ===== src/Store/Laws.antt =====
-- Reads after writes of the tables `allocations` and `tasks`.
use slurm_scheduler.Prelude.{
  ℕ, ◌≡◌, refl, some, arith, ==_refl, List, [], ◌∷◌, Bool, false, ◌&&◌, any, map, ◌==◌,
  if◌then◌else◌,
}
use slurm_scheduler.Models.{TaskStatus}
use slurm_scheduler.Store.{Allocation, Task, Db}
use slurm_scheduler.Store.Table.{get-key, get-update}
use slurm_scheduler.Store.Queries.{
  get_allocation, update_allocation, get_task, update_task, allocation_key, task_key,
}

-- A row that is there and is updated reads as updated.
pub get-update_allocation :
    (db : Db) (i : ℕ) (f : Allocation → Allocation) (a : Allocation)
    → ((r : Allocation) → (f r).id ≡ r.id)
    → get_allocation db i ≡ some a
    → get_allocation (update_allocation i f db) i ≡ some (f a)
unfolding get_allocation update_allocation
get-update_allocation db i f a same h =
    ground (arith, get-update allocation_key i i f db.allocations same, ==_refl i)

-- Other rows are left alone.
pub get-update_allocation_ne :
    (db : Db) (i j : ℕ) (f : Allocation → Allocation)
    → ((r : Allocation) → (f r).id ≡ r.id)
    → (i ≡ j → ⊥)
    → get_allocation (update_allocation i f db) j ≡ get_allocation db j
unfolding get_allocation update_allocation
get-update_allocation_ne db i j f same h =
    ground (arith, get-update allocation_key i j f db.allocations same)

pub get_allocation-id : (db : Db) (i : ℕ) (a : Allocation) → get_allocation db i ≡ some a → a.id ≡ i
unfolding get_allocation
get_allocation-id db i a h = get-key allocation_key i db.allocations h

pub get-update_task :
    (db : Db) (i : ℕ) (f : Task → Task) (t : Task)
    → ((r : Task) → (f r).id ≡ r.id)
    → get_task db i ≡ some t
    → get_task (update_task i f db) i ≡ some (f t)
unfolding get_task update_task
get-update_task db i f t same h = ground (arith, get-update task_key i i f db.tasks same, ==_refl i)

-- A conditional update that finds no row writes nothing.
pub lost-writes_nothing :
    (i : ℕ) (expected : TaskStatus → Bool) (f : Task → Task) (ts : List Task)
    → any (λ t. t.id == i && expected t.status) ts ≡ false
    → map (λ t. if t.id == i && expected t.status then f t else t) ts ≡ ts
lost-writes_nothing i expected f [] h = refl
lost-writes_nothing i expected f (t ∷ ts) h =
    let tail = lost-writes_nothing i expected f ts in ground (arith, tail)
