-- ===== src/Scheduler/Rows.antt =====
-- The row of one allocation, before and after the writes of the scheduler.
use slurm_scheduler.Prelude.{ℕ, ◌≡◌, ◌≢◌, refl, Option, some, String}
use slurm_scheduler.Store.{Allocation}
use slurm_scheduler.Store.Queries.{get_allocation}
use slurm_scheduler.Store.Queries
use slurm_scheduler.Store.Laws.{get-update_allocation, get-update_allocation_ne}
use slurm_scheduler.Scheduler.{Scheduler, update_allocation, record_event}

abbrev pub row : ℕ → Scheduler → Option Allocation
row i s = get_allocation s.db i

pub row-update :
    (i : ℕ) (f : Allocation → Allocation) (a : Allocation) (s : Scheduler)
    → ((r : Allocation) → (f r).id ≡ r.id)
    → row i s ≡ some a
    → row i (update_allocation i f s) ≡ some (f a)
unfolding update_allocation
row-update i f a s same h = get-update_allocation s.db i f a same h

pub row-record_event :
    (i : ℕ) (kind message entity_type account : String) (e : ℕ) (s : Scheduler)
    → row i (record_event kind message entity_type e account s) ≡ row i s
unfolding record_event get_allocation Queries.record_event
row-record_event i kind message entity_type account e s = refl

pub row-update_ne :
    (i j : ℕ) (f : Allocation → Allocation) (s : Scheduler)
    → ((r : Allocation) → (f r).id ≡ r.id)
    → i ≢ j
    → row j (update_allocation i f s) ≡ row j s
unfolding update_allocation
row-update_ne i j f s same h = get-update_allocation_ne s.db i j f same h
