-- ===== src/Scheduler/Lifecycle/Failing.antt =====
-- After the tasks of an allocation are failed, no task claims it.
use slurm_scheduler.Prelude.{
  ℕ, ◌≡◌, refl, ap, sym, subst, arith, ◌⊎◌, inl, inr, ◌≤◌, Bool, true, false, ◌&&◌, ◌||◌, List, [],
  ◌∷◌, String, Text, All, keep, length, take-all, ◌==◌, if◌then◌else◌, Bool-cases, is_some,
}
use mathlib.Core.List.{reverse}
use slurm_scheduler.Config.{Config}
use slurm_scheduler.Store.{Task}
use slurm_scheduler.Store.Table.{update}
use slurm_scheduler.Store.Queries.{
  claims_allocation, is_active_status, is_at, task_key, list_tasks_by_statuses,
  list_live_task_claims_for_allocation,
}
use slurm_scheduler.Store.Queries
use slurm_scheduler.Policy.{account_by_name, is_pooled}
use slurm_scheduler.Scheduler.{
  Scheduler, update_task, on_task_terminal, cleanup_globs_of, workdir_request,
}
use slurm_scheduler.Scheduler.Lifecycle.{fail_task, fail_each, fail_running_tasks}

-- The end of a task does not write to the database.
workdir_request-db :
    (t : Task) (state : String) (globs : List Text) (known : Bool) (s : Scheduler)
    → (workdir_request t state globs known s).db ≡ s.db
workdir_request-db t state [] known s = refl
workdir_request-db t state (g ∷ gs) known s = ground arith

pub on_task_terminal-db :
    (c : Config) (t : Task) (state : String) (s : Scheduler)
    → (on_task_terminal c t state s).db ≡ s.db
unfolding on_task_terminal
on_task_terminal-db c t state s = elim (Bool-cases (is_pooled t.aedt_backend)) [
  | inl e ↦ rw e (
      workdir_request-db t state (cleanup_globs_of t) (is_some (account_by_name c t.account_name))
        _)
  | inr e ↦ rw e (
      workdir_request-db t state (cleanup_globs_of t) (is_some (account_by_name c t.account_name))
        _)
]

-- A task to come has the id.
abbrev to_come : ℕ → ℕ → List Task → Bool
to_come i n [] = false
to_come i n (t ∷ ts) = (is_at i t.allocation_id && t.id == n) || to_come i n ts

-- Each row that claims the allocation is still to come.
abbrev Covered : ℕ → List Task → List Task → Type 0
Covered i ts rows = All (λ r. (claims_allocation i r ≡ false) ⊎ (to_come i r.id ts ≡ true)) rows

Covered-fail :
    (i : ℕ) (message : String) (now : ℕ) (t : Task) (ts rows : List Task)
    → Covered i (t ∷ ts) rows
    → Covered i ts (update task_key t.id (fail_task message now) rows)
unfolding update
Covered-fail i message now t ts [] h = tt
Covered-fail i message now t ts (r ∷ rows) h =
    (one (Bool-cases (r.id == t.id)), Covered-fail i message now t ts rows h.1)
  where
    one :
        ((r.id == t.id) ≡ true) ⊎ ((r.id == t.id) ≡ false)
        → (claims_allocation i (if r.id == t.id then fail_task message now r else r) ≡ false)
          ⊎ (to_come i (if r.id == t.id then fail_task message now r else r).id ts ≡ true)
    one (inl e) = rw e (inl (ground arith))
    one (inr e) = rw e (elim h.0 [ inl free ↦ inl free | inr come ↦ inr (ground arith) ])

Covered-skip :
    (i : ℕ) (t : Task) (ts rows : List Task)
    → is_at i t.allocation_id ≡ false
    → Covered i (t ∷ ts) rows
    → Covered i ts rows
Covered-skip i t ts [] other h = tt
Covered-skip i t ts (r ∷ rows) other h = (
  (elim h.0 [ inl free ↦ inl free | inr come ↦ inr (ground arith) ]),
  Covered-skip i t ts rows other h.1,
)

Covered-if :
    (i : ℕ) (ts : List Task) (b : Bool) (x y : Scheduler)
    → (b ≡ true → Covered i ts x.db.tasks)
    → (b ≡ false → Covered i ts y.db.tasks)
    → Covered i ts (if b then x else y).db.tasks
Covered-if i ts true x y f g = f refl
Covered-if i ts false x y f g = g refl

terminal-Covered :
    (c : Config) (i : ℕ) (message : String) (t : Task) (ts : List Task) (s : Scheduler)
    → Covered i (t ∷ ts) s.db.tasks
    → Covered i ts
        (on_task_terminal c t "allocation lost"
          (update_task t.id (fail_task message s.clock) s)).db.tasks
unfolding update_task Queries.update_task
terminal-Covered c i message t ts s h =
    subst (λ db. Covered i ts db.tasks)
      (sym (
        on_task_terminal-db c t "allocation lost" (update_task t.id (fail_task message s.clock) s)))
      (Covered-fail i message s.clock t ts s.db.tasks h)

fail_each-Covered :
    (c : Config) (i : ℕ) (message : String) (ts : List Task) (s : Scheduler)
    → Covered i ts s.db.tasks
    → Covered i [] (fail_each c i message ts s).db.tasks
fail_each-Covered c i message [] s h = h
fail_each-Covered c i message (t ∷ ts) s h =
    let failed =
      on_task_terminal c t "allocation lost" (update_task t.id (fail_task message s.clock) s) in
    fail_each-Covered c i message ts (if is_at i t.allocation_id then failed else s) (
      Covered-if i ts (is_at i t.allocation_id) failed s
        (λ here. terminal-Covered c i message t ts s h)
        (λ other. Covered-skip i t ts s.db.tasks other h))

Covered-more :
    (i : ℕ) (t : Task) (ts rows : List Task) → Covered i ts rows → Covered i (t ∷ ts) rows
Covered-more i t ts [] h = tt
Covered-more i t ts (r ∷ rows) h = (
  (elim h.0 [ inl free ↦ inl free | inr come ↦ inr (ground arith) ]),
  Covered-more i t ts rows h.1,
)

active-step :
    (i : ℕ) (r : Task) (kept rows : List Task) (b : Bool)
    → is_active_status r.status ≡ b
    → Covered i kept rows
    → Covered i (if b then r ∷ kept else kept) (r ∷ rows)
active-step i r kept rows true e h = (
  (elim (Bool-cases (is_at i r.allocation_id)) [
    | inl here ↦ inr (ground arith)
    | inr away ↦ inl (ground arith)
  ]),
  Covered-more i r kept rows h,
)
active-step i r kept rows false e h = (inl (ground arith), h)

active-Covered :
    (i : ℕ) (rows : List Task) → Covered i (keep (λ t. is_active_status t.status) rows) rows
active-Covered i [] = tt
active-Covered i (r ∷ rows) =
    active-step i r (keep (λ t. is_active_status t.status) rows) rows (is_active_status r.status)
      refl (active-Covered i rows)

no_claims : (i : ℕ) (rows : List Task) → Covered i [] rows → keep (claims_allocation i) rows ≡ []
no_claims i [] h = refl
no_claims i (r ∷ rows) h = elim h.0 [ inl free ↦ rw free (no_claims i rows h.1) | inr come ↦ cc ]

-- If no more tasks are attaching or running than one query lists, then after the running tasks of an
-- allocation are failed no attaching or running task claims it.
pub fail_running_tasks-frees :
    (c : Config) (i : ℕ) (message : String) (s : Scheduler)
    → length (keep (λ t. is_active_status t.status) s.db.tasks) ≤ 5000
    → list_live_task_claims_for_allocation (fail_running_tasks c i message s).db i ≡ []
unfolding fail_running_tasks list_live_task_claims_for_allocation list_tasks_by_statuses
fail_running_tasks-frees c i message s few = ap reverse (
    no_claims i (fail_running_tasks c i message s).db.tasks (
      fail_each-Covered c i message (list_tasks_by_statuses s.db is_active_status 5000) s (
        rw (take-all 5000 (keep (λ t. is_active_status t.status) s.db.tasks) few)
          (active-Covered i s.db.tasks))))
