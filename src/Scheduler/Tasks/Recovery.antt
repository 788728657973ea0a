-- ===== src/Scheduler/Tasks/Recovery.antt =====
-- A restart never takes back a task whose remote launch may have happened.
use slurm_scheduler.Prelude.{
  ℕ, ◌≡◌, refl, ◌∙◌, arith, Bool, true, false, not, ◌&&◌, is_some, List, [], ◌∷◌, String, keep, map,
  str_eq, if◌then◌else◌, Bool-cases, inl, inr,
}
use slurm_scheduler.Config.{Config}
use slurm_scheduler.Store.{Task}
use slurm_scheduler.Store.Queries.{update_task_if_attach_claim, owns_claim, list_tasks_by_statuses}
use slurm_scheduler.Store.Queries
use slurm_scheduler.Scheduler.{Scheduler, record_event}
use slurm_scheduler.Scheduler.Tasks.{
  recover_attaching_task, recover_each, recover_transient_states, rebalanced, take_back, recovered,
  is_attaching,
}

abbrev pub launched : Task → Bool
launched t = is_some t.launch_started_at

owned-unlaunched :
    (i : ℕ) (token : String) (t : Task) → owns_claim i token true t ≡ true → launched t ≡ false
owned-unlaunched i token t h = ground arith

take_back-launched :
    (i : ℕ) (token : String) (seen : Task) (ts : List Task)
    → keep launched (map (λ t. if owns_claim i token true t then rebalanced seen t else t) ts)
      ≡ keep launched ts
take_back-launched i token seen [] = refl
take_back-launched i token seen (t ∷ ts) = elim (Bool-cases (owns_claim i token true t)) [
  | inl own ↦
      ground (arith, own, owned-unlaunched i token t own, take_back-launched i token seen ts)
  | inr other ↦ ground (arith, other, take_back-launched i token seen ts)
]

abbrev launched_tasks : Scheduler → List Task
launched_tasks s = keep launched s.db.tasks

recovered-tasks :
    (c : Config) (t : Task) (s : Scheduler) (won : Bool)
    → launched_tasks (recovered c t (s, won)) ≡ launched_tasks s
unfolding record_event Queries.record_event
recovered-tasks c t s true = refl
recovered-tasks c t s false = refl

taken-tasks :
    (c : Config) (t : Task) (s : Scheduler)
    → launched_tasks (recovered c t (take_back t s)) ≡ launched_tasks s
unfolding update_task_if_attach_claim
taken-tasks c t s =
    recovered-tasks c t (take_back t s).0 (take_back t s).1
    ∙ (elim (Bool-cases (str_eq t.attach_token "")) [
      | inl e ↦ rw e refl
      | inr e ↦ rw e (take_back-launched t.id t.attach_token t s.db.tasks)
    ])

recover-tasks :
    (c : Config) (t : Task) (s : Scheduler)
    → launched_tasks (recover_attaching_task c t s) ≡ launched_tasks s
unfolding recover_attaching_task record_event Queries.record_event
recover-tasks c t s =
    elim (Bool-cases (not (str_eq t.attach_token "") && not (is_some t.launch_started_at))) [
      | inl e ↦ rw e (taken-tasks c t s)
      | inr e ↦
          rw e (elim (Bool-cases (str_eq t.exit_code_path "")) [
            | inl f ↦ rw f refl
            | inr f ↦ rw f refl
          ])
    ]

recover_each-tasks :
    (c : Config) (ts : List Task) (s : Scheduler)
    → launched_tasks (recover_each c ts s) ≡ launched_tasks s
recover_each-tasks c [] s = refl
recover_each-tasks c (t ∷ ts) s =
    recover_each-tasks c ts (recover_attaching_task c t s) ∙ recover-tasks c t s

-- The recovery after a restart leaves every task row with a launch time exactly as it is, and gives
-- no other row one, whatever the rows are that it reads.
pub recovery_keeps_launched :
    (c : Config) (s : Scheduler)
    → keep launched (recover_transient_states c s).db.tasks ≡ keep launched s.db.tasks
unfolding recover_transient_states
recovery_keeps_launched c s = recover_each-tasks c (list_tasks_by_statuses s.db is_attaching 5000) s
