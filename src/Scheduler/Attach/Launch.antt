-- ===== src/Scheduler/Attach/Launch.antt =====
-- When the launch of a worker is asked for.
use slurm_scheduler.Prelude.{
  ℕ, ◌+◌, Bool, true, false, not, ◌&&◌, ◌||◌, Option, none, some, is_some, List, [], ◌∷◌, ◌⊎◌, inl,
  inr, String, keep, any, map, length, ◌≡◌, refl, ◌∙◌, ap, arith, str_eq, ◌==◌, if◌then◌else◌, Text,
}
use slurm_scheduler.Config.{Config}
use slurm_scheduler.Store.{Allocation, Task, Db}
use slurm_scheduler.Store.Queries.{update_task_if_attach_claim, owns_claim}
use slurm_scheduler.Policy.{account_by_name, is_pooled}
use slurm_scheduler.Scheduler.{
  Scheduler, Request, workspace_cleanup, request, on_task_terminal, workdir_request,
  cleanup_globs_of,
}
use slurm_scheduler.Scheduler.Attach.{
  AttachClient, AttachResult, World, StrictError, finish_reserved_task_attach, owned,
  recalculate_own, strict_error, end_if_won, reject, stopped, checked, begin, settle, launched,
  launch, begin_launch, set_failure, put_result, put_known, hold_pending, start_running,
  current_task, current_allocation, allocation_or,
}

abbrev pub is_launch : Request → Bool
is_launch (Request.launch i) = true
is_launch _ = false

-- How many launches have been asked for.
abbrev pub launches : Scheduler → ℕ
launches s = length (keep is_launch s.requests)

terminal-launches :
    (c : Config) (t : Task) (word : String) (s : Scheduler)
    → launches (on_task_terminal c t word s) ≡ launches s
unfolding on_task_terminal
terminal-launches c t word s =
    workdir (cleanup_globs_of t) (is_some (account_by_name c t.account_name)) _
    ∙ pooled (is_pooled t.aedt_backend) _
  where
    workdir :
        (globs : List Text) (known : Bool) (s : Scheduler)
        → launches (workdir_request t word globs known s) ≡ launches s
    workdir [] known s = refl
    workdir (g ∷ gs) true s = refl
    workdir (g ∷ gs) false s = refl

    pooled :
        (b : Bool) (s : Scheduler)
        → launches (if b then request (workspace_cleanup t.id word) s else s) ≡ launches s
    pooled true s = refl
    pooled false s = refl

module _ (c : Config) (client : AttachClient) (w : World) (t : Task) (a : Allocation) where
  own-launches : (s : Scheduler) → launches (recalculate_own c client w t a s) ≡ launches s
  own-launches s = either (a.id == 0) _ _ refl refl
    where
      either :
          (b : Bool) (x y : Scheduler)
          → launches x ≡ launches s
          → launches y ≡ launches s
          → launches (if b then x else y) ≡ launches s
      either true x y f g = f
      either false x y f g = g

  end-launches :
      (ended : Task) (word : String) (s : Scheduler) (won : Bool)
      → launches (end_if_won c client w t a ended word (s, won)) ≡ launches s
  end-launches ended word s true = terminal-launches c ended word s
  end-launches ended word s false = refl

  reject-launches :
      (error : StrictError) (known : Task → Task) (s : Scheduler)
      → launches (reject c client w t a error known s).0 ≡ launches s
  reject-launches error known s =
      let (q, won) =
        owned c client w t a false (λ r. set_failure (w.strict_text error) s.clock (known r)) s in
      own-launches _
      ∙ end-launches (current_task c client w t a s) "strict placement rejected" q won

  stopped-launches :
      (error : StrictError) (result : AttachResult) (o : Option String) (s : Scheduler)
      → launches (stopped c client w t a error result o s).0 ≡ launches s
  stopped-launches error result none s = reject-launches error (put_result result) s
  stopped-launches error result (some exc) s =
      own-launches (owned c client w t a false (hold_pending c client w t a error exc result) s).0

  settle-launches :
      (result : AttachResult) (s : Scheduler) (won : Bool)
      → launches (settle c client w t a result (s, won)).0 ≡ launches s
  settle-launches result s true = refl
  settle-launches result s false = refl

  checked-launches :
      (result : AttachResult) (o : Option StrictError) (s : Scheduler)
      → launches (checked c client w t a result o s).0 ≡ launches s
  checked-launches result (some error) s =
      stopped-launches error result
        (client.cancel_task (put_result result (current_task c client w t a s))
          (allocation_or c client w t a (current_allocation c client w t a s)).slurm_job_id)
        s
  checked-launches result none s =
      let later = record s { db = w.before_start s.db } in
      let (q, won) = owned c client w t a false (start_running result later.clock) later in
      settle-launches result q won

  launched-launches :
      (o : (String × Option AttachResult) ⊎ AttachResult) (s : Scheduler)
      → launches (launched c client w t a o s).0 ≡ launches s
  launched-launches (inl (exc, known)) s =
      let (q, won) =
        owned c client w t a false (λ r. set_failure exc s.clock (put_known known r)) s in
      end-launches t "attach failed" q won
  launched-launches (inr result) s = checked-launches result (strict_error c client w t a s) s

  -- The node reads back right, and after the next turn of the others the claim is there to launch: the
  -- row is attaching with the token, and was not launched before.
  abbrev pub claim_holds : Scheduler → Bool
  claim_holds s = (owned c client w t a true (begin_launch s.clock) s).1

  abbrev pub may_launch : Scheduler → Bool
  may_launch s =
      not (is_some (strict_error c client w t a s))
      && claim_holds (record s { db = w.before_launch s.db })

  abbrev pub one_if : Bool → ℕ
  one_if true = 1
  one_if false = 0

  launch-launches :
      (target : Allocation) (s : Scheduler) (won : Bool)
      → launches (launch c client w t a target (s, won)).0 ≡ launches s + one_if won
  launch-launches target s true = launched-launches _ _ ∙ omega arith
  launch-launches target s false = omega arith

  begin-launches :
      (o : Option StrictError) (s : Scheduler)
      → launches (begin c client w t a o s).0
        ≡ launches s
          + one_if (not (is_some o) && claim_holds (record s { db = w.before_launch s.db }))
  begin-launches (some error) s = reject-launches error (λ r. r) s ∙ omega arith
  begin-launches none s =
      let later = record s { db = w.before_launch s.db } in
      let (q, won) = owned c client w t a true (begin_launch later.clock) later in
      launch-launches (allocation_or c client w t a (current_allocation c client w t a s)) q won

  -- Finishing a reserved attach asks for one launch of the worker if, when the other threads have had
  -- a turn, the node of a strict placement reads back right, and after another turn of theirs the row is
  -- still attaching under the token with no launch recorded; in every other case it asks for none.
  pub launch_needs_the_claim :
      (s : Scheduler)
      → launches (finish_reserved_task_attach c client w t a s).0
        ≡ launches s + one_if (may_launch (record s { db = w.before_read s.db }))
  unfolding finish_reserved_task_attach
  launch_needs_the_claim s =
      let later = record s { db = w.before_read s.db } in
      begin-launches (strict_error c client w t a later) later

and-false : (x : Bool) → (x && false) ≡ false
and-false true = refl
and-false false = refl

marked-row :
    (i now : ℕ) (token : String) (t : Task) (b : Bool)
    → owns_claim i token true t ≡ b
    → owns_claim i token true (if b then begin_launch now t else t) ≡ false
marked-row i now token t true h = and-false _
marked-row i now token t false h = h

marked-unowned :
    (i now : ℕ) (token : String) (ts : List Task)
    → any
        (owns_claim i token true)
        (map (λ t. if owns_claim i token true t then begin_launch now t else t) ts)
      ≡ false
marked-unowned i now token [] = refl
marked-unowned i now token (t ∷ ts) =
    ap
      (λ b.
        b
        || any (owns_claim i token true)
            (map (λ t. if owns_claim i token true t then begin_launch now t else t) ts))
      (marked-row i now token t (owns_claim i token true t) refl)
    ∙ marked-unowned i now token ts

twice :
    (b : Bool) (x y : Db × Bool) (g : Db → Db × Bool)
    → (b ≡ false → (g x.0).1 ≡ false)
    → (if b then ((if b then y else x).0, false) else g (if b then y else x).0).1 ≡ false
twice true x y g h = refl
twice false x y g h = h refl

-- A launch that has been recorded stays the only one of its claim: to record another under the same
-- token fails.
pub launch_is_recorded_once :
    (i now : ℕ) (token : String) (f : Task → Task) (db : Db)
    → (update_task_if_attach_claim i token true f
        (update_task_if_attach_claim i token true (begin_launch now) db).0).1
      ≡ false
unfolding update_task_if_attach_claim
launch_is_recorded_once i now token f db =
    twice (str_eq token "")
      (
        record db {
          tasks = map (λ t. if owns_claim i token true t then begin_launch now t else t) db.tasks;
        },
        any (owns_claim i token true) db.tasks,
      )
      (db, false)
      (λ q. (
        record q { tasks = map (λ t. if owns_claim i token true t then f t else t) q.tasks },
        any (owns_claim i token true) q.tasks,
      ))
      (λ h. marked-unowned i now token db.tasks)
