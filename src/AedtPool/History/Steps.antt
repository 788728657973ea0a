-- ===== src/AedtPool/History/Steps.antt =====
-- The pool as a system of steps: what a client, a host or the upkeep does, one operation after
-- another. One that raises changes nothing and is left out, but for the report of a fault, whose first
-- transactions stay.
use slurm_scheduler.Prelude.{
  ℕ, Bool, true, false, Option, none, some, List, [], ◌∷◌, inr, String, ◌≡◌, refl, ◌∙◌, ap, subst,
  arith, ◌==◌, if◌then◌else◌, first,
}
use slurm_scheduler.Store.{Db}
use slurm_scheduler.AedtPool.{Lease, Pool, Outcome, AedtPoolConfig, is_terminal, find_lease}
use slurm_scheduler.AedtPool.Solve.{request_solve_permit, complete_native_pipeline}
use slurm_scheduler.AedtPool.Placement.{place_queued_leases}
use slurm_scheduler.AedtPool.Leases.{heartbeat_lease, accept_lease}
use slurm_scheduler.AedtPool.Owners.{activate_lease, bind_lease_project_name, cancel_lease}
use slurm_scheduler.AedtPool.Release.{complete_release, close_session}
use slurm_scheduler.AedtPool.Faults.{FaultReport, report_project_fault, report_session_fault}
use slurm_scheduler.AedtPool.Hosts.{Proof, heartbeat_session}
use slurm_scheduler.AedtPool.History.{Kept, Follows, Keeps, follows_refl, follows_trans}
use slurm_scheduler.AedtPool.History.Placing.{place_queued-Keeps}
use slurm_scheduler.AedtPool.History.Operations.{heartbeat-Keeps, accept-Keeps}
use slurm_scheduler.AedtPool.History.Endings.{
  permit-Keeps, complete-Keeps, activate-Keeps, bind-Keeps, cancel-Keeps, release-Keeps,
  close-Keeps,
}
use slurm_scheduler.AedtPool.History.Reports.{
  fault-Follows, session_fault-Keeps, host_heartbeat-Keeps,
}

abbrev or_default : Lease → Option Lease → Lease
or_default k none = k
or_default k (some l) = l

-- The first row with an id, in a table and in one that follows it.
pick :
    (k n l : Lease) (b c : Bool)
    → c ≡ b
    → (o r : Option Lease) → Kept k n
    → (o ≡ some l → (m : Lease) × (r ≡ some m) × (m.state ≡ l.state))
    → (if b then some k else o) ≡ some l
    → is_terminal l.state ≡ true
    → (m : Lease) × ((if c then some n else r) ≡ some m) × (m.state ≡ l.state)
pick k n l true true same o r kept rest h e =
    let eq = ap (or_default k) h in
    (n, refl, kept.2 (ap (λ x. is_terminal x.state) eq ∙ e) ∙ ap (λ x. x.state) eq)
pick k n l false false same o r kept rest h e = rest h
pick k n l true false same o r kept rest h e = cc
pick k n l false true same o r kept rest h e = cc

module _ (token_hash : String → String) (port_of : String → ℕ) (config : AedtPoolConfig) where
  pub data Step : Pool → Pool → Type 0 where
    heartbeat :
        {p q : Pool} (i : ℕ) (token phase : String)
        → heartbeat_lease token_hash config i token phase p ≡ inr q
        → Step p q
    accept :
        {p q : Pool} (i : ℕ) (token : String)
        → accept_lease token_hash config i token p ≡ inr q
        → Step p q
    activate :
        {p q : Pool} (i : ℕ) (token : String)
        → activate_lease token_hash config i token p ≡ inr q
        → Step p q
    permit :
        {p q : Pool} (i : ℕ) (token : String) (seal : Bool)
        → request_solve_permit token_hash config i token seal p ≡ inr q
        → Step p q
    pipeline :
        {p q : Pool} (i : ℕ) (token : String) (generation : ℕ)
        → complete_native_pipeline token_hash config i token generation p ≡ inr q
        → Step p q
    bind :
        {p q : Pool} (i : ℕ) (token name : String)
        → bind_lease_project_name token_hash config i token name p ≡ inr q
        → Step p q
    cancel :
        {p q : Pool} (i : ℕ) (token reason : String)
        → cancel_lease token_hash config i token reason p ≡ inr q
        → Step p q
    release :
        {p q : Pool} (i : ℕ) (token : String) (lease_id : ℕ) (success : Bool) (message : String)
        → complete_release token_hash config i token lease_id success message p ≡ inr q
        → Step p q
    close :
        {p q : Pool} (i : ℕ) (token : String) (success : Bool) (message : String) (requeue : Bool)
        → close_session token_hash config i token success message requeue p ≡ inr q
        → Step p q
    fault :
        {p q : Pool} (i : ℕ) (token : String) (f : FaultReport)
        → (report_project_fault token_hash config i token f p).0 ≡ q
        → Step p q
    session_fault :
        {p q : Pool} (i : ℕ) (token kind message evidence snapshot : String)
        → report_session_fault token_hash config i token kind message evidence snapshot p ≡ inr q
        → Step p q
    host_heartbeat :
        {p q : Pool} (i : ℕ) (token : String) (proof : Proof) (operational : Bool)
        → heartbeat_session token_hash port_of config i token proof operational p ≡ inr q
        → Step p q
    place :
        {p q : Pool} (ids : List ℕ) (refresh : Bool)
        → place_queued_leases config ids refresh p ≡ inr q
        → Step p q
    -- Between two transactions the time passes, and the rest of the scheduler writes its tables.
    pass : {p : Pool} (now : ℕ) (db : Db) → Step p (record p { now = now; db = db })

  pub data Reach : Pool → Pool → Type 0 where
    here : {p : Pool} → Reach p p
    onward : {p q r : Pool} → Step p q → Reach q r → Reach p r

  done : (p q : Pool) (o : Outcome) → o ≡ inr q → Keeps p o → Follows p.leases q.leases
  done p q o h k = subst (Keeps p) h k

  step-Keeps : {p q : Pool} → Step p q → Follows p.leases q.leases
  step-Keeps {p = p} {q = q} (heartbeat i token phase h) =
      done p q _ h (heartbeat-Keeps token_hash config i token phase p)
  step-Keeps {p = p} {q = q} (accept i token h) =
      done p q _ h (accept-Keeps token_hash config i token p)
  step-Keeps {p = p} {q = q} (activate i token h) =
      done p q _ h (activate-Keeps token_hash config i token p)
  step-Keeps {p = p} {q = q} (permit i token seal h) =
      done p q _ h (permit-Keeps token_hash config i token seal p)
  step-Keeps {p = p} {q = q} (pipeline i token generation h) =
      done p q _ h (complete-Keeps token_hash config i token generation p)
  step-Keeps {p = p} {q = q} (bind i token name h) =
      done p q _ h (bind-Keeps token_hash config i token name p)
  step-Keeps {p = p} {q = q} (cancel i token reason h) =
      done p q _ h (cancel-Keeps token_hash config i token reason p)
  step-Keeps {p = p} {q = q} (release i token lease_id success message h) =
      done p q _ h (release-Keeps token_hash config i token lease_id success message p)
  step-Keeps {p = p} {q = q} (close i token success message requeue h) =
      done p q _ h (close-Keeps token_hash config i token success message requeue p)
  step-Keeps {p = p} {q = q} (fault i token f h) =
      subst (λ r. Follows p.leases r.leases) h (fault-Follows token_hash config i token f p)
  step-Keeps {p = p} {q = q} (session_fault i token kind message evidence snapshot h) =
      done p q _ h (session_fault-Keeps token_hash config i token kind message evidence snapshot p)
  step-Keeps {p = p} {q = q} (host_heartbeat i token proof operational h) =
      done p q _ h (host_heartbeat-Keeps token_hash port_of config i token proof operational p)
  step-Keeps {p = p} {q = q} (place ids refresh h) =
      done p q _ h (place_queued-Keeps config ids refresh p)
  step-Keeps {p = p} (pass now db) = follows_refl p.leases

  reach-Keeps : {p q : Pool} → Reach p q → Follows p.leases q.leases
  reach-Keeps {p = p} here = follows_refl p.leases
  reach-Keeps {p = p} {q = r} (onward {q = q} s more) =
      follows_trans p.leases q.leases r.leases (step-Keeps s) (reach-Keeps more)

  found-stays :
      (i : ℕ) (ls ms : List Lease) (l : Lease)
      → Follows ls ms
      → first (λ l. l.id == i) ls ≡ some l
      → is_terminal l.state ≡ true
      → (m : Lease) × (first (λ l. l.id == i) ms ≡ some m) × (m.state ≡ l.state)
  found-stays i [] [] l f h e = ground arith
  found-stays i [] (n ∷ ms) l f h e = elim f [ ]
  found-stays i (k ∷ ls) [] l f h e = elim f [ ]
  found-stays i (k ∷ ls) (n ∷ ms) l (kept, f) h e =
      pick k n l (k.id == i) (n.id == i) (ap (λ x. x == i) kept.0) _ _ kept
        (λ g. found-stays i ls ms l f g e) h e

  -- From any state of the pool, by any sequence of the steps, a lease that has been released, has
  -- failed, was cancelled or has expired keeps that state for ever.
  pub ended_lease_stays :
      {p q : Pool}
      → Reach p q
      → (i : ℕ) (l : Lease) → find_lease p i ≡ some l
      → is_terminal l.state ≡ true
      → (m : Lease) × (find_lease q i ≡ some m) × (m.state ≡ l.state)
  unfolding find_lease
  ended_lease_stays {p = p} {q = q} way i l = found-stays i p.leases q.leases l (reach-Keeps way)
