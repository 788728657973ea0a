-- ===== src/AedtPool/History/Reports.antt =====
-- Faults that are reported and heartbeats of hosts leave ended leases alone.
use slurm_scheduler.Prelude.{
  ℕ, Bool, true, false, not, ◌&&◌, ◌||◌, if◌then◌else◌, Option, none, some, [], inl, inr, String,
  ◌≡◌, refl, str_eq, ◌==◌, length,
}
use slurm_scheduler.AedtPool.{
  LeaseState, Lease, Outcome, Session, Pool, PoolError, AedtPoolConfig, is_terminal, is_active,
  is_leased, is_attaching, id_or_zero, find_lease, get_session, set_leases, set_sessions,
  is_assignable, occupants,
}
use slurm_scheduler.AedtPool.Owners.{cancel_lease}
use slurm_scheduler.AedtPool.Placement.{place_queued_leases}
use slurm_scheduler.AedtPool.Faults.{
  FaultReport, FaultKind, aedt_transport_death, aedt_death, report_project_fault,
  report_session_fault, act_on_fault, act_on_shared, note_fault, desktop_death, solver_timed_out,
  committed, cancelled, report_row, is_local, or_text, spaced, kind_text, lost_desktop, suspect,
}
use slurm_scheduler.AedtPool.Hosts.{
  Proof, heartbeat_session, beat_row, beat_checked, write_beat, record_beat, clear_barrier,
  clears_barrier, needs_no_write, heartbeat_problem, recovers, recovered,
}
use slurm_scheduler.AedtPool.Registering.{revive_allocation}
use slurm_scheduler.AedtPool.History.{
  Follows, Keeps, follows_refl, follows_trans, follows-set, follows-map, Keeps-if, Keeps-and_then,
  Keeps-with_session, off_ended, off_right,
}
use slurm_scheduler.AedtPool.History.Placing.{follows-if, place_queued-Keeps}
use slurm_scheduler.AedtPool.History.Endings.{cancel-Keeps}

ended-started :
    (x : LeaseState) → is_terminal x ≡ true → (is_leased x || is_attaching x || is_active x) ≡ false
ended-started = off_ended (λ x. is_leased x || is_attaching x || is_active x) refl refl refl refl

module _ (token_hash : String → String) (config : AedtPoolConfig) where
  committed-Follows :
      (p q : Pool) (o : Outcome)
      → Follows p.leases q.leases
      → Keeps q o
      → Follows p.leases (committed token_hash config q o).0.leases
  committed-Follows p q (inl error) k h = k
  committed-Follows p q (inr r) k h = follows_trans p.leases q.leases r.leases k h

  cancelled-Follows :
      (i : ℕ) (token reason : String) (p q : Pool)
      → Follows p.leases q.leases
      → Follows p.leases (cancelled token_hash config i token reason q).0.leases
  cancelled-Follows i token reason p q k =
      committed-Follows p q (cancel_lease token_hash config i token reason q) k
        (cancel-Keeps token_hash config i token reason q)

  shared-Follows :
      (i : ℕ) (token : String) (f : FaultReport) (kind : FaultKind) (session_id : ℕ) (p : Pool)
      → Follows p.leases (act_on_shared token_hash config i token f kind session_id p).0.leases
  shared-Follows i token f aedt_transport_death session_id p =
      let message = or_text f.failure_message "project client lost AEDT transport" in
      cancelled-Follows i token message p
        (set_sessions (λ s. s.id == session_id && is_assignable s.state)
          (suspect token_hash config message) p)
        (follows_refl p.leases)
  shared-Follows i token f aedt_death session_id p = death (get_session p session_id)
    where
      death :
          (s : Option Session)
          → Follows p.leases
              (desktop_death token_hash config s
                (or_text f.failure_message (lost_desktop token_hash config))
                p).0.leases
      death none = follows_refl p.leases
      death (some s) = follows_refl p.leases
  shared-Follows i token f kind session_id p = stopped
    where
      stopped : Follows p.leases (solver_timed_out token_hash config i session_id f p).leases
      stopped =
          follows-set
            (λ l. l.id == i && (is_leased l.state || is_attaching l.state || is_active l.state)) _
            p.leases (λ o. (refl, refl)) (λ o h. off_right (o.id == i) _ (ended-started o.state h))

  pair-if :
      (p : Pool) (b : Bool) (x y : Pool × Option PoolError)
      → Follows p.leases x.0.leases
      → Follows p.leases y.0.leases
      → Follows p.leases (if b then x else y).0.leases
  pair-if p true x y f g = f
  pair-if p false x y f g = g

  act-Follows :
      (i : ℕ) (token : String) (f : FaultReport) (session_id : ℕ) (p : Pool)
      → Follows p.leases (act_on_fault token_hash config i token f session_id p).0.leases
  act-Follows i token f session_id p =
      pair-if p (is_local f.kind) _ _
        (cancelled-Follows i token (or_text f.failure_message (spaced f.kind)) p p
          (follows_refl p.leases))
        (pair-if p (session_id == 0) _ _
          (cancelled-Follows i token (kind_text f.kind) p p (follows_refl p.leases))
          (shared-Follows i token f f.kind session_id p))

  row-Follows :
      (i : ℕ) (token : String) (f : FaultReport) (l : Option Lease) (p : Pool)
      → Follows p.leases (report_row token_hash config i token f l p).0.leases
  row-Follows i token f none p = follows_refl p.leases
  row-Follows i token f (some l) p =
      let noted = set_leases (λ o. o.id == i) (note_fault token_hash config f) p in
      let session_id = id_or_zero l.session_id in
      pair-if p (str_eq l.client_token_hash (token_hash token)) _ _
        (follows_trans p.leases noted.leases
          (act_on_fault token_hash config i token f session_id noted).0.leases
          (follows-map (λ o. o.id == i) (note_fault token_hash config f) p.leases
            (λ o. (refl, refl, λ h. refl)))
          (act-Follows i token f session_id noted))
        (follows_refl p.leases)

  pub fault-Follows :
      (i : ℕ) (token : String) (f : FaultReport) (p : Pool)
      → Follows p.leases (report_project_fault token_hash config i token f p).0.leases
  unfolding report_project_fault
  fault-Follows i token f p = row-Follows i token f (find_lease p i) p

  pub session_fault-Keeps :
      (i : ℕ) (token kind message evidence snapshot : String) (p : Pool)
      → Keeps p (report_session_fault token_hash config i token kind message evidence snapshot p)
  unfolding report_session_fault
  session_fault-Keeps i token kind message evidence snapshot p =
      Keeps-with_session token_hash token p (get_session p i) _ (λ s.
        Keeps-if p _ (inl _) (inr _) (λ h. tt)
          (λ h.
            follows-if p.leases (str_eq kind "confirmed_aedt_death") _ _ (follows_refl p.leases)
              (follows_refl p.leases)))

revive-Keeps : (i : ℕ) (p : Pool) → Follows p.leases (revive_allocation i p).leases
revive-Keeps i p = follows-if p.leases _ p _ (follows_refl p.leases) (follows_refl p.leases)

module _ (token_hash : String → String) (port_of : String → ℕ) (config : AedtPoolConfig) where
  clear-Keeps :
      (s : Session) (p : Pool)
      → Follows p.leases (clear_barrier token_hash port_of config s p).leases
  clear-Keeps s p =
      follows-if p.leases (clears_barrier token_hash port_of config p s) _ p (follows_refl p.leases)
        (follows_refl p.leases)

  record-Keeps :
      (operational : Bool) (s : Session) (p : Pool)
      → Follows p.leases (record_beat token_hash port_of config operational s p).leases
  record-Keeps operational s p =
      let q =
        set_sessions (λ o. o.id == s.id)
          (recovered token_hash port_of config (not (length (occupants p s.id) == 0)) p.now) p in
      follows-if p.leases (operational && recovers token_hash port_of config p s)
        (revive_allocation s.allocation_id q) _
        (follows_trans p.leases q.leases (revive_allocation s.allocation_id q).leases
          (follows_refl p.leases) (revive-Keeps s.allocation_id q))
        (follows_refl p.leases)

  write-Keeps :
      (operational : Bool) (s : Session) (p : Pool)
      → Keeps p (write_beat token_hash port_of config operational s p)
  write-Keeps operational s p =
      let q = clear_barrier token_hash port_of config s p in
      let r = record_beat token_hash port_of config operational s q in
      let k =
        follows_trans p.leases q.leases r.leases (clear-Keeps s p) (record-Keeps operational s q) in
      Keeps-if p (operational && clears_barrier token_hash port_of config p s)
        (place_queued_leases config [] true r) (inr r)
        (λ h.
          Keeps-and_then p (place_queued_leases config [] true) (inr r) k
            (place_queued-Keeps config [] true))
        (λ h. k)

  checked-Keeps :
      (problem : Option PoolError) (operational : Bool) (s : Session) (p : Pool)
      → Keeps p (beat_checked token_hash port_of config problem operational s p)
  checked-Keeps (some problem) operational s p = tt
  checked-Keeps none operational s p =
      Keeps-if p (needs_no_write token_hash port_of config p.now s) (inr p) _
        (λ h. follows_refl p.leases) (λ h. write-Keeps operational s p)

  beat-Keeps :
      (token : String) (proof : Proof) (operational : Bool) (s : Option Session) (p : Pool)
      → Keeps p (beat_row token_hash port_of config token proof operational s p)
  beat-Keeps token proof operational none p = tt
  beat-Keeps token proof operational (some s) p =
      checked-Keeps (heartbeat_problem token_hash port_of config s token proof) operational s p

  pub host_heartbeat-Keeps :
      (i : ℕ) (token : String) (proof : Proof) (operational : Bool) (p : Pool)
      → Keeps p (heartbeat_session token_hash port_of config i token proof operational p)
  unfolding heartbeat_session
  host_heartbeat-Keeps i token proof operational p =
      beat-Keeps token proof operational (get_session p i) p
