-- ===== src/AedtPool/Solve/Serial.antt =====
-- One project of a session solves at a time.
use slurm_scheduler.Prelude.{
  ℕ, ◌+◌, ◌≤◌, Bool, true, false, not, ◌&&◌, ◌||◌, is_some, List, [], ◌∷◌, ◌⊎◌, inl, inr, keep, any,
  map, length, is_empty, ◌≡◌, ◌≢◌, refl, arith, ◌==◌, leb, if◌then◌else◌, All,
}
use slurm_scheduler.AedtPool.{Lease, Session, Pool, is_live, is_active, occupies, occupants}
use slurm_scheduler.AedtPool.Canary.{
  mixed_canary_batch_is_complete, exact_session_reservations_are_active,
}
use slurm_scheduler.AedtPool.Solve.{
  grant_on_session, grant_wave, follow_wave, continue_wave, refuse_continuation, waiting_on,
  may_seal, was_granted, is_attested, gets_permit, give_permit, seal_batch, next_generation,
}

-- A lease on a session whose native solve is permitted and whose project is not closed yet.
abbrev pub is_solving : ℕ → Lease → Bool
is_solving i l = occupies i l && is_some l.solve_permit_at

abbrev pub solving : ℕ → Pool → ℕ
solving i p = length (keep (is_solving i) p.leases)

-- The primary key of the table.
abbrev pub HasUniqueIds : Pool → Type 0
HasUniqueIds p = (i : ℕ) → length (keep (λ l. l.id == i) p.leases) ≤ 1

-- The permits on a session that are not used up are those of its current generation, and there are
-- none while its batch is not sealed.
abbrev pub CurrentRow : Session → Lease → Type 0
CurrentRow s l =
    is_solving s.id l ≡ true
    → (is_some s.solve_batch_sealed_at ≡ true)
      × (l.solve_permit_generation ≡ s.solve_batch_generation)

abbrev pub IsCurrent : Session → Pool → Type 0
IsCurrent s p = All (CurrentRow s) p.leases

module _ {A : Type 0} where
  count-map-le :
      (test aim : A → Bool) (f : A → A) (xs : List A)
      → ((x : A) → test (f x) ≡ true → aim x ≡ true)
      → length (keep test (map f xs)) ≤ length (keep aim xs)
  count-map-le test aim f [] h = omega arith
  count-map-le test aim f (x ∷ xs) h = ground (arith, h x, count-map-le test aim f xs h)

  none-kept :
      (test : A → Bool) (xs : List A) → ((x : A) → test x ≡ false) → length (keep test xs) ≡ 0
  none-kept test [] h = refl
  none-kept test (x ∷ xs) h = ground (arith, h x, none-kept test xs h)

  none-any : (test : A → Bool) (xs : List A) → any test xs ≡ false → length (keep test xs) ≡ 0
  none-any test [] h = refl
  none-any test (x ∷ xs) h = ground (arith, none-any test xs)

module _ (i : ℕ) where
  -- A wave on a session where nobody solves permits one row.
  wave-count :
      (k now generation : ℕ) (ls : List Lease)
      → any (is_solving i) ls ≡ false
      → length (
          keep
            (is_solving i)
            (map (λ l. if gets_permit i (k ∷ []) l then give_permit now generation l else l) ls))
        ≤ length (keep (λ l. l.id == k) ls)
  wave-count k now generation [] idle = omega arith
  wave-count k now generation (l ∷ ls) idle = ground (arith, wave-count k now generation ls, idle)

  grant_wave-count :
      (generation : ℕ) (ls : List Lease) (p : Pool)
      → HasUniqueIds p
      → any (is_solving i) p.leases ≡ false
      → solving i (grant_wave i generation ls p).0 ≤ 1
  grant_wave-count generation [] p unique idle =
      let zero_now = none-any (is_solving i) p.leases idle in omega arith
  grant_wave-count generation (l ∷ ls) p unique idle =
      let few = wave-count l.id p.now generation p.leases idle in
      let one = unique l.id in omega arith

module _ (s : Session) where
  idle-granted :
      (ls : List Lease)
      → All (CurrentRow s) ls
      → any (λ l. is_live l.state) (keep (was_granted s.id s.solve_batch_generation) ls) ≡ false
      → any (is_solving s.id) ls ≡ false
  idle-granted [] current h = refl
  idle-granted (l ∷ ls) (now, rest) h = ground (arith, now, idle-granted ls rest, h)

  idle-unsealed :
      (ls : List Lease)
      → All (CurrentRow s) ls
      → is_some s.solve_batch_sealed_at ≡ false
      → any (is_solving s.id) ls ≡ false
  idle-unsealed [] current h = refl
  idle-unsealed (l ∷ ls) (now, rest) h = ground (arith, now, idle-unsealed ls rest h, h)

pair-if :
    (P : Pool × Bool → Type 0) (b : Bool) (x y : Pool × Bool)
    → (b ≡ true → P x)
    → (b ≡ false → P y)
    → P (if b then x else y)
pair-if P true x y f g = f refl
pair-if P false x y f g = g refl

refuse-count : (s : Session) (p : Pool) → solving s.id (refuse_continuation s p) ≤ solving s.id p
refuse-count s p =
    count-map-le (is_solving s.id) (is_solving s.id) _ p.leases (λ l h. ground (arith, h))

or-right : (a b : Bool) → (a || b) ≡ false → b ≡ false
or-right true b h = cc
or-right false b h = h

continue-count :
    (s : Session) (ls : List Lease) (p : Pool)
    → HasUniqueIds p
    → any (is_solving s.id) p.leases ≡ false
    → solving s.id (continue_wave s ls p).0 ≤ 1
continue-count s [] p unique idle =
    let zero_now = none-any (is_solving s.id) p.leases idle in omega arith
continue-count s (l ∷ ls) p unique idle =
    grant_wave-count s.id (s.solve_batch_generation + 1) (l ∷ ls) (next_generation s p) unique idle

follow-count :
    (s : Session) (p : Pool)
    → HasUniqueIds p
    → IsCurrent s p
    → solving s.id p ≤ 1
    → solving s.id (follow_wave s (keep (was_granted s.id s.solve_batch_generation) p.leases) p).0
      ≤ 1
follow-count s p unique current one =
    let granted = keep (was_granted s.id s.solve_batch_generation) p.leases in
    pair-if (λ r. solving s.id r.0 ≤ 1) (is_empty granted || any (λ l. is_live l.state) granted)
      (p, false) _ (λ h. one)
      (λ h.
        pair-if (λ r. solving s.id r.0 ≤ 1)
          (any (λ l. not (is_attested s.id s.solve_batch_generation l)) granted)
          (refuse_continuation s p, false) (continue_wave s (waiting_on p s) p)
          (λ g. let few = refuse-count s p in omega arith)
          (λ g. continue-count s (waiting_on p s) p unique (
            idle-granted s p.leases current
              (or-right (is_empty granted) (any (λ l. is_live l.state) granted) h))))

-- On a session where at most one lease solves, whose permits that are not used up are those of the
-- current generation of a sealed batch, a decision on the next wave leaves at most one lease solving.
pub one_solver_at_a_time :
    (s : Session) (allow_underfilled : Bool) (p : Pool)
    → HasUniqueIds p
    → IsCurrent s p
    → solving s.id p ≤ 1
    → solving s.id (grant_on_session s allow_underfilled p).0 ≤ 1
unfolding grant_on_session
one_solver_at_a_time s allow_underfilled p unique current one =
    pair-if (λ r. solving s.id r.0 ≤ 1) (is_some s.solve_batch_sealed_at)
      (follow_wave s (keep (was_granted s.id s.solve_batch_generation) p.leases) p) _
      (λ h. follow-count s p unique current one)
      (λ h.
        pair-if (λ r. solving s.id r.0 ≤ 1) (may_seal p s allow_underfilled)
          (grant_wave s.id (s.solve_batch_generation + 1) (waiting_on p s) (seal_batch s p))
          (p, false)
          (λ g.
            grant_wave-count s.id (s.solve_batch_generation + 1) (waiting_on p s) (seal_batch s p)
              unique (idle-unsealed s p.leases current h))
          (λ g. one))

-- Every lease that the sealed generation's permit was given to.
abbrev pub predecessors : Session → Pool → List Lease
predecessors s p = keep (was_granted s.id s.solve_batch_generation) p.leases

false≢true : false ≢ true
false≢true h = cc

or-left : (a b : Bool) → (a || b) ≡ false → a ≡ false
or-left true b h = cc
or-left false b h = refl

seal-parts : (a b c d e : Bool) → (a && b && not c && not d && e) ≡ true → (d ≡ false) × (c ≡ false)
seal-parts a b c d e h = ground (arith, h)

-- What a wave that is granted comes after.
abbrev pub FollowsWave : Session → Pool → Type 0
FollowsWave s p =
    ((is_some s.solve_batch_sealed_at ≡ true)
      × (any (λ l. not (is_attested s.id s.solve_batch_generation l)) (predecessors s p) ≡ false)
      × (is_empty (predecessors s p) ≡ false))
    ⊎ ((is_some s.solve_batch_sealed_at ≡ false)
        × (any (λ l. not (is_active l.state)) (occupants p s.id) ≡ false)
        × (is_empty (occupants p s.id) ≡ false))

-- A wave that is granted follows a wave of which every project was released with its native pipeline
-- completed for this session and generation, or it is the first of its batch, and then every lease on
-- the session is active.
pub waves_follow_attested_waves :
    (s : Session) (allow_underfilled : Bool) (p : Pool)
    → (grant_on_session s allow_underfilled p).1 ≡ true
    → FollowsWave s p
unfolding grant_on_session
waves_follow_attested_waves s allow_underfilled p =
    pair-if (λ r. r.1 ≡ true → FollowsWave s p) (is_some s.solve_batch_sealed_at)
      (follow_wave s (predecessors s p) p) _
      (λ sealed.
        pair-if (λ r. r.1 ≡ true → FollowsWave s p)
          (is_empty (predecessors s p) || any (λ l. is_live l.state) (predecessors s p)) (p, false)
          _ (λ h no. absurd (false≢true no))
          (λ h.
            pair-if (λ r. r.1 ≡ true → FollowsWave s p)
              (any (λ l. not (is_attested s.id s.solve_batch_generation l)) (predecessors s p))
              (refuse_continuation s p, false) (continue_wave s (waiting_on p s) p)
              (λ g no. absurd (false≢true no))
              (λ g granted. inl (
                sealed,
                g,
                or-left (is_empty (predecessors s p))
                    (any (λ l. is_live l.state) (predecessors s p)) h,
              ))))
      (λ unsealed.
        pair-if (λ r. r.1 ≡ true → FollowsWave s p) (may_seal p s allow_underfilled)
          (grant_wave s.id (s.solve_batch_generation + 1) (waiting_on p s) (seal_batch s p))
          (p, false)
          (λ h granted.
            let (all_active, occupied) =
              seal-parts (mixed_canary_batch_is_complete p s.id)
                (exact_session_reservations_are_active p s.id) (is_empty (occupants p s.id))
                (any (λ l. not (is_active l.state)) (occupants p s.id))
                (leb s.slots_total (length (occupants p s.id))
                  || any (λ l. l.exclusive_session) (occupants p s.id)
                  || allow_underfilled)
                h in
            inr (unsealed, all_active, occupied))
          (λ h no. absurd (false≢true no)))
