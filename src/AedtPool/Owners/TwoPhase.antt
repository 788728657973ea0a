-- ===== src/AedtPool/Owners/TwoPhase.antt =====
-- A cancellation is a request: the slot of a project that its client owns is freed by the host alone.
use slurm_scheduler.Prelude.{
  ℕ, Bool, true, false, not, ◌&&◌, ◌||◌, some, List, [], ◌∷◌, inl, inr, keep, any, map, length,
  String, ◌≡◌, refl, sym, ◌∙◌, ap, arith, ◌==◌, leb, str_eq, Bool-cases, if◌then◌else◌, ==_iff,
  ==_refl, first,
}
use slurm_scheduler.Store.Queries.{is_at}
use slurm_scheduler.AedtPool.{
  LeaseState, Lease, Pool, Outcome, value_error, AedtPoolConfig, is_terminal, holds_slot, occupies,
  occupants, find_lease, id_or_zero, claim_lease, and_then, set_leases, same_state, state_number,
  is_releasing, is_leased, is_attaching, is_active,
}
use slurm_scheduler.AedtPool.Canary.{cancelled_lease}
use slurm_scheduler.AedtPool.Solve.{authorize_lease}
use slurm_scheduler.AedtPool.Leases.{older, refresh_own}
use slurm_scheduler.AedtPool.Owners.{
  cancel_lease, cancel_live, owns_project, is_own, request_release, changed, bar_session,
}

number-holds : (x : LeaseState) → holds_slot x ≡ (leb 1 (state_number x) && leb (state_number x) 5)
number-holds LeaseState.queued = refl
number-holds LeaseState.offered = refl
number-holds LeaseState.leased = refl
number-holds LeaseState.attaching = refl
number-holds LeaseState.active = refl
number-holds LeaseState.releasing = refl
number-holds LeaseState.released = refl
number-holds LeaseState.failed = refl
number-holds LeaseState.cancelled = refl
number-holds LeaseState.expired = refl

-- Two leases in the same state both hold a slot or neither does.
same-holds : (x y : LeaseState) → same_state x y ≡ true → holds_slot x ≡ holds_slot y
same-holds x y h =
    number-holds x
    ∙ ap (λ n. leb 1 n && leb n 5) ((==_iff (state_number x) (state_number y)).0 h)
    ∙ sym (number-holds y)

count-map-same :
    (test : Lease → Bool) (f : Lease → Lease) (xs : List Lease)
    → ((x : Lease) → test (f x) ≡ test x)
    → length (keep test (map f xs)) ≡ length (keep test xs)
count-map-same test f [] h = refl
count-map-same test f (x ∷ xs) h = ground (arith, h x, count-map-same test f xs h)

owner-holds :
    (x : LeaseState) (b : Bool)
    → (is_attaching x || is_active x || is_releasing x || (is_leased x && b)) ≡ true
    → holds_slot x ≡ true
owner-holds LeaseState.queued b h = cc
owner-holds LeaseState.offered b h = cc
owner-holds LeaseState.leased b h = refl
owner-holds LeaseState.attaching b h = refl
owner-holds LeaseState.active b h = refl
owner-holds LeaseState.releasing b h = refl
owner-holds LeaseState.released b h = cc
owner-holds LeaseState.failed b h = cc
owner-holds LeaseState.cancelled b h = cc
owner-holds LeaseState.expired b h = cc

holding-live : (x : LeaseState) → holds_slot x ≡ true → is_terminal x ≡ false
holding-live x h = ground (arith, h)

if-true : {A : Type 0} (b : Bool) (x y : A) → b ≡ true → (if b then x else y) ≡ x
if-true true x y h = refl
if-true false x y h = cc

if-false : {A : Type 0} (b : Bool) (x y : A) → b ≡ false → (if b then x else y) ≡ y
if-false true x y h = cc
if-false false x y h = refl

authorized :
    (token_hash : String → String) (token : String) (l : Lease) (f : Lease → Outcome)
    → str_eq l.client_token_hash (token_hash token) ≡ true
    → authorize_lease token_hash token (some l) f ≡ f l
authorized token_hash token l f h = if-true _ (f l) _ h

-- A row that is found passes every test that it passes itself.
first-any :
    (aim test : Lease → Bool) (ls : List Lease) (l : Lease)
    → first aim ls ≡ some l
    → test l ≡ true
    → any test ls ≡ true
first-any aim test [] l found h = ground arith
first-any aim test (x ∷ xs) l found h = elim (Bool-cases (aim x)) [
  | inl here ↦ let eq : some x ≡ some l = rw here at found in ground (arith, eq, h)
  | inr there ↦ ground (arith, first-any aim test xs l (rw there at found) h)
]

-- The first row with an id, after a write that keeps the ids.
first-map :
    (i : ℕ) (f : Lease → Lease) (ls : List Lease) (l : Lease)
    → ((x : Lease) → (f x).id ≡ x.id)
    → first (λ x. x.id == i) ls ≡ some l
    → first (λ x. x.id == i) (map f ls) ≡ some (f l)
first-map i f [] l keys h = ground arith
first-map i f (x ∷ xs) l keys h = ground (arith, keys x, first-map i f xs l keys)

same_refl : (x : LeaseState) → same_state x x ≡ true
same_refl x = ==_refl (state_number x)

and-true : (a b c : Bool) → a ≡ true → b ≡ true → c ≡ true → (a && b && c) ≡ true
and-true a b c x y z = ground (arith, x, y, z)

and-not : (a b : Bool) → a ≡ true → b ≡ false → (a && not b) ≡ true
and-not a b x y = ground (arith, x, y)

middle : (a b c : Bool) → (a && b && c) ≡ true → b ≡ true
middle a b c h = ground (arith, h)

module _ (token_hash : String → String) (config : AedtPoolConfig) where
  released-occupies :
      (token reason : String) (now j : ℕ) (l x : Lease)
      → holds_slot l.state ≡ true
      → occupies j (
          if is_own token_hash config token l x
          then request_release token_hash config reason now x
          else x)
        ≡ occupies j x
  released-occupies token reason now j l x holds =
      elim (Bool-cases (is_own token_hash config token l x)) [
        | inl own ↦
            let same = middle (x.id == l.id) (same_state x.state l.state) _ own in
            ap (occupies j) (if-true _ (request_release token_hash config reason now x) x own)
            ∙ ap (λ b. is_at j x.session_id && b) (sym (same-holds x.state l.state same ∙ holds))
        | inr other ↦
            ap (occupies j) (if-false _ (request_release token_hash config reason now x) x other)
      ]

  own_write-id :
      (token reason : String) (now : ℕ) (l x : Lease)
      → (if is_own token_hash config token l x
          then request_release token_hash config reason now x
          else x).id
        ≡ x.id
  own_write-id token reason now l x = branch (is_own token_hash config token l x)
    where
      branch :
          (b : Bool) → (if b then request_release token_hash config reason now x else x).id ≡ x.id
      branch true = refl
      branch false = refl

  -- When a client cancels with its token a lease that owns a project on a session, no error is raised,
  -- the lease is RELEASING and still on its session and in its slot, and every session has as many
  -- occupied slots as before.
  pub cancel_keeps_slots_of_owners :
      (i : ℕ) (token reason : String) (p : Pool) (l : Lease)
      → find_lease p i ≡ some l
      → str_eq l.client_token_hash (token_hash token) ≡ true
      → owns_project token_hash config l ≡ true
      → (id_or_zero l.session_id == 0) ≡ false
      → (q : Pool) × (cancel_lease token_hash config i token reason p ≡ inr q)
        × ((m : Lease) × (find_lease q i ≡ some m)
            × (m.state ≡ LeaseState.releasing)
            × (m.session_id ≡ l.session_id)
            × (m.slot_index ≡ l.slot_index))
        × ((j : ℕ) → length (occupants q j) ≡ length (occupants p j))
  unfolding cancel_lease find_lease
  cancel_keeps_slots_of_owners i token reason p l row hash owns here =
      let holds = owner-holds l.state (older l) owns in
      let aim = is_own token_hash config token l in
      let q =
        bar_session token_hash config l p.now
          (set_leases aim (request_release token_hash config reason p.now) p) in
      let mine : aim l ≡ true =
        and-true (l.id == l.id) (same_state l.state l.state) _ (==_refl l.id) (same_refl l.state)
          hash in
      let write : Lease → Lease =
        λ x. if aim x then request_release token_hash config reason p.now x else x in
      let own : any aim p.leases ≡ true = first-any (λ x. x.id == i) aim p.leases l row mine in
      let claimed = ap (and_then (λ q. inr (bar_session token_hash config l p.now q))) (
        if-true (any aim p.leases)
          (inr (set_leases aim (request_release token_hash config reason p.now) p))
          (inl (value_error (changed token_hash config))) own) in
      let act : Lease → Outcome = λ x.
        if is_terminal x.state then inr p else cancel_live token_hash config token reason x p in
      let withdrawn : Outcome =
        and_then (λ q. inr (refresh_own l q))
          (claim_lease aim (cancelled_lease reason p.now) (changed token_hash config) p) in
      let is_owner : (owns_project token_hash config l && not (id_or_zero l.session_id == 0))
          ≡ true =
        and-not (owns_project token_hash config l) (id_or_zero l.session_id == 0) owns here in
      (
        q,
        ap (λ o. authorize_lease token_hash token o act) row
            ∙ authorized token_hash token l act hash
            ∙ if-false (is_terminal l.state) (inr p) _ (holding-live l.state holds)
            ∙ if-true (owns_project token_hash config l && not (id_or_zero l.session_id == 0))
                (and_then (λ q. inr (bar_session token_hash config l p.now q))
                  (claim_lease aim (request_release token_hash config reason p.now)
                    (changed token_hash config) p))
                withdrawn is_owner
            ∙ claimed,
        (
          request_release token_hash config reason p.now l,
          first-map i write p.leases l (own_write-id token reason p.now l) row
              ∙ ap some (if-true (aim l) _ l mine),
          refl,
          refl,
          refl,
        ),
        λ j.
            count-map-same (occupies j) _ p.leases
              (λ x. released-occupies token reason p.now j l x holds),
      )
