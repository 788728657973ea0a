-- ===== src/AedtPool/Placement/Slots.antt =====
-- The slot that a placement gives: a session that is chosen has a free one.
use slurm_scheduler.Prelude.{
  ℕ, zero, suc, ◌+◌, ◌≤◌, ◌<◌, Bool, true, false, not, ◌&&◌, ◌||◌, Option, none, some, List, [],
  ◌∷◌, inl, inr, keep, any, first, length, mem_nat, ◌≡◌, ◌≢◌, refl, sym, ◌∙◌, ap, subst, arith, ltb,
  ltb→lt, ◌==◌, Bool-cases, Option-cases, if◌then◌else◌,
}
use slurm_scheduler.AedtPool.{
  Lease, Session, Reservation, Pool, PoolError, stop_iteration, runtime_error, Outcome,
  AedtPoolConfig, occupants, set_leases,
}
use slurm_scheduler.AedtPool.Compat.{lease_fits_session}
use slurm_scheduler.AedtPool.Placement.{
  free_slot, slots, slot_on, fits, select_session, by_used_slots, is_candidate, is_own_claim,
  exact_of, place_lease, place_on, put_in_slot, settle_place, consume, may_place, is_placeable,
  is_claim, offer,
}

-- The slot found is one of the range and not among those that are taken.
free_slot-free :
    (i n : ℕ) (taken : List ℕ) (k : ℕ)
    → free_slot i n taken ≡ some k
    → (i ≤ k) × (k < i + n) × (mem_nat k taken ≡ false)
unfolding free_slot
free_slot-free i zero taken k h = ground arith
free_slot-free i (suc n) taken k h = elim (Bool-cases (mem_nat i taken)) [
  | inl taken_here ↦ ground (arith, free_slot-free (suc i) n taken k, h, taken_here)
  | inr free_here ↦ ground (arith, h, free_here)
]

abbrev without : ℕ → List ℕ → List ℕ
without i = keep (λ x. not (x == i))

mem-without : (i j : ℕ) (xs : List ℕ) → i < j → mem_nat j (without i xs) ≡ mem_nat j xs
mem-without i j [] h = refl
mem-without i j (x ∷ xs) h = ground (arith, mem-without i j xs h)

length-without-le : (i : ℕ) (xs : List ℕ) → length (without i xs) ≤ length xs
length-without-le i [] = omega arith
length-without-le i (x ∷ xs) = ground (arith, length-without-le i xs)

length-without : (i : ℕ) (xs : List ℕ) → mem_nat i xs ≡ true → length (without i xs) < length xs
length-without i [] h = ground arith
length-without i (x ∷ xs) h = ground (arith, length-without i xs, length-without-le i xs)

free_slot-without :
    (i j n : ℕ) (xs : List ℕ) → i < j → free_slot j n (without i xs) ≡ free_slot j n xs
unfolding free_slot
free_slot-without i j zero xs h = refl
free_slot-without i j (suc n) xs h =
    ground (arith, mem-without i j xs h, free_slot-without i (suc j) n xs (omega arith))

-- A range with no free slot is no longer than the list of the taken ones.
none-full : (i n : ℕ) (taken : List ℕ) → free_slot i n taken ≡ none → n ≤ length taken
unfolding free_slot
none-full i zero taken h = omega arith
none-full i (suc n) taken h = elim (Bool-cases (mem_nat i taken)) [
  | inl taken_here ↦
      let more : free_slot (suc i) n taken ≡ none = ground (arith, h, taken_here) in
      let rest : n ≤ length (without i taken) =
        none-full (suc i) n (without i taken)
          (free_slot-without i (suc i) n taken (omega arith) ∙ more) in
      let less : length (without i taken) < length taken = length-without i taken taken_here in
      omega arith
  | inr free_here ↦ ground (arith, h, free_here)
]

length-slots : (ls : List Lease) → length (slots ls) ≡ length ls
length-slots [] = refl
length-slots (l ∷ ls) = ap suc (length-slots ls)

first-passes :
    {A : Type 0} (test : A → Bool) (xs : List A) (a : A) → first test xs ≡ some a → test a ≡ true
first-passes test [] a h = ground arith
first-passes test (x ∷ xs) a h = elim (Bool-cases (test x)) [
  | inl taken_here ↦ ground (arith, h, taken_here)
  | inr free_here ↦ ground (arith, h, free_here, first-passes test xs a)
]

leading : (a b c d e f g : Bool) → (a && b && c && d && e && f && g) ≡ true → a ≡ true
leading true b c d e f g h = refl
leading false b c d e f g h = cc

fits-room :
    (l : Lease) (s : Session) (used reserved : ℕ) (others : List Lease) (pending : List Reservation)
    → lease_fits_session l s used others reserved pending ≡ true
    → used + reserved < s.slots_total
unfolding lease_fits_session
fits-room l s used reserved others pending h =
    ltb→lt (used + reserved) s.slots_total
      (leading (ltb (used + reserved) s.slots_total) _ _ _ _ _ _ h)

-- A session that a lease is placed on has fewer occupants than slots.
selected-room :
    (config : AedtPoolConfig) (p : Pool) (l : Lease) (s : Session)
    → select_session config p l ≡ some s
    → length (occupants p s.id) < s.slots_total
selected-room config p l s h =
    elim (Bool-cases (l.exact_session_reservation_id == 0 || is_own_claim l (exact_of p l))) [
      | inl own ↦
          let chosen : first (fits p l)
                (by_used_slots p (keep (is_candidate config p l) p.sessions))
              ≡ some s =
            rw own at h in
          let room = fits-room l s (length (occupants p s.id)) _ (occupants p s.id) _ (
            first-passes (fits p l) (by_used_slots p (keep (is_candidate config p l) p.sessions)) s
              chosen) in
          omega arith
      | inr other ↦ absurd (ground (arith, h, other))
    ]

-- The session that is chosen for a queued lease has a slot for it: one of its slots, by number, that
-- none of the leases on it holds.
pub chosen_session_has_free_slot :
    (config : AedtPoolConfig) (p : Pool) (l : Lease) (s : Session)
    → select_session config p l ≡ some s
    → (slot : ℕ) × (slot_on p s ≡ some slot)
      × (slot < s.slots_total)
      × (mem_nat slot (slots (occupants p s.id)) ≡ false)
unfolding free_slot
chosen_session_has_free_slot config p l s h =
    let room = selected-room config p l s h in
    elim (Option-cases (slot_on p s)) [
      | inl none_left ↦
          let full = none-full 0 s.slots_total (slots (occupants p s.id)) none_left in
          let long = length-slots (occupants p s.id) in absurd (omega arith)
      | inr (slot, found) ↦
          let (low, below, free_here) =
            free_slot-free 0 s.slots_total (slots (occupants p s.id)) slot found in
          (slot, found, omega arith, free_here)
    ]

abbrev is_stop_error : PoolError → Bool
is_stop_error stop_iteration = true
is_stop_error _ = false

abbrev is_stop : Outcome → Bool
is_stop (inl error) = is_stop_error error
is_stop (inr p) = false

stop-if :
    (b : Bool) (x y : Outcome)
    → is_stop x ≡ false
    → is_stop y ≡ false
    → is_stop (if b then x else y) ≡ false
stop-if true x y f g = f
stop-if false x y f g = g

settle-stop :
    (l : Lease) (s : Session) (o : Outcome)
    → is_stop o ≡ false
    → is_stop (settle_place l s o) ≡ false
settle-stop l s (inl error) h = h
settle-stop l s (inr q) h = refl

consume-stop : (l : Lease) (p : Pool) → is_stop (consume l p) ≡ false
consume-stop l p =
    stop-if (l.exact_session_reservation_id == 0) (inr p) _ refl
      (stop-if (any (is_claim l) p.reservations) _ (inl runtime_error) refl refl)

on-stop :
    (config : AedtPoolConfig) (l : Lease) (p : Pool) (o : Option Session)
    → select_session config p l ≡ o
    → is_stop (place_on config l o p) ≡ false
on-stop config l p none h = refl
on-stop config l p (some s) h =
    let (slot, found, below, free_here) = chosen_session_has_free_slot config p l s h in
    subst (λ o. is_stop (put_in_slot config l s o p) ≡ false) (sym found)
      (stop-if (any (is_placeable p.now l) p.leases) _ (inr p)
        (settle-stop l s _
          (consume-stop l (set_leases (is_placeable p.now l) (offer config p.now s slot) p)))
        refl)

-- Placing a lease never ends with the `StopIteration` of a search for a slot that fails.
pub placement_never_runs_out_of_slots :
    (config : AedtPoolConfig) (l : Lease) (p : Pool) → place_lease config l p ≢ inl stop_iteration
unfolding place_lease
placement_never_runs_out_of_slots config l p stops =
    let never : is_stop (place_lease config l p) ≡ false =
      stop-if (may_place config p l) (place_on config l (select_session config p l) p) (inr p)
        (on-stop config l p (select_session config p l) refl) refl in
    ground (arith, ap is_stop stops, never)
