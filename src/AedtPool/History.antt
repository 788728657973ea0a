-- ===== src/AedtPool/History.antt =====
-- What no operation does to a lease: the relation of the table before to the table after, and the
-- steps that keep it.
pub mod Writes
pub mod Placing
pub mod Operations
pub mod Endings
pub mod Reports
pub mod Steps
use slurm_scheduler.Prelude.{
  ℕ, Bool, true, false, not, ◌&&◌, ◌||◌, Option, none, some, List, [], ◌∷◌, map, ◌⊎◌, inl, inr,
  String, ◌≡◌, refl, sym, ◌∙◌, ap, subst, arith, any, leb, Bool-cases, if◌then◌else◌, str_eq, ◌==◌,
}
use slurm_scheduler.AedtPool.{
  LeaseState, Lease, Session, Pool, PoolError, permission_error, Outcome, is_terminal, is_live,
  is_queued, find_lease, get_session, set_leases, claim_lease, and_then, same_state, state_number,
  authorize_session,
}
use slurm_scheduler.AedtPool.Refresh.{for_each}
use slurm_scheduler.AedtPool.Solve.{authorize_lease}

-- A lease keeps its id and its client, and once it has ended its state.
abbrev pub Kept : Lease → Lease → Type 0
Kept l m =
    (m.id ≡ l.id)
    × (m.client_token_hash ≡ l.client_token_hash)
    × (is_terminal l.state ≡ true → m.state ≡ l.state)

abbrev pub Follows : List Lease → List Lease → Type 0
Follows [] [] = Unit
Follows [] (m ∷ ms) = ⊥
Follows (l ∷ ls) [] = ⊥
Follows (l ∷ ls) (m ∷ ms) = Kept l m × Follows ls ms

Kept-refl : (l : Lease) → Kept l l
Kept-refl l = (refl, refl, λ h. refl)

pub follows_refl : (ls : List Lease) → Follows ls ls
follows_refl [] = tt
follows_refl (l ∷ ls) = (Kept-refl l, follows_refl ls)

Kept-trans : (l m n : Lease) → Kept l m → Kept m n → Kept l n
Kept-trans l m n (i, c, s) (j, d, t) = (j ∙ i, d ∙ c, λ h. t (ap is_terminal (s h) ∙ h) ∙ s h)

pub follows_trans : (ls ms ns : List Lease) → Follows ls ms → Follows ms ns → Follows ls ns
follows_trans [] [] [] f g = tt
follows_trans [] [] (n ∷ ns) f g = elim g [ ]
follows_trans [] (m ∷ ms) ns f g = elim f [ ]
follows_trans (l ∷ ls) [] ns f g = elim f [ ]
follows_trans (l ∷ ls) (m ∷ ms) [] f g = elim g [ ]
follows_trans (l ∷ ls) (m ∷ ms) (n ∷ ns) (k, f) (h, g) =
    (Kept-trans l m n k h, follows_trans ls ms ns f g)

-- A write that keeps the keys of the rows and is not aimed at ended leases.
pub follows-set :
    (p : Lease → Bool) (f : Lease → Lease) (ls : List Lease)
    → ((l : Lease) → ((f l).id ≡ l.id) × ((f l).client_token_hash ≡ l.client_token_hash))
    → ((l : Lease) → is_terminal l.state ≡ true → p l ≡ false)
    → Follows ls (map (λ l. if p l then f l else l) ls)
follows-set p f [] same aim = tt
follows-set p f (l ∷ ls) same aim = (
  elim (Bool-cases (p l)) [
    | inl h ↦
        subst (λ b. Kept l (if b then f l else l)) (sym h)
          ((same l).0, (same l).1, λ e. ground (arith, aim l e, h))
    | inr h ↦ subst (λ b. Kept l (if b then f l else l)) (sym h) (Kept-refl l)
  ],
  follows-set p f ls same aim,
)

-- A write that leaves the states.
pub follows-map :
    (p : Lease → Bool) (f : Lease → Lease) (ls : List Lease)
    → ((l : Lease) → Kept l (f l))
    → Follows ls (map (λ l. if p l then f l else l) ls)
follows-map p f [] same = tt
follows-map p f (l ∷ ls) same = (
  elim (Bool-cases (p l)) [
    | inl h ↦ subst (λ b. Kept l (if b then f l else l)) (sym h) (same l)
    | inr h ↦ subst (λ b. Kept l (if b then f l else l)) (sym h) (Kept-refl l)
  ],
  follows-map p f ls same,
)

-- An operation that raises leaves the tables as they were.
abbrev pub Keeps : Pool → Outcome → Type 0
Keeps p (inl error) = Unit
Keeps p (inr q) = Follows p.leases q.leases

pub Keeps-if :
    (p : Pool) (b : Bool) (x y : Outcome)
    → (b ≡ true → Keeps p x)
    → (b ≡ false → Keeps p y)
    → Keeps p (if b then x else y)
Keeps-if p true x y f g = f refl
Keeps-if p false x y f g = g refl

pub Keeps-and_then :
    (p : Pool) (f : Pool → Outcome) (x : Outcome)
    → Keeps p x
    → ((q : Pool) → Keeps q (f q))
    → Keeps p (and_then f x)
Keeps-and_then p f (inl error) k g = tt
Keeps-and_then p f (inr q) k g = onward (f q) (g q)
  where
    onward : (o : Outcome) → Keeps q o → Keeps p o
    onward (inl error) h = tt
    onward (inr r) h = follows_trans p.leases q.leases r.leases k h

pub Keeps-claim :
    (p : Pool) (aim : Lease → Bool) (f : Lease → Lease) (message : String)
    → Follows p.leases (set_leases aim f p).leases
    → Keeps p (claim_lease aim f message p)
Keeps-claim p aim f message k = Keeps-if p (any aim p.leases) _ _ (λ h. k) (λ h. tt)

pub Keeps-with_lease :
    (token_hash : String → String) (token : String) (p : Pool) (o : Option Lease)
    (f : Lease → Outcome)
    → ((l : Lease) → Keeps p (f l))
    → Keeps p (authorize_lease token_hash token o f)
Keeps-with_lease token_hash token p none f k = tt
Keeps-with_lease token_hash token p (some l) f k =
    Keeps-if p (str_eq l.client_token_hash (token_hash token)) _ _ (λ h. k l) (λ h. tt)

pub Keeps-with_session :
    (token_hash : String → String) (token : String) (p : Pool) (o : Option Session)
    (f : Session → Outcome)
    → ((s : Session) → Keeps p (f s))
    → Keeps p (authorize_session token_hash token o f)
Keeps-with_session token_hash token p none f k = tt
Keeps-with_session token_hash token p (some s) f k =
    Keeps-if p (not (str_eq s.host_token_hash "") && str_eq s.host_token_hash (token_hash token))
      (f s) (inl permission_error) (λ h. k s) (λ h. tt)

pub follows-for_each {ℓ} :
    {A : Type ℓ} (f : A → Pool → Pool) (xs : List A) (p : Pool)
    → ((x : A) (q : Pool) → Follows q.leases (f x q).leases)
    → Follows p.leases (for_each f xs p).leases
follows-for_each f [] p k = follows_refl p.leases
follows-for_each f (x ∷ xs) p k =
    follows_trans p.leases (f x p).leases (for_each f xs (f x p)).leases (k x p)
      (follows-for_each f xs (f x p) k)

-- A test that no ended state passes.
pub off_ended :
    (test : LeaseState → Bool)
    → test LeaseState.released ≡ false
    → test LeaseState.failed ≡ false
    → test LeaseState.cancelled ≡ false
    → test LeaseState.expired ≡ false
    → (x : LeaseState) → is_terminal x ≡ true
    → test x ≡ false
off_ended test a b c d LeaseState.released h = a
off_ended test a b c d LeaseState.failed h = b
off_ended test a b c d LeaseState.cancelled h = c
off_ended test a b c d LeaseState.expired h = d
off_ended test a b c d LeaseState.queued h = cc
off_ended test a b c d LeaseState.offered h = cc
off_ended test a b c d LeaseState.leased h = cc
off_ended test a b c d LeaseState.attaching h = cc
off_ended test a b c d LeaseState.active h = cc
off_ended test a b c d LeaseState.releasing h = cc

pub off_right : (x y : Bool) → y ≡ false → (x && y) ≡ false
off_right true y h = h
off_right false y h = refl

pub off_left : (x y : Bool) → x ≡ false → (x && y) ≡ false
off_left true y h = cc
off_left false y h = refl

number : (x : LeaseState) → is_terminal x ≡ leb 6 (state_number x)
number LeaseState.queued = refl
number LeaseState.offered = refl
number LeaseState.leased = refl
number LeaseState.attaching = refl
number LeaseState.active = refl
number LeaseState.releasing = refl
number LeaseState.released = refl
number LeaseState.failed = refl
number LeaseState.cancelled = refl
number LeaseState.expired = refl

-- An ended state is not the state of a lease that is live.
pub off_same :
    (x y : LeaseState) → is_terminal y ≡ false → is_terminal x ≡ true → same_state x y ≡ false
off_same x y live ended =
    other (state_number x) (state_number y) (sym (number x) ∙ ended) (sym (number y) ∙ live)
  where
    other : (m n : ℕ) → leb 6 m ≡ true → leb 6 n ≡ false → (m == n) ≡ false
    other m n h g = ground arith
