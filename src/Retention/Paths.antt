-- ===== src/Retention/Paths.antt =====
-- `posixpath.dirname` (used by slurm_scheduler/retention.py) shortens a path, unless it is all
-- slashes up to its last one, and keeps a path absolute.
use slurm_scheduler.Prelude.{
  subst, starts_with, if◌then◌else◌, Bool, ap, sym, ℕ, suc, ◌≡◌, refl, true, false, [], ◌∷◌, Text,
  text_eq, length, ◌<◌, ◌≤◌, arith, Bool-cases, inl, inr, ◌⊎◌,
}
use slurm_scheduler.Retention.{
  up_to, up_to_slash, drop_slash, rstrip_slashes, all_slashes, dirname, slash,
}

pub text_eq-path : (s t : Text) → text_eq s t ≡ true → s ≡ t
text_eq-path [] [] h = refl
text_eq-path [] (d ∷ t) h = absurd cc
text_eq-path (c ∷ s) [] h = absurd cc
text_eq-path (c ∷ s) (d ∷ t) h =
    let e : c ≡ d = ground arith in let r = text_eq-path s t (ground arith) in λ i. e i ∷ r i

pub text_eq_refl : (s : Text) → text_eq s s ≡ true
text_eq_refl [] = refl
text_eq_refl (c ∷ s) = ground (arith, text_eq_refl s)

length-drop_slash : (c : ℕ) (s : Text) → length (drop_slash c s) ≤ suc (length s)
length-drop_slash c [] = ground arith
length-drop_slash c (d ∷ r) = omega arith

up_to-shrinks :
    (c : ℕ) (r s : Text)
    → (r ≡ s) ⊎ (length r < length s)
    → (up_to c r ≡ c ∷ s) ⊎ (length (up_to c r) < length (c ∷ s))
up_to-shrinks c [] [] h = ground arith
up_to-shrinks c [] (d ∷ s) h = inr (ground arith)
up_to-shrinks c (d ∷ r) s (inl h) = inl (λ i. c ∷ h i)
up_to-shrinks c (d ∷ r) s (inr h) = inr (omega arith)

up_to_slash-shrinks : (p : Text) → (up_to_slash p ≡ p) ⊎ (length (up_to_slash p) < length p)
up_to_slash-shrinks [] = inl refl
up_to_slash-shrinks (c ∷ s) = up_to-shrinks c (up_to_slash s) s (up_to_slash-shrinks s)

up_to-trims :
    (c : ℕ) (r : Text)
    → (r ≡ []) ⊎ (length (rstrip_slashes r) < length r)
    → (up_to c r ≡ []) ⊎ (length (rstrip_slashes (up_to c r)) < length (up_to c r))
up_to-trims c [] h = ground arith
up_to-trims c (d ∷ r) (inl h) = absurd cc
up_to-trims c (d ∷ r) (inr h) = inr (omega (arith, length-drop_slash c (rstrip_slashes (d ∷ r))))

head-trims :
    (p : Text)
    → (up_to_slash p ≡ []) ⊎ (length (rstrip_slashes (up_to_slash p)) < length (up_to_slash p))
head-trims [] = inl refl
head-trims (c ∷ s) = up_to-trims c (up_to_slash s) (head-trims s)

length-rstrip_slashes-le : (p : Text) → length (rstrip_slashes p) ≤ length p
length-rstrip_slashes-le [] = omega arith
length-rstrip_slashes-le (c ∷ s) =
    omega (arith, length-drop_slash c (rstrip_slashes s), length-rstrip_slashes-le s)

trimmed-shrinks :
    (slashes : Bool) (head p : Text)
    → all_slashes head ≡ slashes
    → (head ≡ p) ⊎ (length head < length p)
    → (head ≡ []) ⊎ (length (rstrip_slashes head) < length head)
    → let parent = if slashes then head else rstrip_slashes head in
      (parent ≡ p) ⊎ (length parent < length p)
trimmed-shrinks true head p e h t = h
trimmed-shrinks false head p e h (inl t) = absurd cc
trimmed-shrinks false head p e (inl h) (inr t) = inr (ground (arith, ap length h))
trimmed-shrinks false head p e (inr h) (inr t) = inr (omega arith)

pub dirname-shrinks : (p : Text) → (dirname p ≡ p) ⊎ (length (dirname p) < length p)
unfolding dirname
dirname-shrinks p =
    let head = up_to_slash p in
    trimmed-shrinks (all_slashes head) head p refl (up_to_slash-shrinks p) (head-trims p)

drop_slash-nil :
    (c : ℕ) (r s : Text)
    → (r ≡ [] → all_slashes s ≡ true)
    → drop_slash c r ≡ []
    → all_slashes (c ∷ s) ≡ true
drop_slash-nil c [] s t h = ground (arith, t refl)
drop_slash-nil c (d ∷ r) s t h = absurd cc

rstrip_slashes-nil : (p : Text) → rstrip_slashes p ≡ [] → all_slashes p ≡ true
rstrip_slashes-nil [] h = refl
rstrip_slashes-nil (c ∷ s) h = drop_slash-nil c (rstrip_slashes s) s (rstrip_slashes-nil s) h

drop_slash-rooted :
    (r t : Text)
    → t ≡ rstrip_slashes r
    → all_slashes r ≡ false
    → starts_with (drop_slash b'/' t) slash ≡ true
unfolding starts_with
drop_slash-rooted r [] e a = absurd (ground (arith, rstrip_slashes-nil r (sym e)))
drop_slash-rooted r (d ∷ t) e a = refl

head-rooted :
    (r : Text)
    → let head = up_to b'/' r in
      starts_with (if all_slashes head then head else rstrip_slashes head) slash ≡ true
unfolding starts_with
head-rooted [] = refl
head-rooted (d ∷ r) = elim (Bool-cases (all_slashes (d ∷ r))) [
  | inl e ↦ ground (arith, e)
  | inr e ↦ ground (arith, e, drop_slash-rooted (d ∷ r) (rstrip_slashes (d ∷ r)) refl e)
]

pub dirname-rooted : (p : Text) → starts_with p slash ≡ true → starts_with (dirname p) slash ≡ true
unfolding dirname starts_with
dirname-rooted [] h = h
dirname-rooted (c ∷ s) h =
    let e : c ≡ b'/' = ground arith in
    subst
      (λ d.
        let head = up_to d (up_to_slash s) in
        starts_with (if all_slashes head then head else rstrip_slashes head) slash ≡ true)
      (sym e) (head-rooted (up_to_slash s))
