-- ===== src/Inventory/Laws.antt =====
-- A normalised GPU model is its own normal form.
use slurm_scheduler.Prelude.{
  ℕ, ◌≡◌, refl, ◌∙◌, ap, inl, inr, arith, true, false, [], ◌∷◌, Text, strip, lstrip, rstrip, lower,
  is_space, contains, keep, Bool-cases, All,
}
use slurm_scheduler.Inventory.{is_word, clean_model, model_name, normalize_gpu_model}

abbrev IsClean : Text → Type 0
IsClean = All λ c. is_word c ≡ true

keep-IsClean : (t : Text) → IsClean (keep is_word t)
keep-IsClean [] = tt
keep-IsClean (c ∷ t) = elim (Bool-cases (is_word c)) [
  | inl e ↦ rw e (e, keep-IsClean t)
  | inr e ↦ rw e (keep-IsClean t)
]

word_not_space : (c : ℕ) → is_word c ≡ true → is_space c ≡ false
unfolding is_space
word_not_space c h = ground arith

rstrip-clean : (t : Text) → IsClean t → rstrip t ≡ t
unfolding rstrip
rstrip-clean [] h = refl
rstrip-clean (c ∷ []) h = ground (arith, word_not_space c)
rstrip-clean (c ∷ d ∷ t) h = rw (rstrip-clean (d ∷ t) h.1)

lstrip-clean : (t : Text) → IsClean t → lstrip t ≡ t
unfolding lstrip
lstrip-clean [] h = refl
lstrip-clean (c ∷ t) h = rw (word_not_space c h.0)

lower-clean : (t : Text) → IsClean t → lower t ≡ t
unfolding lower
lower-clean [] h = refl
lower-clean (c ∷ t) h = ground (arith, lower-clean t h.1)

keep-clean : (t : Text) → IsClean t → keep is_word t ≡ t
keep-clean [] h = refl
keep-clean (c ∷ t) h = rw h.0 (ap (◌∷◌ c) (keep-clean t h.1))

clean-clean : (t : Text) → IsClean t → clean_model t ≡ t
unfolding clean_model strip
clean-clean t h =
    ap (λ x. keep is_word (lower x)) (ap rstrip (lstrip-clean t h) ∙ rstrip-clean t h)
    ∙ (ap (keep is_word) (lower-clean t h) ∙ keep-clean t h)

clean_model-IsClean : (m : Text) → IsClean (clean_model m)
unfolding clean_model
clean_model-IsClean m = keep-IsClean (lower (strip m))

model_name-IsClean :
    (t : Text) → IsClean t → IsClean (model_name t) × (model_name (model_name t) ≡ model_name t)
unfolding model_name contains
model_name-IsClean t h = ground (arith, h)

-- Normalising a GPU model twice is normalising it once.
pub normalize_gpu_model_idem :
    (m : Text) → normalize_gpu_model (normalize_gpu_model m) ≡ normalize_gpu_model m
unfolding normalize_gpu_model
normalize_gpu_model_idem m =
    let (clean, twice) = model_name-IsClean (clean_model m) (clean_model-IsClean m) in
    ap model_name (clean-clean (model_name (clean_model m)) clean) ∙ twice
