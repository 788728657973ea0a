-- ===== src/Store/Table.antt =====
-- A table of rows with a numeric key, newest row first: SELECT and UPDATE by key.
use slurm_scheduler.Prelude.{ℕ, ◌≡◌, Option, none, some, List, [], ◌∷◌, arith, ◌==◌, if◌then◌else◌}

module _ {ℓ} {A : Type ℓ} (key : A → ℕ) where
  -- SELECT * FROM t WHERE id = ?
  unfoldable pub get : ℕ → List A → Option A
  get i [] = none
  get i (r ∷ rs) = if key r == i then some r else get i rs

  -- UPDATE t SET … WHERE id = ?
  unfoldable pub update : ℕ → (A → A) → List A → List A
  update i f [] = []
  update i f (r ∷ rs) = (if key r == i then f r else r) ∷ update i f rs

  abbrev pub map_row : (A → A) → Option A → Option A
  map_row f none = none
  map_row f (some r) = some (f r)

  pub get-key : (i : ℕ) (rs : List A) {r : A} → get i rs ≡ some r → key r ≡ i
  unfolding get
  get-key i [] h = ground arith
  get-key i (x ∷ rs) {r} h = ground (arith, get-key i rs {r = r})

  -- A row update that keeps the key is seen at that key, and at no other.
  pub get-update :
      (i j : ℕ) (f : A → A) (rs : List A)
      → ((r : A) → key (f r) ≡ key r)
      → get j (update i f rs) ≡ (if i == j then map_row f (get j rs) else get j rs)
  unfolding get update
  get-update i j f [] same = ground arith
  get-update i j f (r ∷ rs) same = ground (arith, same r, get-update i j f rs same)
