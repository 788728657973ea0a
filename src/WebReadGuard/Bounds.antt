-- ===== src/WebReadGuard/Bounds.antt =====
-- The cache stays within its bound, and answers with what was stored last.
use slurm_scheduler.Prelude.{
  ℕ, ◌+◌, ◌≤◌, ◌<◌, ◌≡◌, refl, arith, not, some, List, [], ◌∷◌, ◌++◌, length, length-keep-le,
  Option-cases, inl, inr,
}
use slurm_scheduler.WebReadGuard.{
  CacheKey, key_eq, Message, Entry, Guard, entry_of, drop_key, cached, store, evict,
}

length-evict : (limit : ℕ) (es : List Entry) → length (evict limit es) ≤ limit
length-evict limit [] = omega arith
length-evict limit (e ∷ es) = ground (arith, length-evict limit es)

length-append_one : (es : List Entry) (e : Entry) → length (es ++ e ∷ []) ≡ length es + 1
length-append_one [] e = refl
length-append_one (x ∷ es) e = omega (arith, length-append_one es e)

drop_key-shorter :
    (key : CacheKey) (es : List Entry) (e : Entry)
    → entry_of key es ≡ some e
    → length (drop_key key es) < length es
drop_key-shorter key [] e h = cc
drop_key-shorter key (x ∷ es) e h =
    ground (arith, drop_key-shorter key es e, length-keep-le (λ y. not (key_eq key y.key)) es)

-- A cache within its bound is within it after any lookup and after any store.
pub cache_within_bound :
    (g : Guard) (key : CacheKey) (now : ℕ) (messages : List Message)
    → length g.cache ≤ g.max_entries
    → (length (cached key now g).0.cache ≤ g.max_entries)
      × (length (store key messages now g).cache ≤ g.max_entries)
unfolding cached store
cache_within_bound g key now messages h = (
  elim (Option-cases (entry_of key g.cache)) [
    | inl e ↦ ground (arith, e)
    | inr (x, e) ↦
        ground
          (arith, e, drop_key-shorter key g.cache x e, length-append_one (drop_key key g.cache) x)
  ],
  let new : Entry = record { key = key; expires_at = now + g.ttl_seconds; messages = messages } in
      ground (arith, length-evict g.max_entries (drop_key key g.cache ++ new ∷ [])),
)
