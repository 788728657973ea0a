-- ===== src/WebReadGuard/Answers.antt =====
-- A lookup in the cache answers with what was stored last under its key.
use slurm_scheduler.Prelude.{
  ℕ, ◌+◌, ◌≤◌, ◌≡◌, refl, ◌∙◌, ap, arith, true, none, some, List, [], ◌∷◌, ◌++◌, length, ltb,
  if◌then◌else◌, Text, text_eq, ==_refl,
}
use slurm_scheduler.WebReadGuard.{
  CacheKey, key_eq, Message, Entry, Guard, entry_of, drop_key, cached, store, evict, status_of,
  body_bytes,
}

text_eq_refl : (t : Text) → text_eq t t ≡ true
text_eq_refl [] = refl
text_eq_refl (c ∷ t) = ground (arith, ==_refl c, text_eq_refl t)

key_eq_refl : (key : CacheKey) → key_eq key key ≡ true
unfolding key_eq
key_eq_refl key =
    ground (
      arith,
      text_eq_refl key.path,
      text_eq_refl key.query_string,
      text_eq_refl key.accept_encoding,
    )

entry_of-drop_key :
    (key : CacheKey) (es : List Entry) (e : Entry)
    → e.key ≡ key
    → entry_of key (drop_key key es ++ e ∷ []) ≡ some e
entry_of-drop_key key [] e same = rw (ap (key_eq key) same ∙ key_eq_refl key) refl
entry_of-drop_key key (x ∷ es) e same = ground (arith, entry_of-drop_key key es e same)

length-append_pos : (es : List Entry) (e : Entry) → 1 ≤ length (es ++ e ∷ [])
length-append_pos [] e = omega arith
length-append_pos (x ∷ es) e = omega arith

-- Eviction takes the oldest entries, and so never the last one.
evict-last :
    (limit : ℕ) (key : CacheKey) (es : List Entry) (e : Entry)
    → 1 ≤ limit
    → e.key ≡ key
    → entry_of key (evict limit (drop_key key es ++ e ∷ [])) ≡ some e
evict-last limit key [] e pos same =
    let own : key_eq key e.key ≡ true = ap (key_eq key) same ∙ key_eq_refl key in
    ground (arith, own)
evict-last limit key (x ∷ es) e pos same =
    ground (arith, evict-last limit key es e pos same, entry_of-drop_key key es e same)

-- If the bound on the entries and the time to live are above 0, then a complete answer of status 200
-- within the bound on bytes that is stored is what a lookup of its key gives until that time is over,
-- and a lookup after it gives nothing.
pub stored_until_expiry :
    (g : Guard) (key : CacheKey) (messages : List Message) (now later : ℕ)
    → 1 ≤ g.max_entries
    → 1 ≤ g.ttl_seconds
    → status_of messages ≡ 200
    → body_bytes messages ≤ g.max_cache_body_bytes
    → (cached key later (store key messages now g)).1
      ≡ (if ltb later (now + g.ttl_seconds) then some messages else none)
unfolding cached store
stored_until_expiry g key messages now later entries ttl status few =
    let new : Entry = record { key = key; expires_at = now + g.ttl_seconds; messages = messages } in
    ground (arith, evict-last g.max_entries key g.cache new entries refl)
