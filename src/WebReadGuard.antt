-- ===== src/WebReadGuard.antt =====
-- slurm_scheduler/web_read_guard.py: the response cache in front of expensive reads. The order of the
-- list is that of the OrderedDict, the oldest entry first.
pub mod Bounds
pub mod Answers
use slurm_scheduler.Prelude.{
  ℕ, zero, suc, ◌+◌, ◌*◌, ◌≡◌, max, Bool, true, false, not, ◌&&◌, ◌||◌, Option, none, some, List,
  [], ◌∷◌, ◌++◌, String, Text, text_eq, length, keep, ltb, leb, ◌==◌, if◌then◌else◌,
}

-- The path, the query string and the accepted encoding, as bytes.
pub record CacheKey : Type 0 where
  pub path : Text
  pub query_string : Text
  pub accept_encoding : Text

unfoldable pub key_eq : CacheKey → CacheKey → Bool
key_eq a b =
    text_eq a.path b.path
    && text_eq a.query_string b.query_string
    && text_eq a.accept_encoding b.accept_encoding

pub data Message : Type 0 where
  response_start : ℕ → Message
  response_body : Text → Message

pub record Entry : Type 0 where
  pub key : CacheKey
  pub expires_at : ℕ
  pub messages : List Message

pub record Guard : Type 0 where
  pub ttl_seconds : ℕ
  pub max_entries : ℕ
  pub max_cache_body_bytes : ℕ
  pub cache : List Entry

-- `__init__` leaves at least one entry.
unfoldable pub new_guard : ℕ → ℕ → ℕ → Guard
new_guard ttl entries body = record {
  ttl_seconds = ttl;
  max_entries = max 1 entries;
  max_cache_body_bytes = body;
  cache = [];
}

abbrev pub entry_of : CacheKey → List Entry → Option Entry
entry_of key [] = none
entry_of key (e ∷ es) = if key_eq key e.key then some e else entry_of key es

-- `pop(key)`, where a key has one entry
abbrev pub drop_key : CacheKey → List Entry → List Entry
drop_key key es = keep (λ e. not (key_eq key e.key)) es

unfoldable pub cached : CacheKey → ℕ → Guard → Guard × Option (List Message)
unfolding key_eq
cached key now g = elim (entry_of key g.cache) [
  | none ↦ (g, none)
  | some e ↦
      if leb e.expires_at now
      then (record g { cache = drop_key key g.cache }, none)
      else (record g { cache = drop_key key g.cache ++ e ∷ [] }, some e.messages)
]

abbrev pub body_bytes : List Message → ℕ
body_bytes [] = 0
body_bytes (response_start status ∷ ms) = body_bytes ms
body_bytes (response_body body ∷ ms) = length body + body_bytes ms

abbrev pub status_of : List Message → ℕ
status_of [] = 0
status_of (response_start status ∷ ms) = status
status_of (response_body body ∷ ms) = status_of ms

-- `while len(cache) > max_entries: popitem(last=False)`
abbrev pub evict : ℕ → List Entry → List Entry
evict limit [] = []
evict limit (e ∷ es) =
    let fewer = evict limit es in if ltb limit (length (e ∷ es)) then fewer else e ∷ es

unfoldable pub store : CacheKey → List Message → ℕ → Guard → Guard
unfolding key_eq
store key messages now g =
    if not (status_of messages == 200)
      || g.ttl_seconds == 0
      || ltb g.max_cache_body_bytes (body_bytes messages)
    then g
    else record g {
      cache = evict g.max_entries (
          drop_key key g.cache
          ++ record { key = key; expires_at = now + g.ttl_seconds; messages = messages } ∷ []);
    }
