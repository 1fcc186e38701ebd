-- ===== src/LlmCache/Calls.antt =====
-- The calls of the cache of system/core/interpretation/llm_cache.py, one after another, and what a cache
-- keeps of them.
use capability_os.Base.{
  ℕ, ◌+◌, ◌≤◌, String, Option, none, some, List, [], ◌∷◌, if◌then◌else◌, ◌==◌, lookup, ◌≡◌,
}
use capability_os.LlmCache.{LlmCache, key, get, put, clear}
use capability_os.LlmCache.Bounded.{IsSmall}

-- A call, with the system's and the user's prompt, the response and the time.
pub data Call : Type 0 where
  getting : String → String → ℕ → Call
  putting : String → String → String → ℕ → Call
  clearing : Call

unfoldable pub perform : (String → String) → Call → LlmCache → LlmCache
unfolding get put clear
perform digest (getting system user now) c = (get digest system user now c).1
perform digest (putting system user response now) c = put digest system user response now c
perform digest clearing c = clear c

unfoldable pub perform_all : (String → String) → List Call → LlmCache → LlmCache
unfolding perform
perform_all digest [] c = c
perform_all digest (call ∷ calls) c = perform_all digest calls (perform digest call c)

-- The calls so far, the latest first.
unfoldable pub past : List Call → List Call → List Call
past [] h = h
past (call ∷ calls) h = past calls (call ∷ h)

-- What was put last under a key, since the cache was cleared.
abbrev pub last_entry : (String → String) → ℕ → String → List Call → Option (String × ℕ)
last_entry digest ttl k [] = none
last_entry digest ttl k (getting system user now ∷ h) = last_entry digest ttl k h
last_entry digest ttl k (putting system user response now ∷ h) =
    if key digest system user == k then some (response, now + ttl) else last_entry digest ttl k h
last_entry digest ttl k (clearing ∷ h) = none

abbrev pub lookups : List Call → ℕ
lookups [] = 0
lookups (getting system user now ∷ h) = lookups h + 1
lookups (call ∷ h) = lookups h

-- Of a cache after some calls.
pub record IsKept (digest : String → String) (h : List Call) (c : LlmCache) : Type 0 where
  pub small : IsSmall c.max c.cache
  pub positive : 1 ≤ c.max
  pub held :
      (k : String) (e : String × ℕ)
      → lookup k c.cache ≡ some e
      → last_entry digest c.ttl k h ≡ some e
  pub counted : c.hits + c.misses ≡ lookups h
