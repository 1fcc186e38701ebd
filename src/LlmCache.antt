-- ===== src/LlmCache.antt =====
-- system/core/interpretation/llm_cache.py: the responses of a language model, with a bound on their
-- number and a time after which each expires. Times are microseconds; `digest` is the key that SHA-256
-- makes of a text.
pub mod Held
pub mod Bounded
pub mod Calls
pub mod Kept
mod Tests
use capability_os.Base.{
  ℕ, ◌+◌, String, Bool, true, false, Option, none, some, List, [], ◌∷◌, ◌++◌, length, drop, ltb,
  if◌then◌else◌, ◌⋯◌, Dict, lookup, insert, erase, has,
}

pub record LlmCache : Type 0 where
  -- `_max` and `_ttl`
  pub max : ℕ
  pub ttl : ℕ
  -- A response, and when it expires.
  pub cache : Dict (String × ℕ)
  pub hits : ℕ
  pub misses : ℕ

abbrev at_least : ℕ → ℕ → ℕ
at_least low n = if ltb n low then low else n

unfoldable pub new_cache : ℕ → ℕ → LlmCache
new_cache max_entries ttl = record {
  max = at_least 1 max_entries;
  ttl = at_least 10000 ttl;
  cache = [];
  hits = 0;
  misses = 0;
}

-- OrderedDict.move_to_end, for a key that is there.
unfoldable pub move_to_end {ℓ} : {V : Type ℓ} → String → Dict V → Dict V
unfolding lookup erase
move_to_end k d = elim (lookup k d) [ none ↦ d | some v ↦ erase k d ++ (k, v) ∷ [] ]

abbrev pub missed : LlmCache → LlmCache
missed c = record c { misses = c.misses + 1 }

abbrev pub get_entry : String → ℕ → LlmCache → Option (String × ℕ) → Option String × LlmCache
unfolding erase move_to_end
get_entry k now c none = (none, missed c)
get_entry k now c (some (response, expire_at)) =
    if ltb expire_at now
    then (none, missed (record c { cache = erase k c.cache }))
    else (some response, record c { cache = move_to_end k c.cache; hits = c.hits + 1 })

-- popitem(last=False), where the cache is too long.
unfoldable pub trim : ℕ → Dict (String × ℕ) → Dict (String × ℕ)
trim max d = if ltb max (length d) then drop 1 d else d

module _ (digest : String → String) where
  unfoldable pub key : String → String → String
  key system_prompt user_prompt = digest (system_prompt ⋯ "\0" ⋯ user_prompt)

  unfoldable pub get : String → String → ℕ → LlmCache → Option String × LlmCache
  unfolding key get_entry lookup
  get system_prompt user_prompt now c =
      let k = key system_prompt user_prompt in get_entry k now c (lookup k c.cache)

  unfoldable pub put : String → String → String → ℕ → LlmCache → LlmCache
  unfolding key has insert move_to_end trim
  put system_prompt user_prompt response now c =
      let k = key system_prompt user_prompt in
      if has k c.cache
      then record c { cache = insert k (response, now + c.ttl) (move_to_end k c.cache) }
      else record c { cache = trim c.max (insert k (response, now + c.ttl) c.cache) }

unfoldable pub clear : LlmCache → LlmCache
clear c = record c { cache = [] }
