-- ===== src/LlmCache/Tests.antt =====
-- Runs of system/core/interpretation/llm_cache.py.
use capability_os.Base.{
  ◌+◌, ◌≤◌, String, none, some, List, [], ◌∷◌, ltb, if◌then◌else◌, arith, ◌≡◌, refl,
}
use capability_os.LlmCache.{LlmCache, new_cache, get, put}
use capability_os.LlmCache.Calls.{Call, getting, putting, perform_all, past, IsKept}
use capability_os.LlmCache.Kept.{perform_all-IsKept, get-put}

-- A digest without collisions.
abbrev digest : String → String
digest s = s

-- Two responses, of which the first one is asked for, and a third one.
abbrev calls : List Call
calls =
    putting "s" "a" "A" 0 ∷ putting "s" "b" "B" 1 ∷ getting "s" "a" 2 ∷ putting "s" "c" "C" 3 ∷ []

abbrev cache : LlmCache
cache = perform_all digest calls (new_cache 2 20000)

-- The one that has not been asked for makes room.
least_recent_evicted : (get digest "s" "b" 4 cache).0 ≡ none
unfolding get perform_all new_cache
least_recent_evicted = refl

recent_kept : (get digest "s" "a" 4 cache).0 ≡ some "A"
unfolding get perform_all new_cache
recent_kept = refl

expired_missed : (get digest "s" "a" 20001 cache).0 ≡ none
unfolding get perform_all new_cache
expired_missed = refl

room_for_one : (new_cache 0 0).max ≡ 1
unfolding new_cache
room_for_one = refl

cache_room : 1 ≤ cache.max
unfolding perform_all new_cache
cache_room = omega arith

perform_all-IsKept_example :
    IsKept digest (past calls []) (perform_all digest calls (new_cache 2 20000))
perform_all-IsKept_example = perform_all-IsKept digest 2 20000 calls

get-put_example :
    (get digest "s" "d" 9 (put digest "s" "d" "D" 5 cache)).0
    ≡ (if ltb (5 + cache.ttl) 9 then none else some "D")
get-put_example = get-put digest "s" "d" "D" 5 9 cache cache_room
