-- ===== src/Memory.antt =====
-- system/core/memory/memory_manager.py: memories with a key, kept in a file. A moment is a text for a
-- record, and a number of microseconds where moments are compared. The records of a file have fields of
-- the right types here.
pub mod Lookups
pub mod Stores
pub mod Valid
pub mod Operations
pub mod Recalled
pub mod Expiry
mod Tests
use capability_os.Base.{
  ℕ, zero, suc, ◌+◌, ◌*◌, String, Bool, true, false, not, ◌&&◌, Option, none, some, List, [], ◌∷◌,
  map, length, keep, contains, ltb, ◌==◌, if◌then◌else◌, ◌⋯◌, strip, text_leb, ℤ, pos, Dict, lookup,
  insert, erase, has,
}
use capability_os.Value.{Value}
use capability_os.Exec.{Result, ok, raise, ErrorKind}

-- MEMORY_TYPES
abbrev pub memory_types : List String
memory_types =
    "user_preference" ∷ "execution_pattern" ∷ "capability_context" ∷ "integration_context" ∷ []

pub record Memory : Type 0 where
  pub id : String
  pub memory_type : String
  pub key : String
  pub value : Value
  pub capability_id : Option String
  pub created_at : String
  pub updated_at : String
  pub access_count : ℕ
  pub ttl_days : Option ℤ

-- The file: an entry is `none` where it is no object with an id.
pub data MemoryFile : Type 0 where
  absent unreadable : MemoryFile
  entries : List (Option Memory) → MemoryFile

pub record Manager : Type 0 where
  pub memories : Dict Memory
  pub file : MemoryFile
  -- Whether the file can be written.
  pub writable : Bool

unfoldable pub load_entries : Dict Memory → List (Option Memory) → Dict Memory
unfolding insert
load_entries d [] = d
load_entries d (none ∷ items) = load_entries d items
load_entries d (some item ∷ items) = load_entries (insert item.id item d) items

unfoldable pub load : MemoryFile → Dict Memory
unfolding load_entries
load (entries items) = load_entries [] items
load _ = []

-- A manager on a file.
unfoldable pub open_manager : MemoryFile → Bool → Manager
unfolding load
open_manager file writable = record { memories = load file; file = file; writable = writable }

unfoldable pub values : Dict Memory → List Memory
values [] = []
values ((id, r) ∷ d) = r ∷ values d

unfoldable pub save : Manager → Manager
unfolding values
save m = if m.writable then record m { file = entries (map some (values m.memories)) } else m

-- The first record with a key.
unfoldable pub find_key : String → Dict Memory → Option Memory
find_key k [] = none
find_key k ((id, r) ∷ d) = if r.key == k then some r else find_key k d

unfoldable pub find_by_key : String → Dict Memory → Option Memory
unfolding find_key strip
find_by_key key d = find_key (strip key) d

-- The first record with a key is changed in its place.
unfoldable pub revise : String → (Memory → Memory) → Dict Memory → Dict Memory
revise k f [] = []
revise k f ((id, r) ∷ d) = if r.key == k then (id, f r) ∷ d else (id, r) ∷ revise k f d

-- The arguments of `remember`.
pub record Request : Type 0 where
  pub key : String
  pub value : Value
  pub memory_type : String
  pub capability_id : Option String
  pub ttl_days : Option ℤ

abbrev or_old {ℓ} : {A : Type ℓ} → Option A → Option A → Option A
or_old none old = old
or_old (some a) old = some a

unfoldable pub updated : Request → String → Memory → Memory
updated q now r = record r {
  value = q.value;
  updated_at = now;
  memory_type = q.memory_type;
  capability_id = or_old q.capability_id r.capability_id;
  ttl_days = or_old q.ttl_days r.ttl_days;
}

unfoldable pub new_record : Request → String → String → Memory
unfolding strip
new_record q now id = record {
  id = id;
  memory_type = q.memory_type;
  key = strip q.key;
  value = q.value;
  capability_id = q.capability_id;
  created_at = now;
  updated_at = now;
  access_count = 0;
  ttl_days = q.ttl_days;
}

-- The store after `remember` where the arguments are right.
unfoldable pub remembered : Request → String → String → Dict Memory → Dict Memory
unfolding find_by_key revise insert updated new_record
remembered q now id d = elim (find_by_key q.key d) [
  | some r ↦ revise (strip q.key) (updated q now) d
  | none ↦ insert id (new_record q now id) d
]

abbrev record_of : Request → String → String → Option Memory → Memory
record_of q now id (some r) = updated q now r
record_of q now id none = new_record q now id

-- `now` is the time, and `id` the new id that a record gets that is created.
unfoldable pub remember : Request → String → String → Manager → Result Memory × Manager
unfolding strip find_by_key remembered save
remember q now id m =
    if strip q.key == ""
    then (raise ErrorKind.other "Memory key must be a non-empty string.", m)
    else if not (contains memory_types q.memory_type)
    then (raise ErrorKind.other ("Invalid memory type '" ⋯ q.memory_type ⋯ "'."), m)
    else (
      ok (record_of q now id (find_by_key q.key m.memories)),
      save (record m { memories = remembered q now id m.memories }),
    )

unfoldable pub forget : String → Manager → Bool × Manager
unfolding has erase save
forget id m =
    if has id m.memories
    then (true, save (record m { memories = erase id m.memories }))
    else (false, m)

unfoldable pub forget_by_key : String → Manager → Bool × Manager
unfolding find_by_key erase save
forget_by_key key m = elim (find_by_key key m.memories) [
  | some r ↦ (true, save (record m { memories = erase r.id m.memories }))
  | none ↦ (false, m)
]

abbrev accessed : Memory → Memory
accessed r = record r { access_count = r.access_count + 1 }

unfoldable pub recall : String → Manager → Option Value × Manager
unfolding find_by_key revise save
recall key m = elim (find_by_key key m.memories) [
  | none ↦ (none, m)
  | some r ↦ (some r.value, save (record m { memories = revise (strip key) accessed m.memories }))
]

abbrev day : ℕ
day = 86400000000

unfoldable pub erase_all : List String → Dict Memory → Dict Memory
unfolding erase
erase_all [] d = d
erase_all (id ∷ ids) d = erase_all ids (erase id d)

-- `parse_iso` gives the moment that a text names; `now` is the time.
module _ (parse_iso : String → Option ℕ) (now : ℕ) where
  unfoldable pub is_past : Option ℕ → ℕ → Bool
  is_past none ttl = false
  is_past (some created) ttl = ltb (created + ttl * day) now

  unfoldable pub is_expired : Memory → Bool
  unfolding is_past
  is_expired r = elim r.ttl_days [
    | some (pos (suc n)) ↦ is_past (parse_iso r.created_at) (suc n)
    | _ ↦ false
  ]

  -- `to_delete`
  unfoldable pub expired_ids : Dict Memory → List String
  unfolding is_expired
  expired_ids [] = []
  expired_ids ((id, r) ∷ d) = let rest = expired_ids d in if is_expired r then id ∷ rest else rest

  unfoldable pub cleanup_expired : Manager → ℕ × Manager
  unfolding expired_ids erase_all save
  cleanup_expired m =
      let ids = expired_ids m.memories in
      let kept = record m { memories = erase_all ids m.memories } in
      (length ids, if ltb 0 (length ids) then save kept else kept)

abbrev accepts {ℓ} : {A : Type ℓ} → (A → Bool) → Option A → Bool
accepts test none = true
accepts test (some a) = test a

abbrev is_own : Option String → String → Bool
is_own none s = false
is_own (some t) s = t == s

-- Before the first record that is not later.
abbrev place_latest : Memory → List Memory → List Memory
place_latest r [] = r ∷ []
place_latest r (s ∷ rs) =
    let rest = place_latest r rs in
    if text_leb s.updated_at r.updated_at then r ∷ s ∷ rs else s ∷ rest

-- The latest first, and in their old order where the times are the same.
unfoldable pub latest_first : List Memory → List Memory
latest_first [] = []
latest_first (r ∷ rs) = place_latest r (latest_first rs)

unfoldable pub recall_all : Option String → Option String → Manager → List Memory
unfolding values latest_first
recall_all memory_type capability_id m = latest_first (
    keep
      (λ r.
        accepts (λ t. r.memory_type == t) memory_type
        && accepts (λ c. is_own r.capability_id c) capability_id)
      (values m.memories))

unfoldable pub get : String → Manager → Option Memory
unfolding lookup
get id m = lookup id m.memories

unfoldable pub count : Manager → ℕ
count m = length m.memories
