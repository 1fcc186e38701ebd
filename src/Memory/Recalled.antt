-- ===== src/Memory/Recalled.antt =====
-- What `recall` of system/core/memory/memory_manager.py gives after `remember`.
use capability_os.Base.{
  String, true, false, Option, none, some, contains, if◌then◌else◌, ◌==◌, eq_iff, strip, Dict, has,
  ◌≡◌, ◌≢◌, refl, sym, subst, ap, ◌∙◌, Bool-cases, Option-cases, inl, inr,
}
use capability_os.Memory.{
  memory_types, Memory, Manager, save, find_key, find_by_key, Request, updated, new_record,
  remembered, remember, recall,
}
use capability_os.Memory.Lookups.{map_option, or_else, find_key-revise, find_key-insert, KeepsKeys}

recall-find_by_key :
    (key : String) (m : Manager)
    → (recall key m).0 ≡ map_option (λ r. r.value) (find_by_key key m.memories)
unfolding recall
recall-find_by_key key m = elim (Option-cases (find_by_key key m.memories)) [
  | inl missing ↦ rw (missing, recall) refl
  | inr (r, found) ↦ rw (found, recall) refl
]

pub save-memories : (m : Manager) → (save m).memories ≡ m.memories
unfolding save
save-memories m = elim (Bool-cases m.writable) [
  | inl writes ↦ rw (writes, save) refl
  | inr reads ↦ rw (reads, save) refl
]

updated-KeepsKeys : (q : Request) (now : String) → KeepsKeys (updated q now)
unfolding updated
updated-KeepsKeys q now r = refl

or_else-none {ℓ} : {A : Type ℓ} (o : Option A) → or_else o none ≡ o
or_else-none none = refl
or_else-none (some a) = refl

find-remembered :
    (q : Request) (now id : String) (d : Dict Memory) (k : String)
    → has id d ≡ false
    → map_option (λ r. r.value) (find_key k (remembered q now id d))
      ≡ (if strip q.key == k then some q.value else map_option (λ r. r.value) (find_key k d))
unfolding remembered find_by_key updated new_record
find-remembered q now id d k new = elim (Option-cases (find_key (strip q.key) d)) [
  | inl missing ↦
      rw (missing, remembered)
        (rw (find_key-insert id k (new_record q now id) d new)
          (elim (Bool-cases (strip q.key == k)) [
            | inl hit ↦
                let none_there =
                  subst (λ x. find_key x d ≡ none) ((eq_iff (strip q.key) k).0 hit) missing in
                rw hit (rw none_there refl)
            | inr miss ↦ rw miss (ap (map_option (λ r. r.value)) (or_else-none (find_key k d)))
          ]))
  | inr (r, found) ↦
      rw (found, remembered)
        (rw (find_key-revise (strip q.key) k (updated q now) d (updated-KeepsKeys q now))
          (elim (Bool-cases (strip q.key == k)) [
            | inl hit ↦
                let there =
                  subst (λ x. find_key x d ≡ some r) ((eq_iff (strip q.key) k).0 hit) found in
                rw hit (rw there refl)
            | inr miss ↦ rw miss refl
          ]))
]

remember-memories :
    (q : Request) (now id : String) (m : Manager)
    → strip q.key ≢ ""
    → contains memory_types q.memory_type ≡ true
    → (remember q now id m).1.memories ≡ remembered q now id m.memories
unfolding remember
remember-memories q now id m named typed = elim (Bool-cases (strip q.key == "")) [
  | inl blank ↦ absurd (named ((eq_iff (strip q.key) "").0 blank))
  | inr filled ↦ rw (filled, remember) (rw (typed, remember) (save-memories _))
]

-- What has been remembered under a key is recalled under it, and under each key that differs from it by
-- space around it only; under every other key the same is recalled as before. The key has something
-- other than space, the type is one of the four, and a new record's id is new.
pub recall-remember :
    (q : Request) (now id : String) (m : Manager) (key : String)
    → strip q.key ≢ ""
    → contains memory_types q.memory_type ≡ true
    → has id m.memories ≡ false
    → (recall key (remember q now id m).1).0
      ≡ (if strip q.key == strip key then some q.value else (recall key m).0)
unfolding find_by_key
recall-remember q now id m key named typed new =
    recall-find_by_key key (remember q now id m).1
    ∙ ap (λ d. map_option (λ r. r.value) (find_key (strip key) d))
        (remember-memories q now id m named typed)
    ∙ find-remembered q now id m.memories (strip key) new
    ∙ ap (λ o. if strip q.key == strip key then some q.value else o)
        (sym (recall-find_by_key key m))
