-- ===== src/Memory/Operations.antt =====
-- The operations of a manager of system/core/memory/memory_manager.py, one after another.
use capability_os.Base.{
  ℕ, String, true, Option, List, [], ◌∷◌, contains, length, ltb, if◌then◌else◌, ◌==◌, eq_iff, strip,
  strip_idem, Dict, has, ◌≡◌, ◌≢◌, refl, sym, ◌∙◌, arith, Bool-cases, Option-cases, inl, inr,
}
use capability_os.Memory.{
  memory_types, Memory, Manager, open_manager, save, find_key, find_by_key, Request, updated,
  new_record, remembered, remember, forget, forget_by_key, accessed, recall, expired_ids, erase_all,
  cleanup_expired,
}
use capability_os.Memory.Stores.{
  IsMemory, IsStore, IsStore-insert, IsStore-erase, KeepsRules, IsStore-revise,
}
use capability_os.Memory.Valid.{true_is_false, IsValid, save-IsValid}

pub data Op : Type 0 where
  remembering : Request → String → String → Op
  recalling forgetting forgetting_key : String → Op
  cleaning : ℕ → Op
  -- The process ends, and another one opens the file.
  reopening : Op

unfoldable pub perform : (String → Option ℕ) → Op → Manager → Manager
unfolding remember recall forget forget_by_key cleanup_expired open_manager
perform parse_iso (remembering q now id) m = (remember q now id m).1
perform parse_iso (recalling key) m = (recall key m).1
perform parse_iso (forgetting id) m = (forget id m).1
perform parse_iso (forgetting_key key) m = (forget_by_key key m).1
perform parse_iso (cleaning now) m = (cleanup_expired parse_iso now m).1
perform parse_iso reopening m = open_manager m.file m.writable

IsMemory-new :
    (q : Request) (now id : String)
    → strip q.key ≢ ""
    → contains memory_types q.memory_type ≡ true
    → IsMemory (new_record q now id)
unfolding new_record
IsMemory-new q now id named typed = record {
  stripped = strip_idem q.key;
  filled = named;
  typed = typed;
}

updated-KeepsRules :
    (q : Request) (now : String)
    → contains memory_types q.memory_type ≡ true
    → KeepsRules (updated q now)
unfolding updated
updated-KeepsRules q now typed = record {
  id = λ r. refl;
  key = λ r. refl;
  sound = λ r s. record { stripped = s.stripped; filled = s.filled; typed = typed };
}

accessed-KeepsRules : KeepsRules accessed
accessed-KeepsRules = record {
  id = λ r. refl;
  key = λ r. refl;
  sound = λ r s. record { stripped = s.stripped; filled = s.filled; typed = s.typed };
}

remembered-IsStore :
    (q : Request) (now id : String) (d : Dict Memory)
    → strip q.key ≢ ""
    → contains memory_types q.memory_type ≡ true
    → IsStore d
    → IsStore (remembered q now id d)
unfolding remembered find_by_key new_record
remembered-IsStore q now id d named typed s = elim (Option-cases (find_key (strip q.key) d)) [
  | inl missing ↦
      rw (missing, remembered)
        (IsStore-insert (new_record q now id) d (IsMemory-new q now id named typed) missing s)
  | inr (r, found) ↦
      rw (found, remembered)
        (IsStore-revise (strip q.key) (updated q now) d (updated-KeepsRules q now typed) s)
]

remember-IsValid :
    (q : Request) (now id : String) (m : Manager) → IsValid m → IsValid (remember q now id m).1
unfolding remember
remember-IsValid q now id m v = elim (Bool-cases (strip q.key == "")) [
  | inl blank ↦ rw (blank, remember) v
  | inr filled ↦ elim (Bool-cases (contains memory_types q.memory_type)) [
    | inr untyped ↦ rw (filled, remember) (rw (untyped, remember) v)
    | inl typed ↦
        rw (filled, remember)
          (rw (typed, remember)
            (save-IsValid _
              (remembered-IsStore q now id m.memories
                (λ e. true_is_false (sym ((eq_iff (strip q.key) "").1 e) ∙ filled)) typed v.store)
              v.file_store))
  ]
]

recall-IsValid : (key : String) (m : Manager) → IsValid m → IsValid (recall key m).1
unfolding recall
recall-IsValid key m v = elim (Option-cases (find_by_key key m.memories)) [
  | inl missing ↦ rw (missing, recall) v
  | inr (r, found) ↦
      rw (found, recall)
        (save-IsValid _ (IsStore-revise (strip key) accessed m.memories accessed-KeepsRules v.store)
          v.file_store)
]

forget-IsValid : (id : String) (m : Manager) → IsValid m → IsValid (forget id m).1
unfolding forget
forget-IsValid id m v = elim (Bool-cases (has id m.memories)) [
  | inl there ↦
      rw (there, forget) (save-IsValid _ (IsStore-erase id m.memories v.store) v.file_store)
  | inr missing ↦ rw (missing, forget) v
]

forget_by_key-IsValid : (key : String) (m : Manager) → IsValid m → IsValid (forget_by_key key m).1
unfolding forget_by_key
forget_by_key-IsValid key m v = elim (Option-cases (find_by_key key m.memories)) [
  | inl missing ↦ rw (missing, forget_by_key) v
  | inr (r, found) ↦
      rw (found, forget_by_key)
        (save-IsValid _ (IsStore-erase r.id m.memories v.store) v.file_store)
]

IsStore-erase_all : (ids : List String) (d : Dict Memory) → IsStore d → IsStore (erase_all ids d)
unfolding erase_all
IsStore-erase_all [] d s = s
IsStore-erase_all (id ∷ ids) d s = IsStore-erase_all ids _ (IsStore-erase id d s)

erased-IsValid :
    (ids : List String) (m : Manager)
    → IsValid m
    → IsValid (
        if ltb 0 (length ids)
        then save (record m { memories = erase_all ids m.memories })
        else record m { memories = erase_all ids m.memories })
unfolding erase_all
erased-IsValid [] m v = v
erased-IsValid (id ∷ ids) m v =
    let some_ids : ltb 0 (length (id ∷ ids)) ≡ true = ground arith in
    rw some_ids (save-IsValid _ (IsStore-erase_all (id ∷ ids) m.memories v.store) v.file_store)

reopen-IsValid : (m : Manager) → IsValid m → IsValid (open_manager m.file m.writable)
unfolding open_manager
reopen-IsValid m v = record { store = v.file_store; file_store = v.file_store; saved = λ w. refl }

perform-IsValid :
    (parse_iso : String → Option ℕ) (op : Op) (m : Manager)
    → IsValid m
    → IsValid (perform parse_iso op m)
unfolding perform cleanup_expired
perform-IsValid parse_iso (remembering q now id) m v = remember-IsValid q now id m v
perform-IsValid parse_iso (recalling key) m v = recall-IsValid key m v
perform-IsValid parse_iso (forgetting id) m v = forget-IsValid id m v
perform-IsValid parse_iso (forgetting_key key) m v = forget_by_key-IsValid key m v
perform-IsValid parse_iso (cleaning now) m v =
    erased-IsValid (expired_ids parse_iso now m.memories) m v
perform-IsValid parse_iso reopening m v = reopen-IsValid m v

unfoldable pub perform_all : (String → Option ℕ) → List Op → Manager → Manager
unfolding perform
perform_all parse_iso [] m = m
perform_all parse_iso (op ∷ ops) m = perform_all parse_iso ops (perform parse_iso op m)

-- Through all operations, refused ones and restarts included, a manager stays valid: every record is
-- filed under its own id, no two records have the same id or the same key, every key is stripped and not
-- empty and every type one of the four; and what the file holds is a store of that kind, the same one as
-- in the memory where the file can be written.
pub perform_all-IsValid :
    (parse_iso : String → Option ℕ) (ops : List Op) (m : Manager)
    → IsValid m
    → IsValid (perform_all parse_iso ops m)
unfolding perform_all
perform_all-IsValid parse_iso [] m v = v
perform_all-IsValid parse_iso (op ∷ ops) m v =
    perform_all-IsValid parse_iso ops (perform parse_iso op m) (perform-IsValid parse_iso op m v)
