-- ===== src/Memory/Valid.antt =====
-- A manager of system/core/memory/memory_manager.py over its operations: the store and its file.
use mathlib.Core.List.{append-nil}
use capability_os.Base.{
  String, true, false, some, List, [], ◌∷◌, ◌++◌, map, contains, Distinct, All, ◌==◌, eq_iff,
  eq_refl, Dict, insert, has, has-insert, keys, ◌≡◌, refl, sym, subst, ap, ◌∙◌, arith, Bool-cases,
  inl, inr,
}
use capability_os.Memory.{Memory, entries, load_entries, load, Manager, values, save}
use capability_os.Memory.Stores.{IsFiled, IsStore}

pub true_is_false : ¬ (true ≡ false)
true_is_false h = cc

insert-append :
    (i : String) (r : Memory) (acc d : Dict Memory)
    → has i acc ≡ false
    → insert i r acc ++ d ≡ acc ++ ((i, r) ∷ d)
unfolding insert has
insert-append i r [] d new = refl
insert-append i r ((j, s) ∷ acc) d new = elim (Bool-cases (j == i)) [
  | inl same ↦ let bad : true ≡ false = rw same at new in cc
  | inr differs ↦ rw differs (ap (λ l. (j, s) ∷ l) (insert-append i r acc d (rw differs at new)))
]

apart-insert :
    (i : String) (r : Memory) (acc : Dict Memory) (ks : List String)
    → All (λ k. has k acc ≡ false) ks
    → contains ks i ≡ false
    → All (λ k. has k (insert i r acc) ≡ false) ks
apart-insert i r acc [] apart new = tt
apart-insert i r acc (k ∷ ks) apart new =
    let other : i == k ≡ false = ground (arith, eq_iff i k, eq_iff k i, eq_refl k) in
    (has-insert i k r acc ∙ rw other apart.0, apart-insert i r acc ks apart.1 (ground arith))

load_entries-values :
    (acc d : Dict Memory)
    → IsFiled d
    → Distinct (keys d)
    → All (λ k. has k acc ≡ false) (keys d)
    → load_entries acc (map some (values d)) ≡ acc ++ d
unfolding load_entries values keys
load_entries-values acc [] filed ids apart = sym (append-nil acc)
load_entries-values acc ((i, r) ∷ d) filed ids apart =
    ap (λ x. load_entries (insert x r acc) (map some (values d))) filed.0
    ∙ load_entries-values (insert i r acc) d filed.1 ids.1
        (apart-insert i r acc (keys d) apart.1 ids.0)
    ∙ insert-append i r acc d apart.0

nothing_in_empty : (ks : List String) → All (λ k. has {V = Memory} k [] ≡ false) ks
unfolding has
nothing_in_empty [] = tt
nothing_in_empty (k ∷ ks) = (refl, nothing_in_empty ks)

-- What has been written is read again.
load-values : (d : Dict Memory) → IsStore d → load (entries (map some (values d))) ≡ d
unfolding load
load-values d s = load_entries-values [] d s.filed s.ids (nothing_in_empty (keys d))

pub record IsValid (m : Manager) : Type 0 where
  pub store : IsStore m.memories
  pub file_store : IsStore (load m.file)
  pub saved : m.writable ≡ true → load m.file ≡ m.memories

pub save-IsValid : (m : Manager) → IsStore m.memories → IsStore (load m.file) → IsValid (save m)
unfolding save
save-IsValid m s f = elim (Bool-cases m.writable) [
  | inl writes ↦
      rw (writes, save)
        (record {
          store = s;
          file_store = subst IsStore (sym (load-values m.memories s)) s;
          saved = λ w. load-values m.memories s;
        })
  | inr reads ↦
      rw (reads, save)
        (record { store = s; file_store = f; saved = λ w. (let bad : false ≡ true = w in cc) })
]
