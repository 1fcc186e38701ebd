-- ===== src/Memory/Expiry.antt =====
-- `cleanup_expired` of system/core/memory/memory_manager.py against a filter of the store.
use capability_os.Base.{
  ℕ, ◌+◌, String, Bool, true, false, not, Option, List, [], ◌∷◌, keep, contains, length, Distinct,
  if◌then◌else◌, ◌==◌, eq_iff, eq_refl, Dict, erase, keys, ◌≡◌, refl, ap, ◌∙◌, arith, Bool-cases,
  inl, inr,
}
use capability_os.Memory.{
  Memory, Manager, save, is_expired, expired_ids, erase_all, cleanup_expired,
}
use capability_os.Memory.Recalled.{save-memories}
use capability_os.Memory.Stores.{IsStore}

erase-absent : (id : String) (d : Dict Memory) → contains (keys d) id ≡ false → erase id d ≡ d
unfolding erase keys
erase-absent id [] h = refl
erase-absent id ((i, r) ∷ d) h =
    let differs : i == id ≡ false = ground arith in
    rw differs (ap (λ l. (i, r) ∷ l) (erase-absent id d (ground arith)))

erase_all-cons :
    (ids : List String) (i : String) (r : Memory) (d : Dict Memory)
    → contains ids i ≡ false
    → erase_all ids ((i, r) ∷ d) ≡ (i, r) ∷ erase_all ids d
unfolding erase_all erase
erase_all-cons [] i r d h = refl
erase_all-cons (id ∷ ids) i r d h =
    let differs : i == id ≡ false = ground (arith, eq_iff id i, eq_iff i id) in
    rw differs (erase_all-cons ids i r (erase id d) (ground arith))

module _ (parse_iso : String → Option ℕ) (now : ℕ) where
  expired_ids-absent :
      (id : String) (d : Dict Memory)
      → contains (keys d) id ≡ false
      → contains (expired_ids parse_iso now d) id ≡ false
  unfolding expired_ids keys
  expired_ids-absent id [] h = refl
  expired_ids-absent id ((i, r) ∷ d) h =
      let rest = expired_ids-absent id d (ground arith) in
      elim (Bool-cases (is_expired parse_iso now r)) [
        | inl past ↦ rw past (ground arith)
        | inr fresh ↦ rw fresh rest
      ]

  -- The records that have not expired.
  abbrev pub current : Dict Memory → Dict Memory
  current d = keep (λ e. not (is_expired parse_iso now e.1)) d

  erase_all-expired :
      (d : Dict Memory) → Distinct (keys d) → erase_all (expired_ids parse_iso now d) d ≡ current d
  unfolding erase_all expired_ids keys erase
  erase_all-expired [] h = refl
  erase_all-expired ((i, r) ∷ d) h =
      let gone = expired_ids-absent i d h.0 in
      elim (Bool-cases (is_expired parse_iso now r)) [
        | inl past ↦ rw past (
            ap
              (λ b.
                erase_all (expired_ids parse_iso now d)
                  (if b then erase i d else (i, r) ∷ erase i d))
              (eq_refl i)
            ∙ ap (erase_all (expired_ids parse_iso now d)) (erase-absent i d h.0)
            ∙ erase_all-expired d h.1)
        | inr fresh ↦ rw fresh (
            erase_all-cons (expired_ids parse_iso now d) i r d gone
            ∙ ap (λ l. (i, r) ∷ l) (erase_all-expired d h.1))
      ]

  length-expired :
      (d : Dict Memory) → length (expired_ids parse_iso now d) + length (current d) ≡ length d
  unfolding expired_ids
  length-expired [] = refl
  length-expired ((i, r) ∷ d) =
      let rest = length-expired d in
      elim (Bool-cases (is_expired parse_iso now r)) [
        | inl past ↦ rw past (omega arith)
        | inr fresh ↦ rw fresh (omega arith)
      ]

  if_saved : (b : Bool) (m : Manager) → (if b then save m else m).memories ≡ m.memories
  if_saved true m = save-memories m
  if_saved false m = refl

  -- Of a valid store, the cleanup leaves exactly the records that have not expired, in their order, and
  -- returns how many there were besides.
  pub cleanup_expired-current :
      (m : Manager)
      → IsStore m.memories
      → ((cleanup_expired parse_iso now m).1.memories ≡ current m.memories)
        × ((cleanup_expired parse_iso now m).0 + length (current m.memories) ≡ length m.memories)
  unfolding cleanup_expired
  cleanup_expired-current m s =
      (if_saved _ _ ∙ erase_all-expired m.memories s.ids, length-expired m.memories)
