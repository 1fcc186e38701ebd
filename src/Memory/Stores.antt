-- ===== src/Memory/Stores.antt =====
-- The stores of system/core/memory/memory_manager.py: every record under its own id, and no two records
-- of one key.
use capability_os.Base.{
  String, true, false, none, some, List, [], ◌∷◌, contains, Distinct, ◌==◌, eq_iff, strip, Dict,
  insert, erase, keys, AllValues, Distinct-insert, AllValues-insert, ◌≡◌, ◌≢◌, refl, sym, subst, ap,
  ◌∙◌, arith, Bool-cases, inl, inr,
}
use capability_os.Memory.{memory_types, Memory, find_key, revise}
use capability_os.Memory.Lookups.{KeepsKeys}

pub record IsMemory (r : Memory) : Type 0 where
  pub stripped : strip r.key ≡ r.key
  pub filled : r.key ≢ ""
  pub typed : contains memory_types r.memory_type ≡ true

abbrev pub names : Dict Memory → List String
names [] = []
names ((id, r) ∷ d) = r.key ∷ names d

abbrev pub IsFiled : Dict Memory → Type 0
IsFiled [] = Unit
IsFiled ((id, r) ∷ d) = (r.id ≡ id) × IsFiled d

pub record IsStore (d : Dict Memory) : Type 0 where
  pub filed : IsFiled d
  pub ids : Distinct (keys d)
  pub names : Distinct (names d)
  pub sound : AllValues IsMemory d

pub IsStore-empty : IsStore []
unfolding keys
IsStore-empty = record { filed = tt; ids = tt; names = tt; sound = tt }

-- Of a key that no record has.
names-find_key : (k : String) (d : Dict Memory) → find_key k d ≡ none → contains (names d) k ≡ false
unfolding find_key
names-find_key k [] h = refl
names-find_key k ((id, r) ∷ d) h = elim (Bool-cases (r.key == k)) [
  | inl hit ↦ let same : some r ≡ none = rw hit at h in cc
  | inr miss ↦ rw miss (names-find_key k d (rw miss at h))
]

IsFiled-insert : (r : Memory) (d : Dict Memory) → IsFiled d → IsFiled (insert r.id r d)
unfolding insert
IsFiled-insert r [] h = (refl, tt)
IsFiled-insert r ((i, s) ∷ d) h = elim (Bool-cases (i == r.id)) [
  | inl same ↦ rw same (sym ((eq_iff i r.id).0 same), h.1)
  | inr differs ↦ rw differs (h.0, IsFiled-insert r d h.1)
]

names-insert :
    (id k : String) (r : Memory) (d : Dict Memory)
    → contains (names d) k ≡ false
    → r.key == k ≡ false
    → contains (names (insert id r d)) k ≡ false
unfolding insert
names-insert id k r [] none_there other = rw other refl
names-insert id k r ((i, s) ∷ d) none_there other = elim (Bool-cases (i == id)) [
  | inl same ↦ rw same (ground (arith))
  | inr differs ↦ rw differs (ground (arith, names-insert id k r d))
]

Distinct-names-insert :
    (id : String) (r : Memory) (d : Dict Memory)
    → contains (names d) r.key ≡ false
    → Distinct (names d)
    → Distinct (names (insert id r d))
unfolding insert
Distinct-names-insert id r [] new h = (refl, tt)
Distinct-names-insert id r ((i, s) ∷ d) new h = elim (Bool-cases (i == id)) [
  | inl same ↦ rw same (ground arith, h.1)
  | inr differs ↦ rw differs (
    names-insert id s.key r d h.0 (ground (arith, eq_iff r.key s.key, eq_iff s.key r.key)),
    Distinct-names-insert id r d (ground arith) h.1,
  )
]

pub IsStore-insert :
    (r : Memory) (d : Dict Memory)
    → IsMemory r
    → find_key r.key d ≡ none
    → IsStore d
    → IsStore (insert r.id r d)
IsStore-insert r d sound new s = record {
  filed = IsFiled-insert r d s.filed;
  ids = Distinct-insert r.id r d s.ids;
  names = Distinct-names-insert r.id r d (names-find_key r.key d new) s.names;
  sound = AllValues-insert IsMemory r.id r d sound s.sound;
}

keys-erase :
    (id k : String) (d : Dict Memory)
    → contains (keys d) k ≡ false
    → contains (keys (erase id d)) k ≡ false
unfolding erase keys
keys-erase id k [] h = refl
keys-erase id k ((i, s) ∷ d) h = elim (Bool-cases (i == id)) [
  | inl same ↦ rw same (ground (arith, keys-erase id k d))
  | inr differs ↦ rw differs (ground (arith, keys-erase id k d))
]

names-erase :
    (id k : String) (d : Dict Memory)
    → contains (names d) k ≡ false
    → contains (names (erase id d)) k ≡ false
unfolding erase
names-erase id k [] h = refl
names-erase id k ((i, s) ∷ d) h = elim (Bool-cases (i == id)) [
  | inl same ↦ rw same (ground (arith, names-erase id k d))
  | inr differs ↦ rw differs (ground (arith, names-erase id k d))
]

IsStore-tail : (i : String) (r : Memory) (d : Dict Memory) → IsStore ((i, r) ∷ d) → IsStore d
unfolding keys
IsStore-tail i r d s = record {
  filed = s.filed.1;
  ids = s.ids.1;
  names = s.names.1;
  sound = s.sound.1;
}

pub IsStore-erase : (id : String) (d : Dict Memory) → IsStore d → IsStore (erase id d)
unfolding erase keys
IsStore-erase id [] s = IsStore-empty
IsStore-erase id ((i, r) ∷ d) s =
    let rest = IsStore-erase id d (IsStore-tail i r d s) in
    elim (Bool-cases (i == id)) [
      | inl same ↦ rw same rest
      | inr differs ↦ rw differs (record {
        filed = (s.filed.0, rest.filed);
        ids = (keys-erase id i d s.ids.0, rest.ids);
        names = (names-erase id r.key d s.names.0, rest.names);
        sound = (s.sound.0, rest.sound);
      })
    ]

-- A change that keeps id and key, and what the rules ask of a record.
pub record KeepsRules (f : Memory → Memory) : Type 0 where
  pub id : (r : Memory) → (f r).id ≡ r.id
  pub key : KeepsKeys f
  pub sound : (r : Memory) → IsMemory r → IsMemory (f r)

keys-revise : (k : String) (f : Memory → Memory) (d : Dict Memory) → keys (revise k f d) ≡ keys d
unfolding revise keys
keys-revise k f [] = refl
keys-revise k f ((i, r) ∷ d) = elim (Bool-cases (r.key == k)) [
  | inl hit ↦ rw hit refl
  | inr miss ↦ rw miss (ap (λ l. i ∷ l) (keys-revise k f d))
]

names-revise :
    (k : String) (f : Memory → Memory) (d : Dict Memory)
    → KeepsKeys f
    → names (revise k f d) ≡ names d
unfolding revise
names-revise k f [] same = refl
names-revise k f ((i, r) ∷ d) same = elim (Bool-cases (r.key == k)) [
  | inl hit ↦ rw hit (ap (λ x. x ∷ names d) (same r))
  | inr miss ↦ rw miss (ap (λ l. r.key ∷ l) (names-revise k f d same))
]

revised_rules :
    (k : String) (f : Memory → Memory) (d : Dict Memory)
    → KeepsRules f
    → IsFiled d
    → AllValues IsMemory d
    → IsFiled (revise k f d) × AllValues IsMemory (revise k f d)
unfolding revise
revised_rules k f [] rules filed sound = (tt, tt)
revised_rules k f ((i, r) ∷ d) rules filed sound = elim (Bool-cases (r.key == k)) [
  | inl hit ↦ rw hit ((rules.id r ∙ filed.0, filed.1), (rules.sound r sound.0, sound.1))
  | inr miss ↦
      let (filed', sound') = revised_rules k f d rules filed.1 sound.1 in
      rw miss ((filed.0, filed'), (sound.0, sound'))
]

pub IsStore-revise :
    (k : String) (f : Memory → Memory) (d : Dict Memory)
    → KeepsRules f
    → IsStore d
    → IsStore (revise k f d)
IsStore-revise k f d rules s =
    let (filed, sound) = revised_rules k f d rules s.filed s.sound in
    record {
      filed = filed;
      ids = subst Distinct (sym (keys-revise k f d)) s.ids;
      names = subst Distinct (sym (names-revise k f d rules.key)) s.names;
      sound = sound;
    }
