-- ===== src/Memory/Lookups.antt =====
-- The record with a key, of system/core/memory/memory_manager.py, after the store's changes.
use capability_os.Base.{
  String, true, false, Option, none, some, [], ◌∷◌, if◌then◌else◌, ◌==◌, eq_iff, Dict, insert, has,
  ◌≡◌, refl, sym, ap, ◌∙◌, arith, Bool-cases, inl, inr,
}
use capability_os.Memory.{Memory, find_key, revise}

abbrev pub map_option {ℓ κ} : {A : Type ℓ} {B : Type κ} → (A → B) → Option A → Option B
map_option f none = none
map_option f (some a) = some (f a)

abbrev pub or_else {ℓ} : {A : Type ℓ} → Option A → Option A → Option A
or_else none o = o
or_else (some a) o = some a

true_is_false : ¬ (true ≡ false)
true_is_false h = cc

some_injective {ℓ} : {A : Type ℓ} {a b : A} → some a ≡ some b → a ≡ b
some_injective h = cc

-- A change that keeps the keys.
abbrev pub KeepsKeys : (Memory → Memory) → Type 0
KeepsKeys f = (r : Memory) → (f r).key ≡ r.key

pub find_key-revise :
    (k j : String) (f : Memory → Memory) (d : Dict Memory)
    → KeepsKeys f
    → find_key j (revise k f d) ≡ (if k == j then map_option f (find_key j d) else find_key j d)
unfolding find_key revise
find_key-revise k j f [] same = ground arith
find_key-revise k j f ((id, r) ∷ d) same =
    let kept : (f r).key == j ≡ r.key == j = ap (λ x. x == j) (same r) in
    elim (Bool-cases (r.key == k)) [
      | inl found ↦ elim (Bool-cases (r.key == j)) [
        | inl hit ↦
            let both : k == j ≡ true = ground (arith, eq_iff r.key k, eq_iff r.key j, eq_iff k j) in
            rw found (rw kept (rw (hit, both) refl))
        | inr miss ↦
            let apart : k == j ≡ false =
              ground (arith, eq_iff r.key k, eq_iff r.key j, eq_iff k j) in
            rw found (rw kept (rw (miss, apart) refl))
      ]
      | inr other ↦ elim (Bool-cases (r.key == j)) [
        | inl hit ↦
            let apart : k == j ≡ false =
              ground (arith, eq_iff r.key k, eq_iff r.key j, eq_iff k j) in
            rw other (rw (hit, apart) refl)
        | inr miss ↦ rw other (rw miss (find_key-revise k j f d same))
      ]
    ]

-- A record with a new id goes to the end.
pub find_key-insert :
    (id j : String) (r : Memory) (d : Dict Memory)
    → has id d ≡ false
    → find_key j (insert id r d) ≡ or_else (find_key j d) (if r.key == j then some r else none)
unfolding find_key insert has
find_key-insert id j r [] new = refl
find_key-insert id j r ((i, s) ∷ d) new = elim (Bool-cases (i == id)) [
  | inl same ↦ absurd (true_is_false (rw same at new))
  | inr differs ↦
      let new' = rw differs at new in
      elim (Bool-cases (s.key == j)) [
        | inl hit ↦ rw differs (rw hit refl)
        | inr miss ↦ rw differs (rw miss (find_key-insert id j r d new'))
      ]
]

pub find_key-key : (k : String) (d : Dict Memory) (r : Memory) → find_key k d ≡ some r → r.key ≡ k
unfolding find_key
find_key-key k [] r h = cc
find_key-key k ((i, s) ∷ d) r h = elim (Bool-cases (s.key == k)) [
  | inl hit ↦
      let same : some s ≡ some r = rw hit at h in
      ap (λ x. x.key) (sym (some_injective same)) ∙ (eq_iff s.key k).0 hit
  | inr miss ↦ find_key-key k d r (rw miss at h)
]
