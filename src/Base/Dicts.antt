-- ===== src/Base/Dicts.antt =====
-- Python's `dict` with text keys, in insertion order: an assignment to an old key keeps its place,
-- and a new key goes to the end.
use Prim.Native.String.{String}
use mathlib.Core.Path.{◌≡◌, refl, subst, ◌∙◌}
use mathlib.Core.Bool.{Bool, true, false, ◌||◌}
use mathlib.Core.List.{List, [], ◌∷◌}
use mathlib.Core.Option.{Option, none, some}
use native.Mathlib.Omega.{arith}
use text.Mathlib.Text.{◌==◌}
use text.Mathlib.TextEquality.{eq_iff}
use text.Mathlib.TextPositions.{eq_refl}
use mathlib.Core.Logic.{inl, inr}
use capability_os.Base.Tests.{if◌then◌else◌, Bool-cases}
use capability_os.Base.Lists.{contains, Distinct}

abbrev pub Dict {ℓ} : Type ℓ → Type ℓ
Dict V = List (String × V)

module _ {ℓ} {V : Type ℓ} where
  -- d.get(k)
  unfoldable pub lookup : String → Dict V → Option V
  lookup k [] = none
  lookup k ((j, v) ∷ d) = if j == k then some v else lookup k d

  -- d[k] = v
  unfoldable pub insert : String → V → Dict V → Dict V
  insert k v [] = (k, v) ∷ []
  insert k v ((j, w) ∷ d) = if j == k then (j, v) ∷ d else (j, w) ∷ insert k v d

  -- del d[k]
  unfoldable pub erase : String → Dict V → Dict V
  erase k [] = []
  erase k ((j, w) ∷ d) = let rest = erase k d in if j == k then rest else (j, w) ∷ rest

  -- k in d
  unfoldable pub has : String → Dict V → Bool
  has k [] = false
  has k ((j, w) ∷ d) = if j == k then true else has k d

  unfoldable pub keys : Dict V → List String
  keys [] = []
  keys ((j, w) ∷ d) = j ∷ keys d

  pub lookup-insert :
      (k j : String) (v : V) (d : Dict V)
      → lookup j (insert k v d) ≡ (if k == j then some v else lookup j d)
  unfolding lookup insert
  lookup-insert k j v [] = refl
  lookup-insert k j v ((i, w) ∷ d) =
      ground (arith, eq_iff k j, eq_iff i k, eq_iff i j, lookup-insert k j v d)

  pub lookup-own : (k : String) (v : V) (d : Dict V) → lookup k (insert k v d) ≡ some v
  lookup-own k v d = lookup-insert k k v d ∙ rw (eq_refl k) refl

  pub lookup-erase :
      (k j : String) (d : Dict V) → lookup j (erase k d) ≡ (if k == j then none else lookup j d)
  unfolding lookup erase
  lookup-erase k j [] = ground arith
  lookup-erase k j ((i, w) ∷ d) =
      ground (arith, eq_iff k j, eq_iff i k, eq_iff i j, lookup-erase k j d)

  pub has-insert :
      (k j : String) (v : V) (d : Dict V)
      → has j (insert k v d) ≡ (if k == j then true else has j d)
  unfolding has insert
  has-insert k j v [] = refl
  has-insert k j v ((i, w) ∷ d) =
      ground (arith, eq_iff k j, eq_iff i k, eq_iff i j, has-insert k j v d)

-- What holds of every value of a dict.
abbrev pub AllValues {ℓ κ} : {V : Type ℓ} → (V → Type κ) → Dict V → Type κ
AllValues P [] = Unit
AllValues P ((k, v) ∷ d) = P v × AllValues P d

some-injective {ℓ} : {V : Type ℓ} {u v : V} → some u ≡ some v → u ≡ v
some-injective h = cc

module _ {ℓ κ} {V : Type ℓ} (P : V → Type κ) where
  pub AllValues-insert :
      (k : String) (v : V) (d : Dict V) → P v → AllValues P d → AllValues P (insert k v d)
  unfolding insert
  AllValues-insert k v [] h all = (h, tt)
  AllValues-insert k v ((j, w) ∷ d) h all = elim (Bool-cases (j == k)) [
    | inl same ↦ rw same (h, all.1)
    | inr differs ↦ rw differs (all.0, AllValues-insert k v d h all.1)
  ]

  pub AllValues-erase : (k : String) (d : Dict V) → AllValues P d → AllValues P (erase k d)
  unfolding erase
  AllValues-erase k [] all = tt
  AllValues-erase k ((j, w) ∷ d) all = elim (Bool-cases (j == k)) [
    | inl same ↦ rw same (AllValues-erase k d all.1)
    | inr differs ↦ rw differs (all.0, AllValues-erase k d all.1)
  ]

  pub AllValues-lookup :
      (k : String) (v : V) (d : Dict V) → lookup k d ≡ some v → AllValues P d → P v
  unfolding lookup
  AllValues-lookup k v [] found all = cc
  AllValues-lookup k v ((j, w) ∷ d) found all = elim (Bool-cases (j == k)) [
    | inl same ↦
        let found' = subst (λ b. (if b then some w else lookup k d) ≡ some v) same found in
        subst P (some-injective found') all.0
    | inr differs ↦
        AllValues-lookup k v d
          (subst (λ b. (if b then some w else lookup k d) ≡ some v) differs found) all.1
  ]

pub contains-keys-insert :
    {V : Type 0} (k j : String) (v : V) (d : Dict V)
    → contains (keys (insert k v d)) j ≡ contains (keys d) j || k == j
unfolding keys insert
contains-keys-insert k j v [] = ground arith
contains-keys-insert k j v ((i, w) ∷ d) =
    ground (arith, eq_iff i k, eq_iff k j, eq_iff i j, contains-keys-insert k j v d)

pub Distinct-insert :
    {V : Type 0} (k : String) (v : V) (d : Dict V)
    → Distinct (keys d)
    → Distinct (keys (insert k v d))
unfolding keys insert
Distinct-insert k v [] h = (refl, tt)
Distinct-insert k v ((j, w) ∷ d) h = elim (Bool-cases (j == k)) [
  | inl same ↦ rw same h
  | inr differs ↦
      let apart : k == j ≡ false = ground (arith, eq_iff j k, eq_iff k j) in
      rw differs (contains-keys-insert k j v d ∙ rw (h.0, apart) refl, Distinct-insert k v d h.1)
]

pub ruleset dict_laws = (lookup-insert, lookup-erase, has-insert)
