-- ===== src/Security/Checks.antt =====
-- What system/core/security/security_service.py lets through without a question.
use mathlib.Core.Bool.{false≢true}
use mathlib.Core.List.{Memᴰ}
use capability_os.Base.{
  ℕ, String, Bool, true, false, Option, none, some, List, [], ◌∷◌, ◌++◌, ◌&&◌, ◌||◌, any, ◌==◌,
  eq_iff, eqb, strip, codes, ◌≡◌, ◌≢◌, sym, ◌↔◌, ◌⊎◌, inl, inr, refl, arith, All, any_iff,
  Bool-cases, subst, ap,
}
use capability_os.Value.{Value, null, bool, int, text, list, dict, other, Fields, get}
use capability_os.Security.{
  SecurityService, PathParts, named_text, path_fields, dangerous, write_tools, write_caps,
  is_prefix, occurs, lower, normalized, hits_pattern, is_dangerous,
}

-- The first list stands somewhere in the second.
abbrev pub Within : List ℕ → List ℕ → Type 0
Within xs ys = (before : List ℕ) × (after : List ℕ) × (ys ≡ before ++ xs ++ after)

is_prefix-append : (xs after : List ℕ) → is_prefix xs (xs ++ after) ≡ true
unfolding is_prefix
is_prefix-append [] after = refl
is_prefix-append (x ∷ xs) after = ground (arith, is_prefix-append xs after)

eqb-eq : (x y : ℕ) → eqb x y ≡ true → x ≡ y
eqb-eq x y h = ground arith

pub and_true : (a b : Bool) → a && b ≡ true → (a ≡ true) × (b ≡ true)
and_true a b h = ground arith

prefix_rest : (xs ys : List ℕ) → is_prefix xs ys ≡ true → (after : List ℕ) × (ys ≡ xs ++ after)
unfolding is_prefix
prefix_rest [] ys h = (ys, refl)
prefix_rest (x ∷ xs) [] h = absurd (false≢true h)
prefix_rest (x ∷ xs) (y ∷ ys) h =
    let (same, rest) = and_true (eqb x y) (is_prefix xs ys) h in
    let (after, e) = prefix_rest xs ys rest in let same' = eqb-eq x y same in (after, cc)

occurs-append : (before xs after : List ℕ) → occurs xs (before ++ xs ++ after) ≡ true
unfolding occurs is_prefix
occurs-append [] [] [] = refl
occurs-append [] [] (a ∷ after) = refl
occurs-append [] (x ∷ xs) after = rw (is_prefix-append (x ∷ xs) after) refl
occurs-append (b ∷ before) xs after = ground (arith, occurs-append before xs after)

Within-occurs : (xs ys : List ℕ) → occurs xs ys ≡ true → Within xs ys
unfolding occurs
Within-occurs xs [] h = let (after, e) = prefix_rest xs [] h in ([], after, e)
Within-occurs xs (y ∷ ys) h = elim (Bool-cases (is_prefix xs (y ∷ ys))) [
  | inl begins ↦ let (after, e) = prefix_rest xs (y ∷ ys) begins in ([], after, e)
  | inr later ↦
      let (before, after, e) =
        Within-occurs xs ys (subst (λ b. b || occurs xs ys ≡ true) later h) in
      (y ∷ before, after, ap (λ zs. y ∷ zs) e)
]

absent_iff : (xs ys : List ℕ) → (occurs xs ys ≡ false) ↔ (¬ Within xs ys)
absent_iff xs ys = (
  (λ missed found.
      let (before, after, e) = found in
      let hit = occurs-append before xs after in
      let hit' = subst (λ zs. occurs xs zs ≡ true) (sym e) hit in cc),
  (λ absent. elim (Bool-cases (occurs xs ys)) [
    | inl hit ↦ absurd (absent (Within-occurs xs ys hit))
    | inr missed ↦ missed
  ]),
)

-- The value of an input is a text that is not blank.
abbrev pub Names : Option Value → String → Type 0
Names o v = (o ≡ some (text v)) × (strip v ≢ "")

same_text : (o : Option Value) (u v : String) → o ≡ some (text u) → o ≡ some (text v) → u ≡ v
same_text o u v h k = cc

named_text-cases :
    (o : Option Value)
    → ((v : String) × Names o v × (named_text o ≡ some v))
      ⊎ ((named_text o ≡ none) × ((v : String) → ¬ Names o v))
unfolding named_text
named_text-cases (some (text v)) = elim (Bool-cases (strip v == "")) [
  | inl blank ↦ inr (
    rw blank refl,
    λ u names. names.1 (
        subst (λ w. strip w ≡ "") (same_text (some (text v)) v u refl names.0)
          ((eq_iff (strip v) "").0 blank)),
  )
  | inr full ↦ inl (v, (refl, λ e. ground (arith, eq_iff (strip v) "")), rw full refl)
]
named_text-cases none = inr (refl, λ v names. cc names.0)
named_text-cases (some null) = inr (refl, λ v names. cc names.0)
named_text-cases (some (bool b)) = inr (refl, λ v names. cc names.0)
named_text-cases (some (int n)) = inr (refl, λ v names. cc names.0)
named_text-cases (some (list l)) = inr (refl, λ v names. cc names.0)
named_text-cases (some (dict d)) = inr (refl, λ v names. cc names.0)
named_text-cases (some (other s)) = inr (refl, λ v names. cc names.0)

-- A test of the text that an input names, if it names one.
pub named_iff :
    (test : Option String → Bool) (P : String → Type 0)
    → test none ≡ false
    → ((v : String) → (test (some v) ≡ false) ↔ P v)
    → (o : Option Value) → (test (named_text o) ≡ false) ↔ ((v : String) → Names o v → P v)
named_iff test P nothing reflects o = elim (named_text-cases o) [
  | inl (v, names, e) ↦ rw e (
    (λ h u names'. subst P (same_text o v u names.0 names'.0) ((reflects v).0 h)),
    λ h. (reflects v).1 (h v names),
  )
  | inr (e, unnamed) ↦ rw e ((λ h u names. absurd (unnamed u names)), λ h. nothing)
]

-- No path that an input names holds a critical pattern, in whatever case.
abbrev pub IsUncritical : ℕ → SecurityService → Fields → Type 0
IsUncritical sep s inputs =
    All
      (λ f.
        (v : String)
        → Names (get f inputs) v
        → All (λ p. ¬ Within (lower p) (normalized sep v)) s.critical_patterns)
      path_fields

-- The command, if there is one, holds none of the dangerous words.
abbrev pub IsHarmless : Fields → Type 0
IsHarmless inputs =
    (c : String)
    → get "command" inputs ≡ some (text c)
    → All (λ d. ¬ Within (codes d) (lower (strip c))) dangerous

-- The path can be resolved, to a place in one of the workspaces.
abbrev pub IsInside : (String → Option PathParts) → List PathParts → String → Type 0
IsInside resolve roots v =
    (path : PathParts) × (resolve v ≡ some path)
    × (root : PathParts) × Memᴰ root roots
    × (rest : PathParts) × (path ≡ root ++ rest)

-- A write, where there are workspaces, names no path outside all of them.
abbrev pub IsConfined :
    (String → Option PathParts) → SecurityService → String → String → Fields → Type 0
IsConfined resolve s tool_id capability_id inputs =
    Memᴰ tool_id write_tools ⊎ Memᴰ capability_id write_caps
    → s.workspace_roots ≢ []
    → All (λ f. (v : String) → Names (get f inputs) v → IsInside resolve s.workspace_roots v)
        path_fields

hits_iff :
    (sep : ℕ) (patterns : List String) (o : Option Value)
    → (hits_pattern sep patterns (named_text o) ≡ false)
      ↔ ((v : String) → Names o v → All (λ p. ¬ Within (lower p) (normalized sep v)) patterns)
unfolding hits_pattern
hits_iff sep patterns =
    named_iff (hits_pattern sep patterns)
      (λ v. All (λ p. ¬ Within (lower p) (normalized sep v)) patterns) refl
      (λ v.
        any_iff (λ p. occurs (lower p) (normalized sep v))
          (λ p. ¬ Within (lower p) (normalized sep v))
          (λ p. absent_iff (lower p) (normalized sep v)) patterns)

pub IsUncritical-iff :
    (sep : ℕ) (s : SecurityService) (inputs : Fields)
    → (any (λ f. hits_pattern sep s.critical_patterns (named_text (get f inputs))) path_fields
        ≡ false)
      ↔ IsUncritical sep s inputs
IsUncritical-iff sep s inputs =
    any_iff _ _ (λ f. hits_iff sep s.critical_patterns (get f inputs)) path_fields

command_iff :
    (c : String)
    → (any (λ d. occurs (codes d) (lower (strip c))) dangerous ≡ false)
      ↔ All (λ d. ¬ Within (codes d) (lower (strip c))) dangerous
command_iff c = any_iff _ _ (λ d. absent_iff (codes d) (lower (strip c))) dangerous

pub harmless_iff :
    (o : Option Value)
    → (is_dangerous o ≡ false) ↔ (
        (c : String)
        → o ≡ some (text c)
        → All (λ d. ¬ Within (codes d) (lower (strip c))) dangerous)
unfolding is_dangerous
harmless_iff (some (text v)) = (
  (λ h c e.
      subst (λ u. All (λ d. ¬ Within (codes d) (lower (strip u))) dangerous)
        (same_text _ v c refl e) ((command_iff v).0 h)),
  λ h. (command_iff v).1 (h v refl),
)
harmless_iff none = ((λ h c e. cc), λ h. refl)
harmless_iff (some null) = ((λ h c e. cc), λ h. refl)
harmless_iff (some (bool b)) = ((λ h c e. cc), λ h. refl)
harmless_iff (some (int n)) = ((λ h c e. cc), λ h. refl)
harmless_iff (some (list l)) = ((λ h c e. cc), λ h. refl)
harmless_iff (some (dict d)) = ((λ h c e. cc), λ h. refl)
harmless_iff (some (other s)) = ((λ h c e. cc), λ h. refl)
