-- ===== src/Permissions/Matching.antt =====
-- What `permission_matches` of system/sdk/permissions.py means.
use Prim.Native.Char.{Char}
use Prim.Native.String
use text.Mathlib.TextLemmas.{nil-append, cons-append, length-cons, length-append}
use capability_os.Base.{
  String, ◌≡◌, ◌≢◌, refl, sym, ap, ◌∙◌, ◌↔◌, ◌⊎◌, inl, inr, true, some, arith, ◌==◌, eq_iff,
  eq_refl, ◌⋯◌, strip_prefix, strip_prefix-append, append_of_strip_prefix, strip_suffix, Bool-cases,
  Option-cases, subst,
}
use capability_os.Permissions.{permission_matches, wildcard_matches}

longer : (c : Char) (p q : String) → String.◌∷◌ c (p ⋯ q) ≢ q
longer c p q e =
    let sizes = ap String.count e in omega (arith, length-cons c (p ⋯ q), length-append p q)

strip_suffix-append : (p q : String) → strip_suffix q (p ⋯ q) ≡ some p
unfolding strip_suffix
strip_suffix-append String.[] String.[] = refl
strip_suffix-append String.[] (String.◌∷◌ d q) =
    rw nil-append (ground (arith, eq_refl (String.◌∷◌ d q)))
strip_suffix-append (String.◌∷◌ c p) q =
    rw cons-append
      (rw (strip_suffix-append p q) (ground (arith, eq_iff (String.◌∷◌ c (p ⋯ q)) q, longer c p q)))

append_of_strip_suffix : (q s p : String) → strip_suffix q s ≡ some p → s ≡ p ⋯ q
unfolding strip_suffix
append_of_strip_suffix q String.[] p h =
    let whole : "" ≡ q = (eq_iff "" q).0 (ground arith) in
    let nothing : "" ≡ p = ground arith in
    subst (λ x. "" ≡ x ⋯ q) nothing (whole ∙ sym (nil-append q))
append_of_strip_suffix q (String.◌∷◌ c s) p h = elim (Bool-cases (String.◌∷◌ c s == q)) [
  | inl whole ↦
      let nothing : "" ≡ p = ground arith in
      subst (λ x. String.◌∷◌ c s ≡ x ⋯ q) nothing
        ((eq_iff (String.◌∷◌ c s) q).0 whole ∙ sym (nil-append q))
  | inr part ↦ elim (Option-cases (strip_suffix q s)) [
    | inl nothing ↦ ground arith
    | inr (r, found) ↦
        let kept : String.◌∷◌ c r ≡ p = ground arith in
        subst (λ x. String.◌∷◌ c s ≡ x ⋯ q) kept
          (rw cons-append (ap (String.◌∷◌ c) (append_of_strip_suffix q s r found)))
  ]
]

-- `declared` covers `required` by a wildcard.
abbrev pub IsWildcard : String → String → Type 0
IsWildcard declared required =
    (prefix : String) × (rest : String) × (declared ≡ prefix ⋯ ".*")
    × (required ≡ (prefix ⋯ ".") ⋯ rest)

abbrev pub Covers : String → String → Type 0
Covers declared required = (declared ≡ "*") ⊎ ((declared ≡ required) ⊎ IsWildcard declared required)

IsWildcard-of :
    (declared required : String)
    → wildcard_matches (strip_suffix ".*" declared) required ≡ true
    → IsWildcard declared required
unfolding wildcard_matches
IsWildcard-of declared required h = elim (Option-cases (strip_suffix ".*" declared)) [
  | inl nothing ↦ ground arith
  | inr (prefix, found) ↦ elim (Option-cases (strip_prefix (prefix ⋯ ".") required)) [
    | inl nothing ↦ ground arith
    | inr (rest, covered) ↦ (
      prefix,
      rest,
      append_of_strip_suffix ".*" declared prefix found,
      append_of_strip_prefix (prefix ⋯ ".") required rest covered,
    )
  ]
]

of_wildcard :
    (declared required : String)
    → IsWildcard declared required
    → wildcard_matches (strip_suffix ".*" declared) required ≡ true
unfolding wildcard_matches
of_wildcard declared required (prefix, rest, d, r) =
    rw (d, strip_suffix-append prefix ".*", r, strip_prefix-append (prefix ⋯ ".") rest)

Covers-of_matches :
    (declared required : String)
    → permission_matches declared required ≡ true
    → Covers declared required
unfolding permission_matches
Covers-of_matches declared required h = elim (Bool-cases (declared == "*")) [
  | inl any ↦ inl ((eq_iff declared "*").0 any)
  | inr named ↦ elim (Bool-cases (declared == required)) [
    | inl same ↦ inr (inl ((eq_iff declared required).0 same))
    | inr other ↦ inr (inr (IsWildcard-of declared required (ground arith)))
  ]
]

matches_of_Covers :
    (declared required : String)
    → Covers declared required
    → permission_matches declared required ≡ true
unfolding permission_matches
matches_of_Covers declared required (inl any) = ground (arith, eq_iff declared "*")
matches_of_Covers declared required (inr (inl same)) = ground (arith, eq_iff declared required)
matches_of_Covers declared required (inr (inr w)) = ground (arith, of_wildcard declared required w)

-- A declared permission covers a required one exactly when it is "*", or the same permission, or
-- `prefix.*` where the required permission begins with `prefix.`.
pub permission_matches_iff :
    (declared required : String)
    → (permission_matches declared required ≡ true) ↔ Covers declared required
unfolding permission_matches
permission_matches_iff declared required =
    (Covers-of_matches declared required, matches_of_Covers declared required)
