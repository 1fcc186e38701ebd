-- ===== src/Planning/Plans/Inputs.antt =====
-- What the errors of a step's inputs mean, for system/core/planning/plan_validator.py.
use mathlib.Core.Bool.{false≢true}
use capability_os.Base.{
  String, true, false, Option, none, some, [], ◌==◌, eq_iff, strip, ◌≡◌, ◌≢◌, ◌↔◌, ◌⊎◌, inl, inr,
  refl, sym, ap, ◌∙◌, arith, Bool-cases,
}
use capability_os.Value.{Value, null, bool, text, dict, Fields, end, field, get}
use capability_os.Planning.Plans.{
  nonblank, is_true, is_required, is_none, missing_required, step_inputs,
}

-- A text that is not blank, and what is left when it is stripped.
abbrev pub Names : Option Value → String → Type 0
Names o s = (t : String) × (o ≡ some (text t)) × (strip t ≡ s) × (s ≢ "")

nonblank-Names : (o : Option Value) (s : String) → nonblank o ≡ some s → Names o s
unfolding nonblank
nonblank-Names (some (text t)) s h = elim (Bool-cases (strip t == "")) [
  | inl blank ↦ absurd (ground arith)
  | inr filled ↦
      let same : strip t ≡ s = ground arith in
      (t, refl, same, λ e. false≢true (sym filled ∙ (eq_iff (strip t) "").1 (same ∙ e)))
]
nonblank-Names none s h = absurd (cc)
nonblank-Names o s h = absurd (cc)

Names-nonblank : (o : Option Value) (s : String) → Names o s → nonblank o ≡ some s
unfolding nonblank
Names-nonblank o s (t, e, same, filled) =
    let kept : strip t == "" ≡ false = elim (Bool-cases (strip t == "")) [
      | inl blank ↦ absurd (filled (sym same ∙ (eq_iff (strip t) "").0 blank))
      | inr differs ↦ differs
    ] in
    rw e (rw (kept, nonblank) (ap some same))

pub nonblank_iff : (o : Option Value) (s : String) → (nonblank o ≡ some s) ↔ Names o s
nonblank_iff o s = (nonblank-Names o s, Names-nonblank o s)

-- The inputs of a step: none at all, None, or a dict.
abbrev pub InputsAre : Option Value → Fields → Type 0
InputsAre o d = ((o ≡ none) × (d ≡ end)) ⊎ (((o ≡ some null) × (d ≡ end)) ⊎ (o ≡ some (dict d)))

pub step_inputs-InputsAre : (o : Option Value) (d : Fields) → step_inputs o ≡ some d → InputsAre o d
unfolding step_inputs
step_inputs-InputsAre none d h = inl (refl, (cc))
step_inputs-InputsAre (some null) d h = inr (inl (refl, (cc)))
step_inputs-InputsAre (some (dict e)) d h = inr (inr (cc))
step_inputs-InputsAre (some v) d h = absurd (cc)

pub InputsAre-step_inputs : (o : Option Value) (d : Fields) → InputsAre o d → step_inputs o ≡ some d
unfolding step_inputs
InputsAre-step_inputs o d (inl (e, f)) = rw (e, f) refl
InputsAre-step_inputs o d (inr (inl (e, f))) = rw (e, f) refl
InputsAre-step_inputs o d (inr (inr e)) = rw e refl

abbrev pub Requires : Value → Type 0
Requires v = (c : Fields) × (v ≡ dict c) × (get "required" c ≡ some (bool true))

is_true_iff : (o : Option Value) → (is_true o ≡ true) ↔ (o ≡ some (bool true))
is_true_iff (some (bool b)) = ((λ h. cc), λ h. cc)
is_true_iff none = ((λ h. absurd (cc)), λ h. cc)
is_true_iff o = ((λ h. absurd (cc)), λ h. cc)

required_field :
    {c d : Fields}
    → dict c ≡ dict d
    → get "required" d ≡ some (bool true)
    → get "required" c ≡ some (bool true)
required_field same h = cc

is_required_iff : (v : Value) → (is_required v ≡ true) ↔ Requires v
unfolding is_required
is_required_iff (dict c) = (
  (λ h. (c, refl, (is_true_iff (get "required" c)).0 h)),
  λ h. (is_true_iff (get "required" c)).1 (required_field h.1 h.2),
)
is_required_iff null = ((λ h. absurd (cc)), λ h. let e = h.1 in cc)
is_required_iff v = ((λ h. absurd (cc)), λ h. let e = h.1 in cc)

-- A value that is not None.
abbrev pub Given : Option Value → Type 0
Given o = (v : Value) × (o ≡ some v) × (v ≢ null)

is_none_iff : (o : Option Value) → (is_none o ≡ false) ↔ Given o
unfolding is_none
is_none_iff none = ((λ h. absurd (cc)), λ h. let e = h.1 in cc)
is_none_iff (some null) = ((λ h. absurd (cc)), λ h. let e = h.1 in let n = h.2 in absurd (n (cc)))
is_none_iff (some v) = ((λ h. (v, refl, λ e. cc)), λ h. refl)

-- Each field that the contract requires has a value.
abbrev pub AllGiven : Fields → Fields → Type 0
AllGiven end inputs = Unit
AllGiven (field name c d) inputs = (Requires c → Given (get name inputs)) × AllGiven d inputs

pub missing_required_iff :
    (d inputs : Fields) → (missing_required d inputs ≡ []) ↔ AllGiven d inputs
unfolding missing_required
missing_required_iff end inputs = ((λ h. tt), λ h. refl)
missing_required_iff (field name c d) inputs =
    let rest = missing_required_iff d inputs in
    let required = is_required_iff c in
    let given = is_none_iff (get name inputs) in
    elim (Bool-cases (is_required c)) [
      | inr optional ↦
          rw (optional, missing_required)
            (
              (λ h. ((λ r. absurd (false≢true (sym optional ∙ required.1 r))), rest.0 h)),
              λ h. rest.1 h.1,
            )
      | inl wanted ↦ elim (Bool-cases (is_none (get name inputs))) [
        | inl absent ↦
            rw (wanted, missing_required)
              (rw (absent, missing_required)
                (
                  (λ h. absurd (cc)),
                  λ h. absurd (false≢true (sym (given.1 (h.0 (required.0 wanted))) ∙ absent)),
                ))
        | inr present ↦
            rw (wanted, missing_required)
              (rw (present, missing_required)
                ((λ h. ((λ r. given.0 present), rest.0 h)), λ h. rest.1 h.1))
      ]
    ]
