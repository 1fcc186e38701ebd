-- ===== src/Sequences/Accepted.antt =====
-- What system/core/sequences/model.py accepts as a sequence.
use capability_os.Base.{
  ℕ, suc, String, Bool, true, false, Option, none, some, List, [], ◌∷◌, contains, strip, show_int,
  pos, All, ◌≡◌, ◌≢◌, ◌⊎◌, refl, subst, arith, Bool-cases, Option-cases, inl, inr,
}
use capability_os.Value.{Value, null, text, dict, Items, nil, cons, Fields, get}
use capability_os.State.Scan.{Piece, plain, token, scan}
use capability_os.Exec.{Failure, Result, ok, err}
use capability_os.Sequences.{
  SequenceStep, SequenceDefinition, is_sequence_id, is_capability_id, is_supported, referenced_step,
  is_available, field_strings, check_expression, check_pieces, check_strings,
  validate_step_templates, text_with, dict_value, parse_fields, parse_step, parse_steps,
}

-- A variable of one of the allowed forms; where it names a step, the step is one of those before.
abbrev pub IsReference : List String → String → Type 0
IsReference available expr =
    (is_supported expr ≡ true)
    × ((id : String) → referenced_step expr ≡ some id → contains available id ≡ true)

abbrev pub AllTokens : (String → Type 0) → List Piece → Type 0
AllTokens P [] = Unit
AllTokens P (plain s ∷ ps) = AllTokens P ps
AllTokens P (token inner ∷ ps) = P (strip inner) × AllTokens P ps

-- The templates in the inputs of each step name steps before it.
abbrev pub ReferBack : List String → List SequenceStep → Type 0
ReferBack available [] = Unit
ReferBack available (s ∷ steps) =
    All (λ t. AllTokens (IsReference available) (scan t)) (field_strings s.inputs)
    × ReferBack (s.step_id ∷ available) steps

abbrev pub NewIds : List String → List SequenceStep → Type 0
NewIds seen [] = Unit
NewIds seen (s ∷ steps) = (contains seen s.step_id ≡ false) × NewIds (s.step_id ∷ seen) steps

abbrev pub Canonical : SequenceStep → Type 0
Canonical s = (is_sequence_id s.step_id ≡ true) × (is_capability_id s.capability ≡ true)

pub record IsSequence (d : SequenceDefinition) : Type 0 where
  pub id : is_sequence_id d.sequence_id ≡ true
  pub named : d.name ≢ ""
  pub stripped : strip d.name ≡ d.name
  pub some_steps : d.steps ≢ []
  pub canonical : All Canonical d.steps
  pub new_ids : NewIds [] d.steps
  pub refer_back : ReferBack [] d.steps

pub err_is_ok {ℓ} : {A : Type ℓ} {e : Failure} {a : A} → ¬ (err e ≡ ok a)
err_is_ok h = cc

pub ok_injective {ℓ} : {A : Type ℓ} {a b : A} → ok a ≡ ok b → a ≡ b
ok_injective h = cc

pub text_with_ok :
    (test : String → Bool) (o : Option Value) (s : String)
    → text_with test o ≡ some s
    → test s ≡ true
text_with_ok test (some (text t)) s h = elim (Bool-cases (test t)) [
  | inl passes ↦ let same : t ≡ s = ground arith in subst (λ x. test x ≡ true) same passes
  | inr fails ↦ absurd (ground arith)
]
text_with_ok test none s h = cc
text_with_ok test o s h = cc

parse_fields-Canonical :
    (index : String) (d : Fields) (s : SequenceStep) → parse_fields index d ≡ ok s → Canonical s
unfolding parse_fields
parse_fields-Canonical index d s h =
    elim (Option-cases (text_with is_sequence_id (get "step_id" d))) [
      | inl e ↦ absurd (err_is_ok (rw (e, parse_fields) at h))
      | inr (id, e) ↦
          let h1 = rw (e, parse_fields) at h in
          elim (Option-cases (text_with is_capability_id (get "capability" d))) [
            | inl e' ↦ absurd (err_is_ok (rw (e', parse_fields) at h1))
            | inr (capability, e') ↦
                let h2 = rw (e', parse_fields) at h1 in
                elim (Option-cases (dict_value (get "inputs" d))) [
                  | inl e2 ↦ absurd (err_is_ok (rw (e2, parse_fields) at h2))
                  | inr (inputs, e2) ↦
                      subst Canonical (ok_injective (rw (e2, parse_fields) at h2)) (
                        text_with_ok is_sequence_id (get "step_id" d) id e,
                        text_with_ok is_capability_id (get "capability" d) capability e',
                      )
                ]
          ]
    ]

parse_step-Canonical :
    (index : String) (v : Value) (s : SequenceStep) → parse_step index v ≡ ok s → Canonical s
unfolding parse_step
parse_step-Canonical index (dict d) s h = parse_fields-Canonical index d s h
parse_step-Canonical index null s h = absurd (err_is_ok h)
parse_step-Canonical index v s h = absurd (err_is_ok h)

pub Result-cases {ℓ} :
    {A : Type ℓ} (r : Result A) → ((e : Failure) × (r ≡ err e)) ⊎ ((a : A) × (r ≡ ok a))
Result-cases (err e) = inl (e, refl)
Result-cases (ok a) = inr (a, refl)

pub parse_steps-NewIds :
    (index : ℕ) (seen : List String) (l : Items) (steps : List SequenceStep)
    → parse_steps index seen l ≡ ok steps
    → NewIds seen steps × All Canonical steps
unfolding parse_steps
parse_steps-NewIds index seen nil steps h =
    subst (λ x. NewIds seen x × All Canonical x) (ok_injective h) (tt, tt)
parse_steps-NewIds index seen (cons v l) steps h =
    elim (Result-cases (parse_step (show_int (pos index)) v)) [
      | inl (f, e) ↦ absurd (err_is_ok (rw (e, parse_steps) at h))
      | inr (s, e) ↦
          let h1 = rw (e, parse_steps) at h in
          elim (Bool-cases (contains seen s.step_id)) [
            | inl double ↦ absurd (err_is_ok (rw (double, parse_steps) at h1))
            | inr new ↦
                let h2 = rw (new, parse_steps) at h1 in
                elim (Result-cases (parse_steps (suc index) (s.step_id ∷ seen) l)) [
                  | inl (f, e') ↦ absurd (err_is_ok (rw (e', parse_steps) at h2))
                  | inr (rest, e') ↦
                      let (new_ids, canonical) =
                        parse_steps-NewIds (suc index) (s.step_id ∷ seen) l rest e' in
                      subst (λ x. NewIds seen x × All Canonical x)
                        (ok_injective (rw (e', parse_steps) at h2))
                        (
                          (new, new_ids),
                          (parse_step-Canonical (show_int (pos index)) v s e, canonical),
                        )
                ]
          ]
    ]

available_of :
    (available : List String) (o : Option String) (id : String)
    → is_available available o ≡ true
    → o ≡ some id
    → contains available id ≡ true
available_of available o id h e = subst (λ x. is_available available x ≡ true) e h

check_expression-IsReference :
    (step_id : String) (available : List String) (expr : String) (u : Unit {0})
    → check_expression step_id available expr ≡ ok u
    → IsReference available expr
unfolding check_expression
check_expression-IsReference step_id available expr u h = elim (Bool-cases (is_supported expr)) [
  | inr unsupported ↦ absurd (err_is_ok (rw (unsupported, check_expression) at h))
  | inl supported ↦
      let h1 = rw (supported, check_expression) at h in
      elim (Bool-cases (is_available available (referenced_step expr))) [
        | inr early ↦ absurd (err_is_ok (rw (early, check_expression) at h1))
        | inl there ↦ (supported, λ id e. available_of available (referenced_step expr) id there e)
      ]
]

check_pieces-AllTokens :
    (step_id : String) (available : List String) (ps : List Piece) (u : Unit {0})
    → check_pieces step_id available ps ≡ ok u
    → AllTokens (IsReference available) ps
unfolding check_pieces
check_pieces-AllTokens step_id available [] u h = tt
check_pieces-AllTokens step_id available (plain s ∷ ps) u h =
    check_pieces-AllTokens step_id available ps u h
check_pieces-AllTokens step_id available (token inner ∷ ps) u h =
    elim (Result-cases (check_expression step_id available (strip inner))) [
      | inl (f, e) ↦ absurd (err_is_ok (rw (e, check_pieces) at h))
      | inr (t, e) ↦ (
        check_expression-IsReference step_id available (strip inner) t e,
        check_pieces-AllTokens step_id available ps u (rw (e, check_pieces) at h),
      )
    ]

check_strings-All :
    (step_id : String) (available ss : List String) (u : Unit {0})
    → check_strings step_id available ss ≡ ok u
    → All (λ t. AllTokens (IsReference available) (scan t)) ss
unfolding check_strings
check_strings-All step_id available [] u h = tt
check_strings-All step_id available (s ∷ ss) u h =
    elim (Result-cases (check_pieces step_id available (scan s))) [
      | inl (f, e) ↦ absurd (err_is_ok (rw (e, check_strings) at h))
      | inr (t, e) ↦ (
        check_pieces-AllTokens step_id available (scan s) t e,
        check_strings-All step_id available ss u (rw (e, check_strings) at h),
      )
    ]

pub validate-ReferBack :
    (available : List String) (steps : List SequenceStep) (u : Unit {0})
    → validate_step_templates available steps ≡ ok u
    → ReferBack available steps
unfolding validate_step_templates
validate-ReferBack available [] u h = tt
validate-ReferBack available (s ∷ steps) u h =
    elim (Result-cases (check_strings s.step_id available (field_strings s.inputs))) [
      | inl (f, e) ↦ absurd (err_is_ok (rw (e, validate_step_templates) at h))
      | inr (t, e) ↦ (
        check_strings-All s.step_id available (field_strings s.inputs) t e,
        validate-ReferBack (s.step_id ∷ available) steps u (rw (e, validate_step_templates) at h),
      )
    ]
