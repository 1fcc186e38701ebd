-- ===== src/Sequences/Valid.antt =====
-- The sequences that `parse_sequence_definition` of system/core/sequences/model.py returns.
use capability_os.Base.{
  ℕ, suc, String, true, Option, none, some, List, [], ◌∷◌, contains, eq_iff, strip, strip_idem,
  show_int, pos, ◌≡◌, ◌≢◌, refl, subst, ap, ◌∙◌, arith, Bool-cases, Option-cases, inl, inr,
}
use capability_os.Value.{Value, null, list, dict, Items, nil, cons, Fields, get}
use capability_os.Exec.{ok}
use capability_os.Sequences.{
  SequenceStep, SequenceDefinition, is_sequence_id, validate_step_templates, text_with, parse_step,
  parse_steps, full_list, is_named, parse_definition, parse_sequence_definition,
}
use capability_os.Sequences.Accepted.{
  IsSequence, err_is_ok, ok_injective, Result-cases, text_with_ok, parse_steps-NewIds,
  validate-ReferBack,
}

cons_is_nil : {s : SequenceStep} {steps : List SequenceStep} → ¬ (s ∷ steps ≡ [])
cons_is_nil h = cc

full_list-cons : (o : Option Value) (l : Items) → full_list o ≡ some l → l ≢ nil
full_list-cons (some (list (cons v m))) l h e =
    let same : some (cons v m) ≡ some nil = h ∙ ap some e in cc
full_list-cons none l h e = cc
full_list-cons o l h e = cc

parse_steps-ne-nil :
    (index : ℕ) (seen : List String) (l : Items) (steps : List SequenceStep)
    → l ≢ nil
    → parse_steps index seen l ≡ ok steps
    → steps ≢ []
unfolding parse_steps
parse_steps-ne-nil index seen nil steps full h e = full refl
parse_steps-ne-nil index seen (cons v l) steps full h e =
    elim (Result-cases (parse_step (show_int (pos index)) v)) [
      | inl (f, e1) ↦ err_is_ok (rw (e1, parse_steps) at h)
      | inr (s, e1) ↦
          let h1 = rw (e1, parse_steps) at h in
          elim (Bool-cases (contains seen s.step_id)) [
            | inl double ↦ err_is_ok (rw (double, parse_steps) at h1)
            | inr new ↦
                let h2 = rw (new, parse_steps) at h1 in
                elim (Result-cases (parse_steps (suc index) (s.step_id ∷ seen) l)) [
                  | inl (f, e2) ↦ err_is_ok (rw (e2, parse_steps) at h2)
                  | inr (rest, e2) ↦
                      let same : s ∷ rest ≡ steps = ok_injective (rw (e2, parse_steps) at h2) in
                      cons_is_nil (same ∙ e)
                ]
          ]
    ]

named_iff : (s : String) → is_named s ≡ true → strip s ≢ ""
unfolding is_named
named_iff s h e = let blank = (eq_iff (strip s) "").1 e in ground arith

parse_definition-IsSequence :
    (payload : Fields) (d : SequenceDefinition) → parse_definition payload ≡ ok d → IsSequence d
unfolding parse_definition
parse_definition-IsSequence payload d h =
    elim (Option-cases (text_with is_sequence_id (get "id" payload))) [
      | inl e ↦ absurd (err_is_ok (rw (e, parse_definition) at h))
      | inr (id, e) ↦
          let h1 = rw (e, parse_definition) at h in
          elim (Option-cases (text_with is_named (get "name" payload))) [
            | inl e1 ↦ absurd (err_is_ok (rw (e1, parse_definition) at h1))
            | inr (name, e1) ↦
                let h2 = rw (e1, parse_definition) at h1 in
                elim (Option-cases (full_list (get "steps" payload))) [
                  | inl e2 ↦ absurd (err_is_ok (rw (e2, parse_definition) at h2))
                  | inr (l, e2) ↦
                      let h3 = rw (e2, parse_definition) at h2 in
                      elim (Result-cases (parse_steps 0 [] l)) [
                        | inl (f, e3) ↦ absurd (err_is_ok (rw (e3, parse_definition) at h3))
                        | inr (steps, e3) ↦
                            let h4 = rw (e3, parse_definition) at h3 in
                            elim (Result-cases (validate_step_templates [] steps)) [
                              | inl (f, e4) ↦ absurd (err_is_ok (rw (e4, parse_definition) at h4))
                              | inr (u, e4) ↦
                                  let (new_ids, canonical) = parse_steps-NewIds 0 [] l steps e3 in
                                  subst IsSequence (ok_injective (rw (e4, parse_definition) at h4))
                                    (record {
                                      id = text_with_ok is_sequence_id (get "id" payload) id e;
                                      named =
                                          named_iff name
                                            (text_with_ok is_named (get "name" payload) name e1);
                                      stripped = strip_idem name;
                                      some_steps =
                                          parse_steps-ne-nil 0 [] l steps
                                            (full_list-cons (get "steps" payload) l e2) e3;
                                      canonical = canonical;
                                      new_ids = new_ids;
                                      refer_back = validate-ReferBack [] steps u e4;
                                    })
                            ]
                      ]
                ]
          ]
    ]

-- A definition that is accepted has an id and step ids of the canon and capability ids of two words at
-- least, a stripped name that is not empty, and one step at least; no two steps share an id; and a
-- template in a step's inputs, however deep, is of an allowed form and names only steps before it.
pub parse-IsSequence :
    (v : Value) (d : SequenceDefinition) → parse_sequence_definition v ≡ ok d → IsSequence d
unfolding parse_sequence_definition
parse-IsSequence (dict payload) d h = parse_definition-IsSequence payload d h
parse-IsSequence null d h = absurd (err_is_ok h)
parse-IsSequence v d h = absurd (err_is_ok h)
