-- ===== src/State/Templates.antt =====
-- What `resolve_templates` of system/core/state/state_manager.py leaves alone, and what a template
-- of one token gives.
use Prim.Native.Char.{Char, code}
use package.text.Mathlib.TextLemmas.{append-nil, nil-append, cons-append, append_assoc}
use capability_os.Base.{
  String, ◌≡◌, refl, Bool, true, false, List, [], ◌∷◌, arith, eqb, ◌==◌, eq_iff, ◌⋯◌, strip, ◌≢◌,
  ap, sym, ◌∙◌,
}
use capability_os.Value.{
  Value, null, bool, int, text, list, dict, other, Items, nil, cons, Fields, end, field,
}
use capability_os.State.{
  StateManager, ok, render, resolve_pieces, resolve_string, resolve_expression, resolve_templates,
  resolve_items, resolve_fields,
}
use capability_os.State.Scan.{Piece, plain, token, scan, scan_from, braced, inside}

abbrev pub has_token : List Piece → Bool
has_token [] = false
has_token (plain _ ∷ ps) = has_token ps
has_token (token _ ∷ ps) = true

abbrev mutual
  -- No text in the value holds a token; keys are not looked at.
  pub IsPlain : Value → Type 0
  IsPlain (text t) = has_token (scan t) ≡ false
  IsPlain (list l) = IsPlainItems l
  IsPlain (dict d) = IsPlainFields d
  IsPlain _ = Unit

  pub IsPlainItems : Items → Type 0
  IsPlainItems nil = Unit
  IsPlainItems (cons v l) = IsPlain v × IsPlainItems l

  pub IsPlainFields : Fields → Type 0
  IsPlainFields end = Unit
  IsPlainFields (field k v d) = IsPlain v × IsPlainFields d

module _ (runtime : Fields) (s : StateManager) where
  render_plain :
      (ps : List Piece) (t : String) → has_token ps ≡ false → render runtime s ps t ≡ ok t
  unfolding render
  render_plain [] t h = refl
  render_plain (plain _ ∷ ps) t h = render_plain ps t h
  render_plain (token _ ∷ ps) t h = cc

  resolve_pieces_plain :
      (ps : List Piece) (t : String)
      → has_token ps ≡ false
      → resolve_pieces runtime s ps t ≡ ok (text t)
  unfolding resolve_pieces
  resolve_pieces_plain [] t h = refl
  resolve_pieces_plain (plain _ ∷ []) t h = refl
  resolve_pieces_plain (plain q ∷ p ∷ ps) t h = rw (render_plain (plain q ∷ p ∷ ps) t h)
  resolve_pieces_plain (token _ ∷ ps) t h = cc

  mutual
    unfolding resolve_templates resolve_string

    templates_plain : (v : Value) → IsPlain v → resolve_templates runtime s v ≡ ok v
    templates_plain null h = refl
    templates_plain (bool b) h = refl
    templates_plain (int n) h = refl
    templates_plain (other o) h = refl
    templates_plain (text t) h = resolve_pieces_plain (scan t) t h
    templates_plain (list l) h = rw (items_plain l h)
    templates_plain (dict d) h = rw (fields_plain d h)

    items_plain : (l : Items) → IsPlainItems l → resolve_items runtime s l ≡ ok l
    items_plain nil h = refl
    items_plain (cons v l) h = rw (templates_plain v h.0, items_plain l h.1)

    fields_plain : (d : Fields) → IsPlainFields d → resolve_fields runtime s d ≡ ok d
    fields_plain end h = refl
    fields_plain (field k v d) h = rw (templates_plain v h.0, fields_plain d h.1)

-- A value with no token in any of its texts, at any depth, is resolved to itself: the resolution
-- never fails on it and changes no part of it.
pub resolve_templates-IsPlain :
    (runtime : Fields) (s : StateManager) (v : Value)
    → IsPlain v
    → resolve_templates runtime s v ≡ ok v
resolve_templates-IsPlain runtime s v h = templates_plain runtime s v h

-- The text holds no brace.
abbrev pub NoBrace : String → Type 0
NoBrace String.[] = Unit
NoBrace (String.◌∷◌ c s) = (eqb (code c) b'{' ≡ false) × (eqb (code c) b'}' ≡ false) × NoBrace s

eq_false : (s : String) → s ≢ "" → (s == "") ≡ false
eq_false s ne = ground (arith, eq_iff s "")

regroup :
    (acc : String) (c : Char) (s : String)
    → (acc ⋯ String.◌∷◌ c String.[]) ⋯ s ≡ acc ⋯ String.◌∷◌ c s
regroup acc c s =
    append_assoc acc (String.◌∷◌ c String.[]) s
    ∙ ap (λ (t : String). acc ⋯ t) (cons-append c String.[] s ∙ ap (String.◌∷◌ c) (nil-append s))

-- Behind two braces and `acc`, the rest of a token is read up to its end.
scan_inside :
    (acc inner : String)
    → NoBrace inner
    → (acc ⋯ inner) ≢ ""
    → scan_from (inside acc) (inner ⋯ "}}") ≡ token (acc ⋯ inner) ∷ []
unfolding scan_from
scan_inside acc String.[] h ne =
    rw append-nil (rw (eq_false acc (λ e. ne (append-nil acc ∙ e)), scan_from))
scan_inside acc (String.◌∷◌ c inner) h ne =
    rw (cons-append, h.0, h.1, scan_from)
      (rw
        (scan_inside (acc ⋯ String.◌∷◌ c String.[]) inner h.2
          (λ e. ne (rw (← regroup acc c inner) e)))
        (rw regroup refl))

scan_one : (inner : String) → NoBrace inner → inner ≢ "" → scan (braced inner) ≡ token inner ∷ []
unfolding scan braced
scan_one inner h ne =
    rw (cons-append, cons-append, nil-append, scan_from)
      (rw (scan_inside "" inner h (λ e. ne (sym (nil-append inner) ∙ e))) (rw nil-append))

-- A template that is one token, with no brace inside, is resolved to the value of its expression
-- itself, of any type, and not to a text; the expression is the inner text with the white space
-- around it stripped.
pub resolve_templates-braced :
    (runtime : Fields) (s : StateManager) (inner : String)
    → NoBrace inner
    → inner ≢ ""
    → resolve_templates runtime s (text (braced inner)) ≡ resolve_expression runtime s (strip inner)
unfolding resolve_templates resolve_string
resolve_templates-braced runtime s inner h ne = rw (scan_one inner h ne)
