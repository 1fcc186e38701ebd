-- ===== src/Sequences.antt =====
-- system/core/sequences/model.py: the definition of a sequence of capabilities, and its validation.
pub mod Accepted
pub mod Valid
pub mod Printed
pub mod Runner
pub mod Storage
mod Tests
use Prim.Native.Char.{code}
use Prim.Native.String
use capability_os.Base.{
  ℕ, suc, ◌+◌, String, Bool, true, false, not, ◌&&◌, ◌||◌, Option, none, some, List, [], ◌∷◌, ◌++◌,
  contains, eqb, ◌==◌, if◌then◌else◌, ◌⋯◌, strip, strip_prefix, break_at, is_digit, to_lower,
  show_int, pos, is_some,
}
use capability_os.Value.{Value, text, list, dict, Items, nil, cons, Fields, end, field, get}
use capability_os.State.Scan.{
  Piece, plain, token, scan, is_snake, is_lower, chop_newline, words, Word, start, later, braced,
}
use capability_os.Exec.{Result, ok, err, raise, ErrorKind}

pub record SequenceStep : Type 0 where
  pub step_id : String
  pub capability : String
  pub inputs : Fields

pub record SequenceDefinition : Type 0 where
  pub sequence_id : String
  pub name : String
  pub steps : List SequenceStep

unfoldable pub step_items : List SequenceStep → Items
step_items [] = nil
step_items (s ∷ steps) =
    cons
      (dict (
        field "step_id" (text s.step_id)
          (field "capability" (text s.capability) (field "inputs" (dict s.inputs) end))))
      (step_items steps)

unfoldable pub to_dict : SequenceDefinition → Value
unfolding step_items
to_dict d = dict (
    field "id" (text d.sequence_id)
      (field "name" (text d.name) (field "steps" (list (step_items d.steps)) end)))

infixl 5 ◌>>=◌
abbrev pub ◌>>=◌ {ℓ κ} : {A : Type ℓ} {B : Type κ} → Result A → (A → Result B) → Result B
ok a >>= f = f a
err e >>= f = err e

-- A SequenceValidationError.
abbrev pub refuse {ℓ} : {A : Type ℓ} → String → Result A
refuse message = raise ErrorKind.other message

-- `_SEQUENCE_ID_PATTERN` matches.
unfoldable pub is_sequence_id : String → Bool
unfolding is_snake chop_newline
is_sequence_id s = is_snake (chop_newline s)

abbrev is_later : Word → Bool
is_later later = true
is_later _ = false

-- `_CAPABILITY_ID_PATTERN` matches: two words at least.
unfoldable pub is_capability_id : String → Bool
unfolding words chop_newline
is_capability_id s = is_later (words start (chop_newline s))

is_path_char : ℕ → Bool
unfolding is_lower to_lower is_digit
is_path_char c = is_lower (to_lower c) || is_digit c || eqb c b'_' || eqb c b'.' || eqb c b'-'

all_path_chars : String → Bool
unfolding is_path_char
all_path_chars String.[] = true
all_path_chars (String.◌∷◌ c s) = is_path_char (code c) && all_path_chars s

-- [A-Za-z0-9_.-]+
is_path : String → Bool
unfolding all_path_chars
is_path s = not (s == "") && all_path_chars s

-- A prefix, and a path behind it.
is_rooted : String → String → Bool
unfolding strip_prefix is_path
is_rooted root expr = elim (strip_prefix root expr) [ none ↦ false | some path ↦ is_path path ]

-- The step that an expression refers to, where `_STEP_REF_PATTERN` matches; it is stripped, and no
-- newline stands at its end.
unfoldable pub referenced_step : String → Option String
unfolding strip_prefix break_at is_snake is_rooted
referenced_step expr = elim (strip_prefix "steps." expr) [
  | none ↦ none
  | some rest ↦
      let (step_id, after) = break_at b'.' rest in
      elim after [
        | none ↦ none
        | some tail ↦ if is_snake step_id && is_rooted "outputs." tail then some step_id else none
      ]
]

-- One of `_ALLOWED_VARIABLE_PATTERNS` matches.
unfoldable pub is_supported : String → Bool
unfolding is_rooted referenced_step
is_supported expr =
    is_rooted "inputs." expr || is_rooted "state." expr || is_some (referenced_step expr)

-- `_iter_strings`.
unfoldable mutual
  pub strings : Value → List String
  strings (text s) = s ∷ []
  strings (dict d) = field_strings d
  strings (list l) = item_strings l
  strings _ = []

  pub item_strings : Items → List String
  item_strings nil = []
  item_strings (cons v l) = strings v ++ item_strings l

  pub field_strings : Fields → List String
  field_strings end = []
  field_strings (field k v d) = strings v ++ field_strings d

abbrev is_available : List String → Option String → Bool
is_available available none = true
is_available available (some step_id) = contains available step_id

abbrev unavailable : String → Option String → String
unavailable step_id none = ""
unavailable step_id (some referenced) =
    "Step '" ⋯ step_id ⋯ "' references step '" ⋯ referenced ⋯ "' before it is available."

-- One token of a text.
unfoldable pub check_expression : String → List String → String → Result (Unit {0})
unfolding is_supported referenced_step braced
check_expression step_id available expr =
    if not (is_supported expr)
    then refuse (
        "Step '"
        ⋯ step_id
        ⋯ "' uses unsupported variable '"
        ⋯ braced expr
        ⋯ "'. Allowed roots: inputs., state., steps.<step_id>.outputs.")
    else if is_available available (referenced_step expr)
    then ok tt
    else refuse (unavailable step_id (referenced_step expr))

-- The loop over `_TOKEN_PATTERN.findall`.
unfoldable pub check_pieces : String → List String → List Piece → Result (Unit {0})
unfolding check_expression strip
check_pieces step_id available [] = ok tt
check_pieces step_id available (plain s ∷ ps) = check_pieces step_id available ps
check_pieces step_id available (token inner ∷ ps) = do
  _ ← check_expression step_id available (strip inner)
  check_pieces step_id available ps

unfoldable pub check_strings : String → List String → List String → Result (Unit {0})
unfolding check_pieces scan
check_strings step_id available [] = ok tt
check_strings step_id available (s ∷ ss) = do
  _ ← check_pieces step_id available (scan s)
  check_strings step_id available ss

unfoldable pub validate_step_templates : List String → List SequenceStep → Result (Unit {0})
unfolding check_strings field_strings
validate_step_templates available [] = ok tt
validate_step_templates available (s ∷ steps) = do
  _ ← check_strings s.step_id available (field_strings s.inputs)
  validate_step_templates (s.step_id ∷ available) steps

-- A field that is a text and passes a test.
abbrev text_with : (String → Bool) → Option Value → Option String
text_with test (some (text s)) = if test s then some s else none
text_with test _ = none

abbrev dict_value : Option Value → Option Fields
dict_value (some (dict d)) = some d
dict_value _ = none

abbrev demand {ℓ} : {A : Type ℓ} → Option A → String → Result A
demand none message = refuse message
demand (some a) message = ok a

abbrev require : Bool → String → Result (Unit {0})
require true message = ok tt
require false message = refuse message

abbrev parse_fields : String → Fields → Result SequenceStep
unfolding is_sequence_id is_capability_id get
parse_fields index raw_step = do
  step_id ←
      demand (text_with is_sequence_id (get "step_id" raw_step))
        ("Sequence step at index " ⋯ index ⋯ " has invalid 'step_id'. Use snake_case.")
  capability ←
      demand (text_with is_capability_id (get "capability" raw_step))
        ("Sequence step '" ⋯ step_id ⋯ "' has invalid 'capability'. Use capability id snake_case.")
  inputs ←
      demand (dict_value (get "inputs" raw_step))
        ("Sequence step '" ⋯ step_id ⋯ "' field 'inputs' must be an object.")
  ok (record { step_id = step_id; capability = capability; inputs = inputs })

unfoldable pub parse_step : String → Value → Result SequenceStep
unfolding parse_fields
parse_step index (dict raw_step) = parse_fields index raw_step
parse_step index _ = refuse ("Sequence step at index " ⋯ index ⋯ " must be an object.")

-- The loop over the steps.
unfoldable pub parse_steps : ℕ → List String → Items → Result (List SequenceStep)
unfolding parse_step show_int
parse_steps index seen nil = ok []
parse_steps index seen (cons v l) = do
  s ← parse_step (show_int (pos index)) v
  _ ← require (not (contains seen s.step_id)) ("Duplicate sequence step_id '" ⋯ s.step_id ⋯ "'.")
  steps ← parse_steps (suc index) (s.step_id ∷ seen) l
  ok (s ∷ steps)

-- A list with something in it.
abbrev full_list : Option Value → Option Items
full_list (some (list (cons v l))) = some (cons v l)
full_list _ = none

is_named : String → Bool
unfolding strip
is_named s = not (strip s == "")

unfoldable pub parse_definition : Fields → Result SequenceDefinition
unfolding is_sequence_id is_named parse_steps validate_step_templates get strip
parse_definition payload = do
  sequence_id ←
      demand (text_with is_sequence_id (get "id" payload))
        "Sequence field 'id' must be snake_case (e.g. 'daily_build_sequence')."
  name ←
      demand (text_with is_named (get "name" payload))
        "Sequence field 'name' must be a non-empty string."
  raw_steps ←
      demand (full_list (get "steps" payload)) "Sequence field 'steps' must be a non-empty list."
  steps ← parse_steps 0 [] raw_steps
  _ ← validate_step_templates [] steps
  ok (record { sequence_id = sequence_id; name = strip name; steps = steps })

unfoldable pub parse_sequence_definition : Value → Result SequenceDefinition
unfolding parse_definition
parse_sequence_definition (dict payload) = parse_definition payload
parse_sequence_definition _ = refuse "Sequence definition must be an object."
