-- ===== src/State.antt =====
-- system/core/state/state_manager.py: the inputs, the state and the step outputs of one run, and
-- the resolution of template variables. A value cannot be changed in place here, so `deepcopy` is
-- the identity.
pub mod Scan
pub mod Paths
pub mod Templates
pub mod StepOutputs
mod Tests
use capability_os.Base.{
  ℕ, zero, suc, ◌+◌, String, ◌≡◌, refl, Bool, true, false, ◌&&◌, ◌||◌, Option, none, some, List, [],
  ◌∷◌, ◌==◌, if◌then◌else◌, ◌⋯◌, ℤ, pos, negsuc, strip, strip_prefix, split, isdigit, decimal,
}
use capability_os.Value.{
  Value, null, bool, int, text, list, dict, other, Items, nil, cons, Fields, end, field, get, put,
  update, nth, show, is_container,
}
use capability_os.State.Scan.{Piece, plain, token, scan, step_reference, replace, braced}

-- The exception is a `VariableResolutionError` with its message.
pub data Resolved {ℓ} (A : Type ℓ) : Type ℓ where
  ok : A → Resolved A
  unresolved : String → Resolved A

infixl 5 ◌>>=◌
abbrev pub ◌>>=◌ {ℓ κ} : {A : Type ℓ} {B : Type κ} → Resolved A → (A → Resolved B) → Resolved B
ok a >>= f = f a
unresolved e >>= f = unresolved e

pub record StateManager : Type 0 where
  pub inputs : Fields
  pub state : Fields
  pub step_outputs : Fields

unfoldable pub init : Fields → StateManager
init inputs = record { inputs = inputs; state = end; step_outputs = end }

-- An empty patch and None change nothing.
unfoldable pub update_state : Value → StateManager → Resolved StateManager
unfolding update
update_state null s = ok s
update_state (dict p) s = ok (record s { state = update s.state p })
update_state (bool false) s = ok s
update_state (list nil) s = ok s
update_state (int (pos zero)) s = ok s
update_state (text v) s = if v == "" then ok s else unresolved "State patch must be an object."
update_state _ s = unresolved "State patch must be an object."

unfoldable pub record_step_output : String → Value → StateManager → StateManager
unfolding put
record_step_output step_id output s = record s { step_outputs = put step_id output s.step_outputs }

missing : String → String
unfolding braced
missing expression = "Variable '" ⋯ braced expression ⋯ "' does not exist."

-- One round of the loop of `_resolve_path`.
step_into : String → String → Value → Resolved Value
unfolding missing isdigit decimal get nth braced
step_into expression tok (dict d) = elim (get tok d) [
  | some v ↦ ok v
  | none ↦ unresolved (missing expression)
]
step_into expression tok (list l) =
    if isdigit tok
    then (elim (nth l (decimal tok)) [
      | some v ↦ ok v
      | none ↦
          unresolved ("Variable '" ⋯ braced expression ⋯ "' index '" ⋯ tok ⋯ "' is out of bounds.")
    ])
    else unresolved (missing expression)
step_into expression tok _ = unresolved (missing expression)

pub walk : String → List String → Value → Resolved Value
unfolding step_into
walk expression [] current = ok current
walk expression (tok ∷ path) current = do
  next ← step_into expression tok current
  walk expression path next

resolve_path : Value → String → String → Resolved Value
unfolding walk split braced
resolve_path root dotted_path expression =
    if dotted_path == ""
    then unresolved ("Incomplete variable reference '" ⋯ braced expression ⋯ "'.")
    else walk expression (split b'.' dotted_path) root

unfoldable pub resolve_step : StateManager → String → String × String → Resolved Value
unfolding resolve_path braced get
resolve_step s expression (step_id, remainder) = elim (get step_id s.step_outputs) [
  | none ↦ unresolved (
      "Unknown step output reference '"
      ⋯ braced expression
      ⋯ "': step_id '"
      ⋯ step_id
      ⋯ "' was not executed.")
  | some output ↦ if remainder == "" then ok output else resolve_path output remainder expression
]

pub unsupported : String → String
unfolding braced
unsupported expression =
    "Implicit or unsupported variable '"
    ⋯ braced expression
    ⋯ "'. Allowed roots: inputs., state., steps.<step_id>.outputs., runtime."

-- `runtime` is what the runtime provider returns.
module _ (runtime : Fields) where
  unfoldable pub resolve_expression : StateManager → String → Resolved Value
  unfolding resolve_path resolve_step strip_prefix step_reference unsupported
  resolve_expression s expression = elim (strip_prefix "inputs." expression) [
    | some path ↦ resolve_path (dict s.inputs) path expression
    | none ↦ elim (strip_prefix "state." expression) [
      | some path ↦ resolve_path (dict s.state) path expression
      | none ↦ elim (strip_prefix "runtime." expression) [
        | some path ↦ resolve_path (dict runtime) path expression
        | none ↦ elim (step_reference expression) [
          | some reference ↦ resolve_step s expression reference
          | none ↦ unresolved (unsupported expression)
        ]
      ]
    ]
  ]

  -- What is put in place of a token inside a longer text.
  interpolation : String → Value → Resolved String
  unfolding show is_container braced
  interpolation expr null = ok ""
  interpolation expr v =
      if is_container v
      then unresolved
          ("Cannot interpolate non-scalar variable '" ⋯ braced expr ⋯ "' inside string template.")
      else ok (show v)

  -- The loop over the matches: each replaces all occurrences of its text in what is rendered.
  render : StateManager → List Piece → String → Resolved String
  unfolding resolve_expression interpolation strip replace braced
  render s [] rendered = ok rendered
  render s (plain _ ∷ pieces) rendered = render s pieces rendered
  render s (token inner ∷ pieces) rendered = do
    resolved ← resolve_expression s (strip inner)
    shown ← interpolation (strip inner) resolved
    render s pieces (replace (braced inner) shown rendered)

  resolve_pieces : StateManager → List Piece → String → Resolved Value
  unfolding render resolve_expression strip
  resolve_pieces s [] template = ok (text template)
  resolve_pieces s (plain _ ∷ []) template = ok (text template)
  resolve_pieces s (token inner ∷ []) template = resolve_expression s (strip inner)
  resolve_pieces s pieces template = do rendered ← render s pieces template; ok (text rendered)

  unfoldable pub resolve_string : StateManager → String → Resolved Value
  unfolding resolve_pieces scan
  resolve_string s template = resolve_pieces s (scan template) template

  unfoldable mutual
    unfolding resolve_string

    pub resolve_templates : StateManager → Value → Resolved Value
    resolve_templates s null = ok null
    resolve_templates s (bool b) = ok (bool b)
    resolve_templates s (int n) = ok (int n)
    resolve_templates s (other o) = ok (other o)
    resolve_templates s (text t) = resolve_string s t
    resolve_templates s (list l) = do l' ← resolve_items s l; ok (list l')
    resolve_templates s (dict d) = do d' ← resolve_fields s d; ok (dict d')

    pub resolve_items : StateManager → Items → Resolved Items
    resolve_items s nil = ok nil
    resolve_items s (cons v l) = do
      v' ← resolve_templates s v
      l' ← resolve_items s l
      ok (cons v' l')

    pub resolve_fields : StateManager → Fields → Resolved Fields
    resolve_fields s end = ok end
    resolve_fields s (field k v d) = do
      v' ← resolve_templates s v
      d' ← resolve_fields s d
      ok (field k v' d')
