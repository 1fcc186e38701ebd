-- ===== src/Workflow/Nodes.antt =====
-- The handlers of nodes, of system/core/workflow/workflow_executor.py. The results of earlier nodes are
-- a dict; the context's "variables" are empty, and nothing writes its "previous_result".
use Prim.Native.Char.{Char, code}
use capability_os.Base.{
  ℕ, zero, suc, ◌+◌, String, Bool, true, not, ◌&&◌, ◌||◌, Option, none, some, eqb, ◌==◌,
  if◌then◌else◌, ◌⋯◌, strip_prefix, Dict, lookup, ℤ, pos, is_digit, to_lower,
}
use capability_os.Value.{
  Value, bool, int, text, list, dict, Items, nil, cons, Fields, end, field, get_or,
}
use capability_os.State.Scan.{is_lower}
use capability_os.ToolRuntime.{Reply, returned, raised}

-- What the executor calls: the tool runtime, the agent loop and the model, where it has them; Python's
-- `str`, `int`, `float`, `json.loads` and `exec`; HTTP, the clock, the event bus, and the file system with the text of a path.
-- Where one may raise, it gives `none`, or a reply that is raised.
pub record Services (W : Type 0) : Type 0 where
  pub tool : Option (Value → Fields → W → Reply × W)
  pub agent : Option (Value → W → Reply × W)
  pub chat : Option (Value → Value → Value → W → Reply × W)
  pub safe_eval : Value → Value → Option Value
  pub str : Value → String
  pub int_of : Value → Option ℤ
  pub float_of : Value → Option Value
  pub is_positive : Value → Bool
  pub sleep : Value → W → W
  pub emit : String → Fields → W → W
  pub loads : Value → Option Value
  -- dict(v), for a value that is no dict.
  pub as_dict : Value → Option Fields
  -- What Request(url, ..., headers, method) raises, of method, url and headers.
  pub request_error : Value → Value → Value → Option String
  pub urlopen : Value → Value → Value → Option Value → W → Reply × W
  pub exec_python : Value → W → Reply × W
  pub path_text : String → String
  pub read_text : Value → W → Reply × W
  pub write_text : Value → Value → W → Reply × W
  pub append_text : Value → Value → W → Reply × W
  pub list_dir : Value → W → Reply × W

-- How far `Template.safe_substitute` has come: in plain text, behind a dollar, in a name, or in a name
-- in braces.
pub data Place : Type 0 where
  plain dollar : Place
  named braced : String → Place

is_name_start : ℕ → Bool
unfolding is_lower to_lower
is_name_start c = is_lower (to_lower c) || eqb c b'_'

is_name_char : ℕ → Bool
unfolding is_name_start is_digit
is_name_char c = is_name_start c || is_digit c

abbrev char_text : Char → String
char_text c = String.◌∷◌ c ""

-- What stands for a name; a name without a result is left as it is.
abbrev filled : Option String → String → String
filled none as_written = as_written
filled (some s) as_written = s

module _ (flat : String → Option String) where
  -- The text that a character adds, and the place behind it.
  read_plain : Char → String × Place
  read_plain c = if eqb (code c) b'$' then ("", dollar) else (char_text c, plain)

  substitute_char : Place → Char → String × Place
  unfolding read_plain is_name_start is_name_char
  substitute_char plain c = read_plain c
  substitute_char dollar c =
      if eqb (code c) b'$'
      then ("$", plain)
      else if eqb (code c) b'{'
      then ("", braced "")
      else if is_name_start (code c)
      then ("", named (char_text c))
      else let (s, p) = read_plain c in ("$" ⋯ s, p)
  substitute_char (named name) c =
      if is_name_char (code c)
      then ("", named (name ⋯ char_text c))
      else let (s, p) = read_plain c in (filled (flat name) ("$" ⋯ name) ⋯ s, p)
  substitute_char (braced name) c =
      if eqb (code c) b'}' && not (name == "")
      then (filled (flat name) ("${" ⋯ name ⋯ "}"), plain)
      else if (if name == "" then is_name_start (code c) else is_name_char (code c))
      then ("", braced (name ⋯ char_text c))
      else let (s, p) = read_plain c in ("${" ⋯ name ⋯ s, p)

  -- What the end of the text adds.
  substitute_end : Place → String
  substitute_end plain = ""
  substitute_end dollar = "$"
  substitute_end (named name) = filled (flat name) ("$" ⋯ name)
  substitute_end (braced name) = "${" ⋯ name

  -- Template(s).safe_substitute(flat)
  unfoldable pub substitute : Place → String → String
  unfolding substitute_char substitute_end
  substitute p String.[] = substitute_end p
  substitute p (String.◌∷◌ c s) = let (t, p') = substitute_char p c in t ⋯ substitute p' s

-- str(res) if not isinstance(res, str) else res
unfoldable pub flat_text : (Value → String) → Value → String
flat_text str (text s) = s
flat_text str v = str v

unfoldable pub flat_result : (Value → String) → Option Value → Option String
unfolding flat_text
flat_result str none = none
flat_result str (some v) = some (flat_text str v)

-- A template that is no text is given back, as `Template` raises.
unfoldable pub apply_template : (Value → String) → Dict Value → Value → Value
unfolding substitute flat_result lookup
apply_template str results (text t) =
    if t == ""
    then text t
    else text (substitute (λ name. flat_result str (lookup name results)) plain t)
apply_template str results v = v

abbrev or_value : Option Value → Value → Value
or_value none v = v
or_value (some w) v = w

-- A value that begins with a dollar names a result.
unfoldable pub placeholder : Dict Value → Value → Value
unfolding strip_prefix lookup
placeholder results (text t) = elim (strip_prefix "$" t) [
  | none ↦ text t
  | some ref ↦ or_value (lookup ref results) (text t)
]
placeholder results v = v

unfoldable pub resolve_placeholders : Dict Value → Fields → Fields
unfolding placeholder
resolve_placeholders results end = end
resolve_placeholders results (field k v params) =
    field k (placeholder results v) (resolve_placeholders results params)

-- dict(v), where `as_dict` says what it is for a value that is no dict.
unfoldable pub dict_of : (Value → Option Fields) → Value → Option Fields
dict_of as_dict (dict d) = some d
dict_of as_dict v = as_dict v

unfoldable pub exec_trigger : Fields → Value
unfolding get_or
exec_trigger fields =
    dict (field "triggered" (bool true) (field "schedule" (get_or "schedule" (text "") fields) end))

-- The loop of `_exec_transform`.
unfoldable pub exec_transform : Dict Value → Fields → Reply
unfolding resolve_placeholders get_or
exec_transform results fields = elim (get_or "mapping" (dict end) fields) [
  | dict mapping ↦ returned (dict (resolve_placeholders results mapping))
  | _ ↦ raised "object has no attribute 'items'"
]

unfoldable pub exec_output : (Value → String) → Dict Value → Fields → Value
unfolding apply_template get_or
exec_output str results fields =
    dict (field "text" (apply_template str results (get_or "template" (text "") fields)) end)

unfoldable pub range_items : ℕ → ℕ → Items
range_items zero from = nil
range_items (suc n) from = cons (int (pos from)) (range_items n (from + 1))

abbrev char_items : String → Items
char_items String.[] = nil
char_items (String.◌∷◌ c s) = cons (text (char_text c)) (char_items s)

abbrev key_items : Fields → Items
key_items end = nil
key_items (field k v d) = cons (text k) (key_items d)

-- list(items), where there is `__iter__`.
unfoldable pub iterated : Option Value → Items
iterated (some (list l)) = l
iterated (some (text s)) = char_items s
iterated (some (dict d)) = key_items d
iterated _ = nil

unfoldable pub count_items : Items → ℕ
count_items nil = 0
count_items (cons v l) = suc (count_items l)

unfoldable pub loop_result : Items → Value
unfolding count_items
loop_result l = dict (field "items" (list l) (field "count" (int (pos (count_items l))) end))
