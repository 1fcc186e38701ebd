-- ===== src/Security.antt =====
-- system/core/security/security_service.py: the level at which a call of a tool or a capability is
-- let through. `lower` is the one of ASCII letters. The separator of the platform's paths, and
-- `Path.resolve`, which reads the file system, are arguments.
pub mod Checks
pub mod Workspaces
pub mod Free
mod Tests
use capability_os.Base.{
  ℕ, String, Bool, true, false, Option, none, some, List, [], ◌∷◌, ◌++◌, ◌&&◌, ◌||◌, not, any, map,
  contains, leb, eqb, ◌==◌, if◌then◌else◌, strip, codes, to_lower,
}
use capability_os.Value.{Value, text, Fields, get}

pub data SecurityLevel : Type 0 where
  free confirm protected : SecurityLevel

-- The parts of a resolved path.
abbrev pub PathParts : Type 0
PathParts = List String

-- The sets of security_rules.json, and the workspaces.
pub record SecurityService : Type 0 where
  pub workspace_roots : List PathParts
  pub free_tools : List String
  pub free_caps : List String
  pub confirm_tools : List String
  pub confirm_caps : List String
  pub protected_tools : List String
  pub protected_caps : List String
  pub critical_patterns : List String

-- str(v), where the value is a text that is not blank.
unfoldable pub named_text : Option Value → Option String
named_text (some (text v)) = if strip v == "" then none else some v
named_text _ = none

abbrev pub path_fields : List String
path_fields = "path" ∷ "file_path" ∷ "source" ∷ "destination" ∷ "directory" ∷ "target" ∷ []

abbrev pub dangerous : List String
dangerous =
    "rm -rf" ∷ "del /s" ∷ "format" ∷ "shutdown" ∷ "reboot" ∷ "mkfs" ∷ "fdisk" ∷ "registry" ∷ []

abbrev pub write_tools : List String
write_tools =
    "filesystem_write_file" ∷ "filesystem_delete_file" ∷ "filesystem_delete_directory"
    ∷ "filesystem_move_file" ∷ "filesystem_copy_file" ∷ "filesystem_create_directory" ∷ []

abbrev pub write_caps : List String
write_caps =
    "write_file" ∷ "edit_file" ∷ "delete_file" ∷ "delete_directory" ∷ "move_file" ∷ "copy_file"
    ∷ "create_directory" ∷ []

-- Whether the first list of code points begins the second, and whether it occurs in it.
unfoldable pub is_prefix : List ℕ → List ℕ → Bool
is_prefix [] ys = true
is_prefix (x ∷ xs) [] = false
is_prefix (x ∷ xs) (y ∷ ys) = eqb x y && is_prefix xs ys

unfoldable pub occurs : List ℕ → List ℕ → Bool
unfolding is_prefix
occurs xs [] = is_prefix xs []
occurs xs (y ∷ ys) = is_prefix xs (y ∷ ys) || occurs xs ys

-- s.lower(), as code points.
unfoldable pub lower : String → List ℕ
unfolding codes to_lower
lower s = map to_lower (codes s)

-- `value.replace("/", os.sep).replace("\\", os.sep).lower()`, as code points.
unfoldable pub normalized : ℕ → String → List ℕ
unfolding codes to_lower
normalized sep s = map (λ c. to_lower (if eqb c b'/' || eqb c b'\\' then sep else c)) (codes s)

-- _is_subpath
unfoldable pub is_subpath : PathParts → PathParts → Bool
is_subpath child [] = true
is_subpath [] (part ∷ parent) = false
is_subpath (p ∷ child) (part ∷ parent) = p == part && is_subpath child parent

-- Whether the text, if there is one, holds a critical pattern.
unfoldable pub hits_pattern : ℕ → List String → Option String → Bool
unfolding occurs lower normalized
hits_pattern sep patterns none = false
hits_pattern sep patterns (some v) = any (λ p. occurs (lower p) (normalized sep v)) patterns

-- `inputs.get("command", "")`, where it is a text. White space is the same in both cases, so that it
-- does not matter that the text is stripped first.
unfoldable pub is_dangerous : Option Value → Bool
unfolding occurs lower codes
is_dangerous (some (text command)) = any (λ d. occurs (codes d) (lower (strip command))) dangerous
is_dangerous _ = false

unfoldable pub check_paths : ℕ → SecurityService → Fields → Option SecurityLevel
unfolding named_text hits_pattern is_dangerous
check_paths sep s inputs =
    if any (λ f. hits_pattern sep s.critical_patterns (named_text (get f inputs))) path_fields
    then some protected
    else if is_dangerous (get "command" inputs)
    then some protected
    else none

-- Whether a path is in none of the workspaces; none stands for a path that cannot be resolved.
unfoldable pub is_beyond : List PathParts → Option PathParts → Bool
unfolding is_subpath
is_beyond roots none = true
is_beyond roots (some path) = not (any (λ root. is_subpath path root) roots)

unfoldable pub is_outside : (String → Option PathParts) → List PathParts → Option String → Bool
unfolding is_beyond
is_outside resolve roots none = false
is_outside resolve roots (some v) = is_beyond roots (resolve v)

abbrev pub is_empty : List PathParts → Bool
is_empty [] = true
is_empty (root ∷ roots) = false

unfoldable pub is_write_outside_workspace :
    (String → Option PathParts) → SecurityService → String → String → Fields → Bool
unfolding named_text is_outside
is_write_outside_workspace resolve s tool_id capability_id inputs =
    if not (contains write_tools tool_id) && not (contains write_caps capability_id)
    then false
    else if is_empty s.workspace_roots
    then false
    else any (λ f. is_outside resolve s.workspace_roots (named_text (get f inputs))) path_fields

-- The path is resolved. Two paths are equal where each is below the other.
unfoldable pub add_workspace : PathParts → SecurityService → SecurityService
add_workspace root s =
    if any (λ r. is_subpath r root && is_subpath root r) s.workspace_roots
    then s
    else record s { workspace_roots = s.workspace_roots ++ root ∷ [] }

module _ (sep : ℕ) (resolve : String → Option PathParts) where
  unfoldable pub classify : SecurityService → String → String → Fields → SecurityLevel
  unfolding check_paths is_write_outside_workspace
  classify s capability_id tool_id inputs = elim (check_paths sep s inputs) [
    | some protected ↦ protected
    | _ ↦
        if contains s.protected_tools tool_id || contains s.protected_caps capability_id
        then protected
        else if is_write_outside_workspace resolve s tool_id capability_id inputs
        then protected
        else if contains s.free_tools tool_id || contains s.free_caps capability_id
        then free
        else if contains s.confirm_tools tool_id || contains s.confirm_caps capability_id
        then confirm
        else confirm
  ]

-- level.value
unfoldable pub level_value : SecurityLevel → ℕ
level_value free = 1
level_value confirm = 2
level_value protected = 3

unfoldable pub classify_description : SecurityLevel → String
classify_description free = "Safe operation — no confirmation needed"
classify_description confirm = "This action modifies files or runs commands — confirmation required"
classify_description protected = "Critical operation — password authentication required"
