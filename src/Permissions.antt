-- ===== src/Permissions.antt =====
-- system/sdk/permissions.py: the permission scopes of plugins.
pub mod Matching
use capability_os.Base.{
  String, Bool, true, false, ◌&&◌, ◌||◌, not, Option, none, some, List, [], ◌∷◌, ◌++◌, map, ◌==◌,
  if◌then◌else◌, ◌⋯◌, strip_prefix, strip_suffix, break_at, is_some, keep, contains, Dict, lookup,
  has, sorted,
}

abbrev pub permission_tree : Dict (List String)
permission_tree =
    ("filesystem", "read" ∷ "write" ∷ "delete" ∷ "create_directory" ∷ [])
    ∷ ("network", "http" ∷ "websocket" ∷ "dns" ∷ [])
    ∷ ("execution", "subprocess" ∷ "docker" ∷ "script" ∷ [])
    ∷ ("browser", "navigate" ∷ "screenshot" ∷ "interact" ∷ "read_text" ∷ [])
    ∷ ("memory", "read" ∷ "write" ∷ "semantic" ∷ "markdown" ∷ [])
    ∷ ("event_bus", "emit" ∷ "subscribe" ∷ [])
    ∷ ("settings", "read" ∷ "write" ∷ [])
    ∷ ("users", "read" ∷ "manage" ∷ [])
    ∷ ("plugins", "install" ∷ "reload" ∷ "configure" ∷ [])
    ∷ ("workspaces", "read" ∷ "write" ∷ "delete" ∷ [])
    ∷ ("agents", "read" ∷ "write" ∷ "execute" ∷ [])
    ∷ ("capabilities", "read" ∷ "register" ∷ "execute" ∷ [])
    ∷ ("tools", "read" ∷ "register" ∷ "execute" ∷ [])
    ∷ ("scheduler", "read" ∷ "create" ∷ "delete" ∷ "run" ∷ [])
    ∷ ("workflows", "read" ∷ "create" ∷ "execute" ∷ [])
    ∷ ("mcp", "servers" ∷ "tools" ∷ [])
    ∷ ("a2a", "agents" ∷ "delegate" ∷ [])
    ∷ ("supervisor", "invoke" ∷ "health" ∷ "approve" ∷ [])
    ∷ ("voice", "transcribe" ∷ "synthesize" ∷ [])
    ∷ []

scopes_of : Dict (List String) → List String
scopes_of [] = []
scopes_of ((category, scopes) ∷ tree) =
    (category ⋯ ".*") ∷ (map (λ scope. category ⋯ "." ⋯ scope) scopes ++ scopes_of tree)

unfoldable pub all_permissions : List String
unfolding scopes_of sorted
all_permissions = sorted (scopes_of permission_tree)

valid_parts : String × Option String → Bool
unfolding has lookup
valid_parts (category, none) = has category permission_tree
valid_parts (category, some scope) = elim (lookup category permission_tree) [
  | none ↦ false
  | some scopes ↦ scope == "*" || contains scopes scope
]

unfoldable pub is_valid_permission : String → Bool
unfolding valid_parts break_at
is_valid_permission permission =
    if permission == "*" then true else valid_parts (break_at b'.' permission)

wildcard_matches : Option String → String → Bool
unfolding strip_prefix
wildcard_matches none required = false
wildcard_matches (some prefix) required = is_some (strip_prefix (prefix ⋯ ".") required)

unfoldable pub permission_matches : String → String → Bool
unfolding wildcard_matches strip_suffix
permission_matches declared required =
    if declared == "*"
    then true
    else if declared == required
    then true
    else wildcard_matches (strip_suffix ".*" declared) required

unfoldable pub validate_permissions : List String → List String
unfolding is_valid_permission
validate_permissions permissions = keep (λ p. not (is_valid_permission p)) permissions
