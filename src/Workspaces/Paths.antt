-- ===== src/Workspaces/Paths.antt =====
-- system/core/workspace/path_validator.py: what may be done with a path. `resolve` is `Path.resolve`,
-- which may raise; what is returned is a copy of the workspace.
pub mod Allowed
mod Tests
use capability_os.Base.{
  String, Bool, true, false, not, ◌&&◌, Option, none, some, ◌==◌, if◌then◌else◌, ◌⋯◌,
}
use capability_os.Value.{Value, bool, text, list, Fields, get_or, truthy, is_text, has_text}
use capability_os.Workspaces.{WorkspaceRegistry, values, get_by_path}

pub record Verdict : Type 0 where
  pub allowed : Bool
  pub workspace : Option Fields
  pub reason : String

unfoldable pub deny : String → Option Fields → Verdict
deny reason ws = record { allowed = false; workspace = ws; reason = reason }

-- The test of the workspace's "allowed_capabilities"; None is no capability.
unfoldable pub is_barred : Value → Option String → Bool
unfolding has_text
is_barred (list l) (some capability_id) = not (has_text capability_id l)
is_barred _ _ = false

abbrev barred_reason : Option String → String
barred_reason none = ""
barred_reason (some capability_id) =
    "Capability '" ⋯ capability_id ⋯ "' is not permitted in this workspace."

-- What follows `get_by_path`, for the workspace that it finds.
unfoldable pub judge : String → Option String → Fields → Verdict
unfolding deny is_barred get_or truthy is_text
judge operation capability_id ws =
    let access = get_or "access" (text "none") ws in
    if not (truthy (get_or "active" (bool true) ws))
    then deny "Workspace is inactive." (some ws)
    else if is_text "none" access
    then deny "Workspace is blocked (access=none)." (some ws)
    else if operation == "write" && is_text "read" access
    then deny "Workspace is read-only." (some ws)
    else if is_barred (get_or "allowed_capabilities" (text "*") ws) capability_id
    then deny (barred_reason capability_id) (some ws)
    else record { allowed = true; workspace = some ws; reason = "" }

module _ (resolve : String → Option String) (normalize : String → String) (sep : String) where
  unfoldable pub validate : String → String → Option String → WorkspaceRegistry → Verdict
  unfolding deny judge get_by_path values
  validate path operation capability_id r = elim (resolve path) [
    | none ↦ deny "Invalid path." none
    | some resolved ↦ elim (get_by_path normalize sep resolved (values r.workspaces)) [
      | none ↦ deny "Path is outside all registered workspaces." none
      | some ws ↦ judge operation capability_id ws
    ]
  ]
