-- ===== src/Workspaces.antt =====
-- system/core/workspace/workspace_registry.py, without the database: the workspaces, the default one,
-- and the file that every change is written to. The JSON text of the file stands for its document.
-- The file system, identifiers and times are arguments.
pub mod Reach
pub mod Saved
pub mod Last
pub mod Paths
mod Tests
use capability_os.Base.{
  ℕ, String, Bool, true, false, not, ◌&&◌, ◌||◌, Option, none, some, List, [], ◌∷◌, ◌++◌, length,
  any, contains, eqb, ◌==◌, if◌then◌else◌, ◌⋯◌, is_some, strip, strip_prefix, Dict, lookup, insert,
  erase, has,
}
use capability_os.Value.{Value, null, bool, text, list, dict, nil, Fields, end, field, get, put}
use capability_os.Exec.{Result, ok, err, raise, ErrorKind}

-- The document of workspaces.json.
pub record Document : Type 0 where
  pub items : List Fields
  pub default_workspace_id : Option String

pub record WorkspaceRegistry : Type 0 where
  pub workspaces : Dict Fields
  pub default_id : Option String
  pub file : Option Document

-- What the operating system says of paths.
pub record FileSystem : Type 0 where
  pub resolve : String → String
  -- The message, where Path(p).resolve() raises.
  pub path_error : Value → Option String
  pub exists : String → Bool
  pub is_dir : String → Bool

unfoldable pub values : Dict Fields → List Fields
values [] = []
values ((k, v) ∷ d) = v ∷ values d

-- _save, where the file can be written.
unfoldable pub save : WorkspaceRegistry → WorkspaceRegistry
unfolding values
save r = record r {
  file = some (record { items = values r.workspaces; default_workspace_id = r.default_id });
}

unfoldable pub load_items : List Fields → Dict Fields → Dict Fields
unfolding insert get
load_items [] d = d
load_items (item ∷ items) d =
    load_items items (elim (get "id" item) [ some (text id) ↦ insert id item d | _ ↦ d ])

-- _load; ids are texts.
unfoldable pub load : Option Document → WorkspaceRegistry
unfolding load_items
load none = record { workspaces = []; default_id = none; file = none }
load (some doc) = record {
  workspaces = load_items doc.items [];
  default_id = doc.default_workspace_id;
  file = some doc;
}

abbrev valid_access : List String
valid_access = "write" ∷ "read" ∷ "none" ∷ []

-- Path(ws["path"]).resolve() == resolved
unfoldable pub has_path : FileSystem → String → Fields → Bool
unfolding get
has_path fs resolved ws = elim (get "path" ws) [
  | some (text p) ↦ fs.resolve p == resolved
  | _ ↦ false
]

-- The arguments of `add`.
pub record NewWorkspace : Type 0 where
  pub name : String
  pub path : String
  pub access : String
  pub capabilities : Value
  pub color : String
  pub icon : String

abbrev initial_status : Fields
initial_status =
    field "name" (text "En construccion")
      (field "color" (text "#ffaa00") (field "icon" (text "🏗\u{fe0f}") end))

unfoldable pub workspace_record : String → String → String → NewWorkspace → Fields
unfolding strip
workspace_record id resolved now w = field "id" (text id) (
    field "name" (text (strip w.name)) (
      field "path" (text resolved) (
        field "access" (text w.access) (
          field "allowed_capabilities" w.capabilities (
            field "color" (text w.color) (
              field "icon" (text w.icon) (
                field "active" (bool true) (
                  field "status" (dict initial_status) (
                    field "description" (text "")
                      (field "agent_ids" (list nil) (field "created_at" (text now) end)))))))))))

abbrev or_empty : Option String → String
or_empty none = ""
or_empty (some s) = s

unfoldable pub or_default : Option String → String → Option String
or_default none id = some id
or_default (some d) id = some d

module _ (fs : FileSystem) where
  -- `hex` is the new identifier's.
  unfoldable pub add :
      String → String → NewWorkspace → WorkspaceRegistry → Result Fields × WorkspaceRegistry
  unfolding strip has_path values workspace_record insert or_default save
  add hex now w r =
      let resolved = fs.resolve w.path in
      let id = "ws_" ⋯ hex in
      let ws = workspace_record id resolved now w in
      if strip w.name == ""
      then (raise ErrorKind.other "Workspace name must be non-empty.", r)
      else if is_some (fs.path_error (text w.path))
      then (raise ErrorKind.other (or_empty (fs.path_error (text w.path))), r)
      else if not (fs.exists resolved)
      then (raise ErrorKind.other ("Path '" ⋯ w.path ⋯ "' does not exist."), r)
      else if not (fs.is_dir resolved)
      then (raise ErrorKind.other ("Path '" ⋯ w.path ⋯ "' is not a directory."), r)
      else if not (contains valid_access w.access)
      then (raise ErrorKind.other "Access must be one of {'write', 'read', 'none'}.", r)
      else if any (has_path fs resolved) (values r.workspaces)
      then (raise ErrorKind.other ("Path '" ⋯ resolved ⋯ "' is already registered."), r)
      else (
        ok ws,
        save (record r {
          workspaces = insert id ws r.workspaces;
          default_id = or_default r.default_id id;
        }),
      )

  abbrev updatable : List String
  updatable =
      "name" ∷ "access" ∷ "allowed_capabilities" ∷ "color" ∷ "icon" ∷ "active" ∷ "status"
      ∷ "description" ∷ "agent_ids" ∷ []

  -- One of the fields of `update`.
  unfoldable pub update_field : String → Value → Fields → Fields
  unfolding put
  update_field k v ws =
      if contains updatable k
      then put k v ws
      else if k == "path"
      then (elim v [ text p ↦ put "path" (text (fs.resolve p)) ws | _ ↦ ws ])
      else ws

  -- What a field of `update` raises.
  abbrev pub field_error : String → Value → Option String
  field_error k v = if k == "path" then fs.path_error v else none

  -- The loop over the fields, as far as one that raises.
  unfoldable pub update_fields : Fields → Fields → Option String × Fields
  unfolding update_field
  update_fields end ws = (none, ws)
  update_fields (field k v fields) ws =
      let rest = update_fields fields (update_field k v ws) in
      elim (field_error k v) [ some e ↦ (some e, ws) | none ↦ rest ]

  -- What follows the loop: where it has raised, the workspace holds what was written, and the file does not.
  abbrev pub written :
      String → Option String × Fields → WorkspaceRegistry → Result Fields × WorkspaceRegistry
  unfolding insert save
  written ws_id (none, ws) r =
      (ok ws, save (record r { workspaces = insert ws_id ws r.workspaces }))
  written ws_id (some e, ws) r =
      (raise ErrorKind.other e, record r { workspaces = insert ws_id ws r.workspaces })

  unfoldable pub update : String → Fields → WorkspaceRegistry → Result Fields × WorkspaceRegistry
  unfolding lookup update_fields written
  update ws_id fields r = elim (lookup ws_id r.workspaces) [
    | none ↦ (raise ErrorKind.other ("Workspace '" ⋯ ws_id ⋯ "' not found."), r)
    | some ws ↦ written ws_id (update_fields fields ws) r
  ]

-- next(iter(d), None)
unfoldable pub first_key : Dict Fields → Option String
first_key [] = none
first_key ((k, v) ∷ d) = some k

abbrev pub is_default : Option String → String → Bool
is_default none id = false
is_default (some d) id = d == id

unfoldable pub remove : String → WorkspaceRegistry → Result Bool × WorkspaceRegistry
unfolding has erase first_key save
remove ws_id r =
    let rest = erase ws_id r.workspaces in
    if not (has ws_id r.workspaces)
    then (ok false, r)
    else if is_default r.default_id ws_id && eqb (length r.workspaces) 1
    then (raise ErrorKind.other "Cannot remove the only workspace.", r)
    else (
      ok true,
      save (record r {
        workspaces = rest;
        default_id = if is_default r.default_id ws_id then first_key rest else r.default_id;
      }),
    )

unfoldable pub set_default : String → WorkspaceRegistry → Bool × WorkspaceRegistry
unfolding has save
set_default ws_id r =
    if has ws_id r.workspaces
    then (true, save (record r { default_id = some ws_id }))
    else (false, r)

unfoldable pub get_default : WorkspaceRegistry → Option Fields
unfolding lookup
get_default r = elim r.default_id [ none ↦ none | some d ↦ lookup d r.workspaces ]

-- The test of `get_by_path`, on a workspace's "path"; `normalize` and the separator are the platform's.
abbrev pub covers_at : (String → String) → String → String → Option Value → Bool
covers_at normalize sep path (some (text p)) =
    normalize path == normalize p || is_some (strip_prefix (normalize p ⋯ sep) (normalize path))
covers_at normalize sep path _ = false

-- The first workspace that is the path or above it.
unfoldable pub get_by_path : (String → String) → String → String → List Fields → Option Fields
unfolding get strip_prefix
get_by_path normalize sep path [] = none
get_by_path normalize sep path (ws ∷ rest) =
    let found = get_by_path normalize sep path rest in
    if covers_at normalize sep path (get "path" ws) then some ws else found
