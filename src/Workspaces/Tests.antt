-- ===== src/Workspaces/Tests.antt =====
-- Runs of system/core/workspace/workspace_registry.py on a file system in which every path exists.
use capability_os.Base.{String, ◌≡◌, refl, true, none, some, strip}
use capability_os.Value.{null, text, end, field}
use capability_os.Exec.{raise, other}
use capability_os.Workspaces.{
  WorkspaceRegistry, FileSystem, NewWorkspace, load, add, update, remove,
}
use capability_os.Workspaces.Reach.{
  Reachable, empty, added, updated, IsWellFormed, Reachable-IsWellFormed,
}
use capability_os.Workspaces.Saved.{NoBadPath, IsSaved, Reachable-IsSaved}

abbrev fs : FileSystem
fs = record {
  resolve = λ p. p;
  path_error = λ v. elim v [ text p ↦ none | _ ↦ some "no path" ];
  exists = λ p. true;
  is_dir = λ p. true;
}

abbrev at_path : String → NewWorkspace
at_path p = record {
  name = " work ";
  path = p;
  access = "write";
  capabilities = text "*";
  color = "";
  icon = "";
}

abbrev one : WorkspaceRegistry
one = (add fs "1" "now" (at_path "/a") (load none)).1

abbrev two : WorkspaceRegistry
two = (add fs "2" "now" (at_path "/a/b") one).1

abbrev renamed : WorkspaceRegistry
renamed = (update fs "ws_1" (field "name" (text "x") (field "id" (text "y") end)) two).1

abbrev renamed_one : WorkspaceRegistry
renamed_one = (update fs "ws_1" (field "name" (text "x") end) one).1

one-Reachable : Reachable fs one
one-Reachable = added "1" "now" (at_path "/a") empty

renamed-Reachable : Reachable fs renamed
renamed-Reachable =
    updated "ws_1" (field "name" (text "x") (field "id" (text "y") end))
      (added "2" "now" (at_path "/a/b") one-Reachable)

default_moves : (remove "ws_1" two).1.default_id ≡ some "ws_2"
unfolding remove add load strip
default_moves = refl

same_path_refused : (add fs "3" "now" (at_path "/a") two).1.default_id ≡ some "ws_1"
unfolding add load strip
same_path_refused = refl

Reachable-IsWellFormed_example : IsWellFormed renamed
Reachable-IsWellFormed_example = Reachable-IsWellFormed fs renamed renamed-Reachable

renamed_fine : NoBadPath fs renamed renamed-Reachable
unfolding renamed-Reachable one-Reachable
renamed_fine = ((refl, (refl, tt)), tt)

Reachable-IsSaved_example : IsSaved renamed
Reachable-IsSaved_example = Reachable-IsSaved fs renamed renamed-Reachable renamed_fine

-- An update that raises at its second field has written its first one, and the file does not have it.
half_updated :
    update fs "ws_1" (field "name" (text "x") (field "path" null end)) one
    ≡ (raise other "no path", record renamed_one { file = one.file })
unfolding update add load strip
half_updated = refl
