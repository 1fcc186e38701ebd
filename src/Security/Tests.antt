-- ===== src/Security/Tests.antt =====
-- Runs of system/core/security/security_service.py on small inputs.
use capability_os.Base.{String, ◌≡◌, ◌≢◌, ◌↔◌, refl, Option, some, [], ◌∷◌, split, strip}
use capability_os.Value.{Fields, end, field, text, get}
use capability_os.Security.{free, confirm, protected, SecurityService, PathParts, classify}
use capability_os.Security.Free.{IsFree, classify-free_iff}

abbrev service : SecurityService
service = record {
  workspace_roots = ("" ∷ "work" ∷ []) ∷ [];
  free_tools = "filesystem_read_file" ∷ "filesystem_write_file" ∷ [];
  free_caps = "read_file" ∷ [];
  confirm_tools = "execution_run_command" ∷ [];
  confirm_caps = [];
  protected_tools = "system_kill" ∷ [];
  protected_caps = [];
  critical_patterns = "/etc/" ∷ ".SSH" ∷ [];
}

abbrev parts : String → Option PathParts
parts s = some (split b'/' s)

abbrev at_path : String → Fields
at_path p = field "path" (text p) end

read_is_free : classify b'/' parts service "" "filesystem_read_file" (at_path "/tmp/a") ≡ free
unfolding classify get strip split
read_is_free = refl

write_outside :
    classify b'/' parts service "" "filesystem_write_file" (at_path "/tmp/a") ≡ protected
unfolding classify get strip split
write_outside = refl

critical_path :
    classify b'/' parts service "" "filesystem_read_file" (at_path "\\home\\.ssh\\id") ≡ protected
unfolding classify get strip split
critical_path = refl

unknown_tool : classify b'/' parts service "" "x" (at_path "/tmp/a") ≡ confirm
unfolding classify get strip split
unknown_tool = refl

classify-free_iff_example :
    (classify b'/' parts service "" "filesystem_write_file" (at_path "/work/a") ≡ free)
    ↔ IsFree b'/' parts service "" "filesystem_write_file" (at_path "/work/a")
classify-free_iff_example =
    classify-free_iff b'/' parts service "" "filesystem_write_file" (at_path "/work/a")

rooted : service.workspace_roots ≢ []
rooted = λ e. cc

write_is_free : classify b'/' parts service "" "filesystem_write_file" (at_path "/work/a") ≡ free
unfolding classify get strip split
write_is_free = refl
