-- ===== src/ToolRuntime/Tests.antt =====
-- Runs of system/tools/runtime/tool_runtime.py on small inputs.
use capability_os.Base.{ℕ, String, ◌≡◌, ◌≢◌, ◌↔◌, refl, [], ◌∷◌, Dict}
use capability_os.ToolRuntime.{resolved, cycle, exhausted, resolve_action}
use capability_os.ToolRuntime.Aliases.{Leads, resolve_action-ne-exhausted, resolve_action_iff}

abbrev aliases : Dict String
aliases = ("ls", "list") ∷ ("list", "filesystem_list_directory") ∷ ("a", "b") ∷ ("b", "a") ∷ []

resolve_chain : resolve_action aliases "ls" ≡ resolved "filesystem_list_directory"
unfolding resolve_action
resolve_chain = refl

resolve_cycle : resolve_action aliases "a" ≡ cycle
unfolding resolve_action
resolve_cycle = refl

resolve_action-ne-exhausted_example : resolve_action aliases "a" ≢ exhausted
resolve_action-ne-exhausted_example = resolve_action-ne-exhausted aliases "a"

resolve_action_iff_example :
    (resolve_action aliases "ls" ≡ resolved "filesystem_list_directory")
    ↔ ((n : ℕ) × Leads aliases n "ls" "filesystem_list_directory")
resolve_action_iff_example = resolve_action_iff aliases "ls" "filesystem_list_directory"
