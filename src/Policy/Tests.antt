-- ===== src/Policy/Tests.antt =====
-- Runs of system/sdk/permissions.py and system/sdk/policy.py on small inputs.
use mathlib.Core.List.{Perm}
use capability_os.Base.{◌≡◌, ◌↔◌, refl, true, none, some, [], ◌∷◌, All, arith, pos}
use capability_os.Permissions.{permission_matches, validate_permissions}
use capability_os.Permissions.Matching.{Covers, permission_matches_iff}
use capability_os.Policy.{
  Rule, PolicyEngine, Request, new_engine, add_rule, remove_rule, evaluate,
  check_plugin_permissions,
}
use capability_os.Policy.Order.{IsSorted, rules-IsSorted}
use capability_os.Policy.Decisions.{
  Decided, evaluate-Decided, plugin_request, check_plugin_permissions_iff,
}

invalid_permissions :
    validate_permissions ("filesystem.read" ∷ "filesystem.fly" ∷ "voice.*" ∷ "x" ∷ [])
    ≡ "filesystem.fly" ∷ "x" ∷ []
unfolding validate_permissions
invalid_permissions = refl

permission_matches_iff_example :
    (permission_matches "filesystem.*" "filesystem.read" ≡ true)
    ↔ Covers "filesystem.*" "filesystem.read"
permission_matches_iff_example = permission_matches_iff "filesystem.*" "filesystem.read"

abbrev allow_files : Rule
allow_files = record {
  id = "files";
  description = "files are free";
  target = record { plugin_ids = none; user_roles = none; workspace_ids = none; tags = none };
  permissions = "filesystem.*" ∷ [];
  effect = "allow";
  priority = pos 1;
}

abbrev deny_writer : Rule
deny_writer = record {
  id = "writer";
  description = "not this plugin";
  target = record {
    plugin_ids = some ("p" ∷ []);
    user_roles = none;
    workspace_ids = none;
    tags = none;
  };
  permissions = "filesystem.write" ∷ [];
  effect = "deny";
  priority = pos 9;
}

abbrev engine : PolicyEngine
engine = record { rules = deny_writer ∷ allow_files ∷ []; default_effect = "deny"; audit = [] }

abbrev request : Request
request = plugin_request "p" [] "now" "filesystem.write"

denied_by_priority : (evaluate request engine).0.rule_id ≡ some "writer"
unfolding evaluate
denied_by_priority = refl

sorts_rules : (new_engine (allow_files ∷ deny_writer ∷ []) "deny").rules ≡ engine.rules
unfolding new_engine
sorts_rules = refl

engine-IsSorted : IsSorted engine.rules
engine-IsSorted = ((omega arith, tt), (tt, tt))

rules-IsSorted_example :
    IsSorted (new_engine (allow_files ∷ []) "deny").rules
    × Perm (new_engine (allow_files ∷ []) "deny").rules (allow_files ∷ [])
    × IsSorted (add_rule allow_files engine).rules
    × Perm (add_rule allow_files engine).rules (allow_files ∷ engine.rules)
    × IsSorted (remove_rule "files" engine).1.rules
    × IsSorted (evaluate request engine).1.rules
rules-IsSorted_example =
    rules-IsSorted engine (allow_files ∷ []) "deny" allow_files "files" request engine-IsSorted

evaluate-Decided_example : Decided engine request (evaluate request engine).0
evaluate-Decided_example = evaluate-Decided engine request engine-IsSorted

check_plugin_permissions_iff_example :
    ((check_plugin_permissions "p" ("filesystem.read" ∷ []) [] "now" engine).0 ≡ [])
    ↔ All
        (λ p. (evaluate (plugin_request "p" [] "now" p) engine).0.allowed ≡ true)
        ("filesystem.read" ∷ [])
check_plugin_permissions_iff_example =
    check_plugin_permissions_iff "p" ("filesystem.read" ∷ []) [] "now" engine
