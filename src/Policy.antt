-- ===== src/Policy.antt =====
-- system/sdk/policy.py: the policy engine, its rules by priority, and its audit log. The external
-- audit logger, whose errors are dropped, is not part of the state. Times are given.
pub mod Order
pub mod Decisions
pub mod Audit
mod Tests
use capability_os.Base.{
  ℕ, ◌+◌, ◌-◌, String, Bool, true, false, ◌&&◌, ◌||◌, not, Option, none, some, List, [], ◌∷◌, ◌++◌,
  length, drop, keep, any, contains, is_some, ltb, ◌==◌, if◌then◌else◌, ◌⋯◌, ℤ, leb_ℤ,
}
use capability_os.Permissions.{permission_matches}

pub record Target : Type 0 where
  pub plugin_ids : Option (List String)
  pub user_roles : Option (List String)
  pub workspace_ids : Option (List String)
  pub tags : Option (List String)

pub record Rule : Type 0 where
  pub id : String
  pub description : String
  pub target : Target
  pub permissions : List String
  pub effect : String
  pub priority : ℤ

pub record Decision : Type 0 where
  pub allowed : Bool
  pub rule_id : Option String
  pub reason : String

pub record AuditEntry : Type 0 where
  pub timestamp : String
  pub permission : String
  pub plugin_id : String
  pub user_role : String
  pub decision : Decision

pub record PolicyEngine : Type 0 where
  pub rules : List Rule
  pub default_effect : String
  pub audit : List AuditEntry

-- The arguments of `evaluate`, with the time at which it is called.
pub record Request : Type 0 where
  pub permission : String
  pub plugin_id : String
  pub user_role : String
  pub workspace_id : String
  pub plugin_tags : List String
  pub time : String

-- A stable sort by descending priority: a rule goes in front of the rules that are not above it.
unfoldable pub insert_rule : Rule → List Rule → List Rule
insert_rule r [] = r ∷ []
insert_rule r (x ∷ xs) =
    let rest = insert_rule r xs in if leb_ℤ x.priority r.priority then r ∷ x ∷ xs else x ∷ rest

unfoldable pub sort_rules : List Rule → List Rule
unfolding insert_rule
sort_rules [] = []
sort_rules (r ∷ rs) = insert_rule r (sort_rules rs)

unfoldable pub new_engine : List Rule → String → PolicyEngine
unfolding sort_rules
new_engine rules default_effect = record {
  rules = sort_rules rules;
  default_effect = default_effect;
  audit = [];
}

unfoldable pub rule_covers_permission : Rule → String → Bool
unfolding permission_matches
rule_covers_permission rule permission = any (λ p. permission_matches p permission) rule.permissions

-- How one criterion of a target fares: it is absent, it matches, it rules the rule out, or it says
-- nothing because the request does not name such a thing.
pub data Criterion : Type 0 where
  absent matching excluding silent : Criterion

unfoldable pub name_criterion : Option (List String) → String → Criterion
name_criterion none name = absent
name_criterion (some names) name =
    if name == "" then silent else if contains names name then matching else excluding

abbrev is_nil : List String → Bool
is_nil [] = true
is_nil (_ ∷ _) = false

unfoldable pub tag_criterion : Option (List String) → List String → Criterion
tag_criterion none plugin_tags = absent
tag_criterion (some tags) plugin_tags =
    if any (λ t. contains plugin_tags t) tags
    then matching
    else if is_nil plugin_tags
    then silent
    else excluding

abbrev pub is_absent : Criterion → Bool
is_absent absent = true
is_absent _ = false

abbrev pub is_matching : Criterion → Bool
is_matching matching = true
is_matching _ = false

abbrev pub is_excluding : Criterion → Bool
is_excluding excluding = true
is_excluding _ = false

-- The criteria in the order of the code. A target with no criterion applies to everyone.
unfoldable pub criteria : Target → Request → List Criterion
unfolding name_criterion tag_criterion
criteria t q =
    name_criterion t.plugin_ids q.plugin_id
    ∷ name_criterion t.user_roles q.user_role
    ∷ name_criterion t.workspace_ids q.workspace_id
    ∷ tag_criterion t.tags q.plugin_tags
    ∷ []

-- The criteria in turn: one that excludes ends the test; at the end, one must have matched, unless
-- there is none.
abbrev judge : Bool → Bool → List Criterion → Bool
judge has_criteria matched [] = matched || not has_criteria
judge has_criteria matched (c ∷ cs) =
    let rest = judge has_criteria (matched || is_matching c) cs in
    if is_excluding c then false else rest

unfoldable pub rule_matches_target : Rule → Request → Bool
unfolding criteria
rule_matches_target rule q =
    let cs = criteria rule.target q in judge (any (λ c. not (is_absent c)) cs) false cs

unfoldable pub applies : Rule → Request → Bool
unfolding rule_covers_permission rule_matches_target
applies rule q = rule_covers_permission rule q.permission && rule_matches_target rule q

unfoldable pub rule_decision : Rule → Decision
rule_decision rule = record {
  allowed = rule.effect == "allow";
  rule_id = some rule.id;
  reason = rule.description;
}

unfoldable pub default_decision : String → Decision
default_decision default_effect = record {
  allowed = default_effect == "allow";
  rule_id = none;
  reason = "default policy";
}

-- The loop over the rules: the first that applies.
unfoldable pub first_rule : List Rule → Request → Option Rule
unfolding applies
first_rule [] q = none
first_rule (r ∷ rs) q = let rest = first_rule rs q in if applies r q then some r else rest

decide_rule : String → Option Rule → Decision
unfolding rule_decision default_decision
decide_rule default_effect none = default_decision default_effect
decide_rule default_effect (some r) = rule_decision r

unfoldable pub trim : List AuditEntry → List AuditEntry
trim log = if ltb 5000 (length log) then drop (length log - 2500) log else log

unfoldable pub record_decision : Request → Decision → PolicyEngine → PolicyEngine
unfolding trim
record_decision q d e = record e {
  audit = trim (
      e.audit
      ++ record {
        timestamp = q.time;
        permission = q.permission;
        plugin_id = q.plugin_id;
        user_role = q.user_role;
        decision = d;
      }
        ∷ []);
}

unfoldable pub evaluate : Request → PolicyEngine → Decision × PolicyEngine
unfolding first_rule decide_rule record_decision
evaluate q e =
    let d = decide_rule e.default_effect (first_rule e.rules q) in (d, record_decision q d e)

-- The loop over the declared permissions; the user's role and the workspace are not given.
unfoldable pub check_plugin_permissions :
    String → List String → List String → String → PolicyEngine → List String × PolicyEngine
unfolding evaluate
check_plugin_permissions plugin_id [] plugin_tags time e = ([], e)
check_plugin_permissions plugin_id (perm ∷ perms) plugin_tags time e =
    let (d, e') =
      evaluate
        (record {
          permission = perm;
          plugin_id = plugin_id;
          user_role = "";
          workspace_id = "";
          plugin_tags = plugin_tags;
          time = time;
        })
        e in
    let (denied, e'') = check_plugin_permissions plugin_id perms plugin_tags time e' in
    (if d.allowed then denied else (perm ⋯ ": " ⋯ d.reason) ∷ denied, e'')

unfoldable pub add_rule : Rule → PolicyEngine → PolicyEngine
unfolding sort_rules
add_rule rule e = record e { rules = sort_rules (e.rules ++ rule ∷ []) }

unfoldable pub remove_rule : String → PolicyEngine → Bool × PolicyEngine
remove_rule rule_id e =
    let kept = keep (λ r. not (r.id == rule_id)) e.rules in
    (ltb (length kept) (length e.rules), record e { rules = kept })

-- The `audit_log` property: the last 200 entries.
unfoldable pub audit_log : PolicyEngine → List AuditEntry
audit_log e = drop (length e.audit - 200) e.audit

unfoldable pub clear_audit_log : PolicyEngine → PolicyEngine
clear_audit_log e = record e { audit = [] }
