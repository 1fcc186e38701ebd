-- ===== src/Policy/Decisions.antt =====
-- What system/sdk/policy.py decides.
use mathlib.Core.Bool.{false≢true}
use mathlib.Core.List.{Mem, mem-cons_self, mem-cons_of_mem}
use capability_os.Base.{
  String, ◌≡◌, ◌↔◌, ◌⊎◌, refl, true, false, Option, none, some, List, [], ◌∷◌, All, arith, ◌≤ℤ◌,
  Bool-cases, inl, inr,
}
use capability_os.Policy.{
  Rule, PolicyEngine, Decision, Request, applies, first_rule, evaluate, rule_decision,
  default_decision, decide_rule, check_plugin_permissions, record_decision,
}
use capability_os.Policy.Order.{IsSorted, AllBelow}

-- The rule is in the list and applies, and every rule of the list that applies is at most as high.
abbrev pub IsTop : Request → List Rule → Rule → Type 0
IsTop q rs r =
    Mem r rs × (applies r q ≡ true) × All (λ x. applies x q ≡ true → x.priority ≤ℤ r.priority) rs

abbrev pub NoneApplies : Request → List Rule → Type 0
NoneApplies q rs = All (λ x. applies x q ≡ false) rs

-- What `first_rule` finds.
abbrev Found : Request → List Rule → Option Rule → Type 0
Found q rs none = NoneApplies q rs
Found q rs (some r) = IsTop q rs r

bounded :
    (q : Request) (r : Rule) (rs : List Rule)
    → AllBelow r rs
    → All (λ x. applies x q ≡ true → x.priority ≤ℤ r.priority) rs
bounded q r [] h = tt
bounded q r (x ∷ rs) h = (λ _. h.0, bounded q r rs h.1)

Found-later :
    (q : Request) (x : Rule) (rs : List Rule) (o : Option Rule)
    → applies x q ≡ false
    → Found q rs o
    → Found q (x ∷ rs) o
Found-later q x rs none no_match h = (no_match, h)
Found-later q x rs (some r) no_match (m, fits, top) =
    (mem-cons_of_mem x m, fits, ((λ yes_match. ground arith), top))

first_rule-Found : (q : Request) (rs : List Rule) → IsSorted rs → Found q rs (first_rule rs q)
unfolding first_rule
first_rule-Found q [] h = tt
first_rule-Found q (r ∷ rs) h = elim (Bool-cases (applies r q)) [
  | inl fits ↦ rw fits (mem-cons_self, fits, ((λ _. omega arith), bounded q r rs h.0))
  | inr no_match ↦
      rw no_match (Found-later q r rs (first_rule rs q) no_match (first_rule-Found q rs h.1))
]

abbrev pub Decided : PolicyEngine → Request → Decision → Type 0
Decided e q d =
    ((r : Rule) × IsTop q e.rules r × (d ≡ rule_decision r))
    ⊎ (NoneApplies q e.rules × (d ≡ default_decision e.default_effect))

Decided-by :
    (e : PolicyEngine) (q : Request) (o : Option Rule)
    → Found q e.rules o
    → Decided e q (decide_rule e.default_effect o)
unfolding decide_rule
Decided-by e q none h = inr (h, refl)
Decided-by e q (some r) h = inl (r, h, refl)

-- Over rules in descending order of priority, a request is decided by a rule that applies to it and
-- than which no rule that applies is higher; where no rule applies, it is decided by the default.
pub evaluate-Decided :
    (e : PolicyEngine) (q : Request) → IsSorted e.rules → Decided e q (evaluate q e).0
unfolding evaluate
evaluate-Decided e q h = Decided-by e q (first_rule e.rules q) (first_rule-Found q e.rules h)

-- The request of a plugin for one of its declared permissions.
abbrev pub plugin_request : String → List String → String → String → Request
plugin_request plugin_id plugin_tags time permission = record {
  permission = permission;
  plugin_id = plugin_id;
  user_role = "";
  workspace_id = "";
  plugin_tags = plugin_tags;
  time = time;
}

-- `check_plugin_permissions` reports nothing exactly when the engine, as it is at the start, allows
-- the plugin each of its declared permissions.
pub check_plugin_permissions_iff :
    (plugin_id : String) (perms plugin_tags : List String) (time : String) (e : PolicyEngine)
    → ((check_plugin_permissions plugin_id perms plugin_tags time e).0 ≡ [])
      ↔ All (λ p. (evaluate (plugin_request plugin_id plugin_tags time p) e).0.allowed ≡ true) perms
unfolding check_plugin_permissions evaluate record_decision
check_plugin_permissions_iff plugin_id [] plugin_tags time e = ((λ _. tt), λ _. refl)
check_plugin_permissions_iff plugin_id (p ∷ perms) plugin_tags time e =
    let q = plugin_request plugin_id plugin_tags time p in
    let rest = check_plugin_permissions_iff plugin_id perms plugin_tags time (evaluate q e).1 in
    elim (Bool-cases (evaluate q e).0.allowed) [
      | inl granted ↦ rw granted ((λ h. (refl, rest.0 h)), λ h. rest.1 h.1)
      | inr denied ↦ rw denied ((λ h. cc), λ h. absurd (false≢true h.0))
    ]
