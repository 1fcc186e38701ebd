-- ===== src/Policy/Order.antt =====
-- The order of the rules of system/sdk/policy.py.
use mathlib.Core.List.Perm
use mathlib.Core.List.{Perm, append-nil, perm_middle}
use capability_os.Base.{
  String, ◌≡◌, Bool, true, false, not, List, [], ◌∷◌, ◌++◌, All, keep, arith, ◌==◌, ℤ, ◌≤ℤ◌, leb_ℤ,
  Bool-cases, inl, inr,
}
use capability_os.Policy.{
  Rule, PolicyEngine, insert_rule, sort_rules, new_engine, add_rule, remove_rule, Request, evaluate,
  record_decision,
}

-- No rule of the list is above the given one.
abbrev pub AllBelow : Rule → List Rule → Type 0
AllBelow r rs = All (λ x. x.priority ≤ℤ r.priority) rs

-- Descending by priority.
abbrev pub IsSorted : List Rule → Type 0
IsSorted [] = Unit
IsSorted (r ∷ rs) = AllBelow r rs × IsSorted rs

leb-le : (a b : ℤ) → leb_ℤ a b ≡ true → a ≤ℤ b
leb-le a b h = ground arith

leb-ge : (a b : ℤ) → leb_ℤ a b ≡ false → b ≤ℤ a
leb-ge a b h = ground arith

le-trans : (a b c : ℤ) → a ≤ℤ b → b ≤ℤ c → a ≤ℤ c
le-trans a b c h k = omega arith

AllBelow-trans :
    (r s : Rule) (rs : List Rule) → r.priority ≤ℤ s.priority → AllBelow r rs → AllBelow s rs
AllBelow-trans r s [] h k = tt
AllBelow-trans r s (x ∷ rs) h k =
    (le-trans x.priority r.priority s.priority k.0 h, AllBelow-trans r s rs h k.1)

insert-AllBelow :
    (s r : Rule) (rs : List Rule)
    → r.priority ≤ℤ s.priority
    → AllBelow s rs
    → AllBelow s (insert_rule r rs)
unfolding insert_rule
insert-AllBelow s r [] h k = (h, tt)
insert-AllBelow s r (x ∷ xs) h k = elim (Bool-cases (leb_ℤ x.priority r.priority)) [
  | inl front ↦ rw front (h, k)
  | inr later ↦ rw later (k.0, insert-AllBelow s r xs h k.1)
]

insert-IsSorted : (r : Rule) (rs : List Rule) → IsSorted rs → IsSorted (insert_rule r rs)
unfolding insert_rule
insert-IsSorted r [] h = (tt, tt)
insert-IsSorted r (x ∷ xs) h = elim (Bool-cases (leb_ℤ x.priority r.priority)) [
  | inl front ↦
      let below = leb-le x.priority r.priority front in
      rw front ((below, AllBelow-trans x r xs below h.0), h)
  | inr later ↦
      rw later
        (insert-AllBelow x r xs (leb-ge x.priority r.priority later) h.0, insert-IsSorted r xs h.1)
]

sort-IsSorted : (rs : List Rule) → IsSorted (sort_rules rs)
unfolding sort_rules
sort-IsSorted [] = tt
sort-IsSorted (r ∷ rs) = insert-IsSorted r (sort_rules rs) (sort-IsSorted rs)

insert-perm : (r : Rule) (rs : List Rule) → Perm (insert_rule r rs) (r ∷ rs)
unfolding insert_rule
insert-perm r [] = Perm.refl (r ∷ [])
insert-perm r (x ∷ xs) = elim (Bool-cases (leb_ℤ x.priority r.priority)) [
  | inl front ↦ rw front (Perm.refl (r ∷ x ∷ xs))
  | inr later ↦ rw later (Perm.trans (Perm.cons x (insert-perm r xs)) (Perm.swap r x xs))
]

sort-perm : (rs : List Rule) → Perm (sort_rules rs) rs
unfolding sort_rules
sort-perm [] = Perm.refl []
sort-perm (r ∷ rs) = Perm.trans (insert-perm r (sort_rules rs)) (Perm.cons r (sort-perm rs))

keep-AllBelow :
    (p : Rule → Bool) (s : Rule) (rs : List Rule) → AllBelow s rs → AllBelow s (keep p rs)
keep-AllBelow p s [] h = tt
keep-AllBelow p s (x ∷ xs) h = elim (Bool-cases (p x)) [
  | inl kept ↦ rw kept (h.0, keep-AllBelow p s xs h.1)
  | inr gone ↦ rw gone (keep-AllBelow p s xs h.1)
]

keep-IsSorted : (p : Rule → Bool) (rs : List Rule) → IsSorted rs → IsSorted (keep p rs)
keep-IsSorted p [] h = tt
keep-IsSorted p (x ∷ xs) h = elim (Bool-cases (p x)) [
  | inl kept ↦ rw kept (keep-AllBelow p x xs h.0, keep-IsSorted p xs h.1)
  | inr gone ↦ rw gone (keep-IsSorted p xs h.1)
]

-- A new engine holds the given rules in descending order of priority; to add a rule keeps the rules
-- in that order and adds just that one; to remove a rule, and to evaluate a request, keep the order.
pub rules-IsSorted :
    (e : PolicyEngine) (given : List Rule) (default_effect : String) (r : Rule) (id : String)
    (q : Request)
    → IsSorted e.rules
    → IsSorted (new_engine given default_effect).rules
      × Perm (new_engine given default_effect).rules given
      × IsSorted (add_rule r e).rules
      × Perm (add_rule r e).rules (r ∷ e.rules)
      × IsSorted (remove_rule id e).1.rules
      × IsSorted (evaluate q e).1.rules
unfolding new_engine add_rule remove_rule evaluate record_decision
rules-IsSorted e given default_effect r id q h = (
  sort-IsSorted given,
  sort-perm given,
  sort-IsSorted (e.rules ++ r ∷ []),
  Perm.trans (sort-perm (e.rules ++ r ∷ [])) (rw append-nil at (perm_middle {a = r} e.rules [])),
  keep-IsSorted (λ x. not (x.id == id)) e.rules h,
  h,
)
