-- ===== src/ToolRuntime/Aliases.antt =====
-- The loop of `resolve_action` of system/tools/runtime/tool_runtime.py ends, and what it finds.
use capability_os.Base.{
  ℕ, zero, suc, ◌+◌, ◌<◌, ◌≤◌, String, ◌≡◌, ◌≢◌, refl, false, none, some, List, [], ◌∷◌, length,
  contains, arith, ◌==◌, eq_iff, eq_refl, if◌then◌else◌, Dict, lookup, Option-cases, Bool-cases,
  inl, inr, subst, sym, ap, ◌↔◌,
}
use capability_os.ToolRuntime.{Resolution, resolved, cycle, exhausted, resolve_loop, resolve_action}

-- The aliases that the loop has not passed through.
unvisited : List String → Dict String → ℕ
unvisited visited [] = 0
unvisited visited ((k, v) ∷ d) =
    let rest = unvisited visited d in if contains visited k then rest else rest + 1

unvisited-le :
    (visited : List String) (a : String) (d : Dict String)
    → unvisited (a ∷ visited) d ≤ unvisited visited d
unfolding unvisited
unvisited-le visited a [] = omega arith
unvisited-le visited a ((k, v) ∷ d) = ground (arith, unvisited-le visited a d)

unvisited-lt :
    (visited : List String) (a : String) (d : Dict String) (target : String)
    → lookup a d ≡ some target
    → contains visited a ≡ false
    → unvisited (a ∷ visited) d < unvisited visited d
unfolding unvisited lookup
unvisited-lt visited a [] target h new = cc
unvisited-lt visited a ((k, v) ∷ d) target h new = elim (Bool-cases (k == a)) [
  | inl same ↦ ground (arith, eq_iff k a, eq_refl a, unvisited-le visited a d)
  | inr other ↦
      let deeper : lookup a d ≡ some target = ground arith in
      ground (arith, eq_iff k a, eq_iff a k, unvisited-lt visited a d target deeper new)
]

unvisited-nil : (d : Dict String) → unvisited [] d ≡ length d
unfolding unvisited
unvisited-nil [] = refl
unvisited-nil ((k, v) ∷ d) = omega (arith, unvisited-nil d)

loop_ends :
    (f : ℕ) (d : Dict String) (a : String) (visited : List String)
    → unvisited visited d < f
    → resolve_loop f d a visited ≢ exhausted
unfolding resolve_loop
loop_ends zero d a visited h = absurd (omega arith)
loop_ends (suc f) d a visited h = elim (Option-cases (lookup a d)) [
  | inl last ↦ rw (last, resolve_loop) (λ e. cc)
  | inr (target, found) ↦ elim (Bool-cases (contains visited a)) [
    | inl seen ↦ rw (found, resolve_loop) (rw seen (λ e. cc))
    | inr new ↦
        rw (found, resolve_loop)
          (rw new (
            loop_ends f d target (a ∷ visited)
              (omega (arith, unvisited-lt visited a d target found new))))
  ]
]

-- The loop of `resolve_action` ends for every set of aliases, cyclic ones included.
pub resolve_action-ne-exhausted : (d : Dict String) (a : String) → resolve_action d a ≢ exhausted
unfolding resolve_action
resolve_action-ne-exhausted d a = loop_ends (length d + 1) d a [] (omega (arith, unvisited-nil d))

-- A chain of `n` aliases from `a` ends at `b`, a name which is no alias.
pub data Leads (d : Dict String) : ℕ → String → String → Type 0 where
  stop : {a : String} → lookup a d ≡ none → Leads d zero a a
  follow : {n : ℕ} {a t b : String} → lookup a d ≡ some t → Leads d n t b → Leads d (suc n) a b

loop-Leads :
    (f : ℕ) (d : Dict String) (a b : String) (visited : List String)
    → resolve_loop f d a visited ≡ resolved b
    → (n : ℕ) × Leads d n a b
unfolding resolve_loop
loop-Leads zero d a b visited h = cc
loop-Leads (suc f) d a b visited h = elim (Option-cases (lookup a d)) [
  | inl last ↦ (zero, subst (Leads d zero a) (ground arith) (stop last))
  | inr (target, found) ↦ elim (Bool-cases (contains visited a)) [
    | inl seen ↦ ground arith
    | inr new ↦
        let (n, chain) = loop-Leads f d target b (a ∷ visited) (ground arith) in
        (suc n, follow {t = target} found chain)
  ]
]

-- A name has one chain, with one length and one end.
Leads-unique :
    (d : Dict String) {n m : ℕ} {a b c : String} → Leads d n a b → Leads d m a c → (n ≡ m) × (b ≡ c)
Leads-unique d (stop h) (stop k) = (refl, refl)
Leads-unique d (stop h) (follow k q) = ground arith
Leads-unique d (follow h p) (stop k) = ground arith
Leads-unique d (follow {t = t} h p) (follow {n = m} {t = u} {b = c} k q) =
    let same : u ≡ t = ground arith in
    let (n≡m, b≡c) = Leads-unique d p (subst (λ x. Leads d m x c) same q) in (ap suc n≡m, b≡c)

-- Every name in the list has a longer chain to `b`.
abbrev Later : Dict String → String → ℕ → List String → Type 0
Later d b k [] = Unit
Later d b k (x ∷ xs) = ((n : ℕ) × Leads d n x b × (k < n)) × Later d b k xs

Later-weaken :
    (d : Dict String) (b : String) (k : ℕ) (xs : List String)
    → Later d b (suc k) xs
    → Later d b k xs
Later-weaken d b k [] h = tt
Later-weaken d b k (x ∷ xs) ((n, chain, longer), rest) =
    ((n, chain, omega arith), Later-weaken d b k xs rest)

new_of_Later :
    (d : Dict String) (a b : String) (k : ℕ) (visited : List String)
    → Leads d k a b
    → Later d b k visited
    → contains visited a ≡ false
new_of_Later d a b k [] chain h = refl
new_of_Later d a b k (x ∷ xs) chain ((n, longer, lt), rest) = elim (Bool-cases (x == a)) [
  | inl same ↦
      let lengths =
        Leads-unique d chain (subst (λ y. Leads d n y b) ((eq_iff x a).0 same) longer) in
      absurd (omega arith)
  | inr other ↦ rw other (new_of_Later d a b k xs chain rest)
]

loop-ne-cycle :
    (f : ℕ) (d : Dict String) {k : ℕ} {a b : String} (visited : List String)
    → Leads d k a b
    → Later d b k visited
    → resolve_loop f d a visited ≢ cycle
unfolding resolve_loop
loop-ne-cycle zero d visited chain h = λ e. cc
loop-ne-cycle (suc f) d visited (stop last) h = rw (last, resolve_loop) (λ e. cc)
loop-ne-cycle (suc f) d {k = suc n} {a} {b} visited (follow {t = t} found chain) h =
    rw (found, resolve_loop)
      (rw (new_of_Later d a b (suc n) visited (follow found chain) h) (
        loop-ne-cycle f d (a ∷ visited) chain
          ((suc n, follow found chain, omega arith), Later-weaken d b n visited h)))

resolved_of_Leads :
    (d : Dict String) (a b : String) {n : ℕ}
    → Leads d n a b
    → (r : Resolution) → resolve_action d a ≡ r
    → r ≡ resolved b
unfolding resolve_action
resolved_of_Leads d a b chain (resolved c) e =
    ap resolved (sym (Leads-unique d chain (loop-Leads (length d + 1) d a c [] e).1).1)
resolved_of_Leads d a b chain cycle e = absurd (loop-ne-cycle (length d + 1) d [] chain tt e)
resolved_of_Leads d a b chain exhausted e = absurd (resolve_action-ne-exhausted d a e)

-- `resolve_action` finds a name exactly when the chain of aliases from the action ends at that
-- name.
pub resolve_action_iff :
    (d : Dict String) (a b : String) → (resolve_action d a ≡ resolved b) ↔ ((n : ℕ) × Leads d n a b)
unfolding resolve_action
resolve_action_iff d a b =
    (loop-Leads (length d + 1) d a b [], λ (n, chain). resolved_of_Leads d a b chain _ refl)
