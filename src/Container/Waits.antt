-- ===== src/Container/Waits.antt =====
-- What the loop of `_resolve_order` of system/container/service_container.py does to the in-degrees: they
-- count what is not in the order yet.
use mathlib.Core.Bool.{false≢true}
use mathlib.Core.List.{append_assoc, append-nil}
use capability_os.Base.{Distinct}
use capability_os.Base.{
  ℕ, zero, suc, ◌+◌, ◌≤◌, String, true, false, not, ◌||◌, List, [], ◌∷◌, ◌++◌, length, contains,
  keep, ◌≡◌, ◌⊎◌, refl, sym, subst, ap, ◌∙◌, arith, eq_iff, eq_refl, ◌==◌, Bool-cases, inl, inr,
  All, if◌then◌else◌, Dict, insert, ℤ, pos, negsuc, pos_part,
}
use capability_os.Container.{degree_at, pred, is_zero, relax}
use capability_os.Container.Once.{degree-insert, contains-snoc}
use capability_os.Container.Edges.{count}

-- How many of the names are not in the order.
unfoldable pub left : List String → List String → ℕ
left order ns = length (keep (λ m. not (contains order m)) ns)

pub left-snoc :
    (order : List String) (node : String) (ns : List String)
    → contains order node ≡ false
    → left (order ++ node ∷ []) ns + count node ns ≡ left order ns
unfolding left
left-snoc order node [] new = omega arith
left-snoc order node (n ∷ ns) new = elim (Bool-cases (n == node)) [
  | inl same ↦
      let e = (eq_iff n node).0 same in
      let out = subst (λ y. contains order y ≡ false) (sym e) new in
      let back : node == n ≡ true = ground (arith, eq_iff node n) in
      rw (contains-snoc order node n, same, out, back) (omega (arith, left-snoc order node ns new))
  | inr differs ↦
      let back : node == n ≡ false = ground (arith, eq_iff node n, eq_iff n node) in
      elim (Bool-cases (contains order n)) [
        | inl there ↦
            rw (contains-snoc order node n, differs, there)
              (omega (arith, left-snoc order node ns new))
        | inr absent ↦
            rw (contains-snoc order node n, differs, absent, back)
              (omega (arith, left-snoc order node ns new))
      ]
]

pub left-zero : (order ns : List String) → left order ns ≡ 0 → All (λ m. contains order m ≡ true) ns
unfolding left
left-zero order [] h = tt
left-zero order (n ∷ ns) h = elim (Bool-cases (contains order n)) [
  | inl there ↦ (
    there,
    left-zero order ns (
        subst
          (λ b.
            length (
              if not b
              then n ∷ keep (λ m. not (contains order m)) ns
              else keep (λ m. not (contains order m)) ns)
            ≡ 0)
          there h),
  )
  | inr absent ↦
      let big =
        subst
          (λ b.
            length (
              if not b
              then n ∷ keep (λ m. not (contains order m)) ns
              else keep (λ m. not (contains order m)) ns)
            ≡ 0)
          absent h in
      absurd (omega arith)
]

pub left-pos :
    (order ns : List String)
    → 1 ≤ left order ns
    → (m : String) × (contains ns m ≡ true) × (contains order m ≡ false)
unfolding left
left-pos order [] h = absurd (omega arith)
left-pos order (n ∷ ns) h = elim (Bool-cases (contains order n)) [
  | inr absent ↦ (n, rw (eq_refl n) refl, absent)
  | inl there ↦
      let (m, inside, out) = left-pos order ns (
        subst
          (λ b.
            1
            ≤ length (
                if not b
                then n ∷ keep (λ m. not (contains order m)) ns
                else keep (λ m. not (contains order m)) ns))
          there h) in
      (m, rw inside (ground arith), out)
]

pub relax-degree :
    (x : String) (ns : List String) (d : Dict ℤ) (queue : List String) (k : ℕ)
    → degree_at x d ≡ pos (k + count x ns)
    → degree_at x (relax ns d queue).0 ≡ pos k
unfolding relax
relax-degree x [] d queue k h = h ∙ ap pos (omega arith)
relax-degree x (n ∷ ns) d queue k h =
    let v = pred (degree_at n d) in
    relax-degree x ns (insert n v d) (if is_zero v then queue ++ n ∷ [] else queue) k
      (elim (Bool-cases (n == x)) [
        | inr differs ↦
            let h' =
              subst (λ b. degree_at x d ≡ pos (k + ((if b then 1 else 0) + count x ns))) differs
                h in
            rw (degree-insert n x v d, differs) (h' ∙ ap pos (omega arith))
        | inl same ↦
            let h' =
              subst (λ b. degree_at x d ≡ pos (k + ((if b then 1 else 0) + count x ns))) same h in
            let down : pred (degree_at x d) ≡ pos (k + count x ns) =
              ap pred (h' ∙ ap pos {y = suc (k + count x ns)} (omega arith)) in
            rw (degree-insert n x v d, same)
              (subst (λ y. pred (degree_at y d) ≡ pos (k + count x ns)) (sym ((eq_iff n x).0 same))
                down)
      ])

-- Each plugin of the second list comes after what it needs: this stands in the first list, or before
-- it in the second.
abbrev pub Follows : (String → List String) → List String → List String → Type 0
Follows needs seen [] = Unit
Follows needs seen (x ∷ xs) =
    All (λ m. contains seen m ≡ true) (needs x) × Follows needs (seen ++ x ∷ []) xs

pub Follows-snoc :
    (needs : String → List String) (seen xs : List String) (y : String)
    → Follows needs seen xs
    → All (λ m. contains (seen ++ xs) m ≡ true) (needs y)
    → Follows needs seen (xs ++ y ∷ [])
Follows-snoc needs seen [] y h met =
    (subst (λ zs. All (λ m. contains zs m ≡ true) (needs y)) (append-nil seen) met, tt)
Follows-snoc needs seen (x ∷ xs) y h met = (
  h.0,
  Follows-snoc needs (seen ++ x ∷ []) xs y h.1 (
      subst (λ zs. All (λ m. contains zs m ≡ true) (needs y)) (sym (append_assoc seen (x ∷ []) xs))
        met),
)

pub contains-append :
    (xs ys : List String) (x : String) → contains (xs ++ ys) x ≡ contains xs x || contains ys x
contains-append [] ys x = refl
contains-append (y ∷ xs) ys x = ground (arith, contains-append xs ys x)

pub not_in_front :
    (xs ys : List String) (y : String) → Distinct (xs ++ y ∷ ys) → contains xs y ≡ false
not_in_front [] ys y h = refl
not_in_front (x ∷ xs) ys y h =
    let rest = not_in_front xs ys y h.1 in
    let split = contains-append xs (y ∷ ys) x in
    let out = h.0 in
    let apart : x == y ≡ false = ground (arith, eq_iff x y, eq_refl y, eq_iff y x) in
    rw (apart, rest) refl

-- A plugin is in the list, or it waits for another.
abbrev pub Awaits : Dict ℤ → List String → String → Type 0
Awaits d xs x = (contains xs x ≡ true) ⊎ (1 ≤ pos_part (degree_at x d))

pred-pos : (v : ℤ) → 1 ≤ pos_part v → is_zero (pred v) ≡ false → 1 ≤ pos_part (pred v)
pred-pos (pos zero) h k = absurd (omega arith)
pred-pos (pos (suc zero)) h k = absurd (false≢true (sym k))
pred-pos (pos (suc (suc n))) h k = omega arith
pred-pos (negsuc n) h k = absurd (omega arith)

step :
    (n : String) (d : Dict ℤ) (queue order : List String) (x : String)
    → Awaits d (order ++ queue) x
    → Awaits
        (insert n (pred (degree_at n d)) d)
        (order ++ (if is_zero (pred (degree_at n d)) then queue ++ n ∷ [] else queue))
        x
step n d queue order x (inl there) = elim (Bool-cases (is_zero (pred (degree_at n d)))) [
  | inr waits ↦ rw waits (inl there)
  | inl free ↦ rw free (
      inl (
        subst (λ zs. contains zs x ≡ true) (append_assoc order queue (n ∷ []))
          (rw (contains-append (order ++ queue) (n ∷ []) x, there) refl)))
]
step n d queue order x (inr busy) = elim (Bool-cases (n == x)) [
  | inr differs ↦ inr (rw (degree-insert n x (pred (degree_at n d)) d, differs) busy)
  | inl same ↦
      let e = (eq_iff n x).0 same in
      elim (Bool-cases (is_zero (pred (degree_at n d)))) [
        | inl free ↦ rw free (
            inl (
              subst (λ zs. contains zs x ≡ true) (append_assoc order queue (n ∷ []))
                (rw (contains-append (order ++ queue) (n ∷ []) x, same) (ground arith))))
        | inr waits ↦ inr (
            rw (degree-insert n x (pred (degree_at n d)) d, same)
              (pred-pos (degree_at n d) (subst (λ y. 1 ≤ pos_part (degree_at y d)) (sym e) busy)
                waits))
      ]
]

pub relax-Awaits :
    (ns : List String) (d : Dict ℤ) (queue order : List String) (x : String)
    → Awaits d (order ++ queue) x
    → Awaits (relax ns d queue).0 (order ++ (relax ns d queue).1) x
unfolding relax
relax-Awaits [] d queue order x h = h
relax-Awaits (n ∷ ns) d queue order x h =
    let v = pred (degree_at n d) in
    relax-Awaits ns (insert n v d) (if is_zero v then queue ++ n ∷ [] else queue) order x
      (step n d queue order x h)
