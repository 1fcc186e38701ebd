-- ===== src/Container/Once.antt =====
-- What the loop of `_resolve_order` of system/container/service_container.py puts into the order, it puts
-- there once.
use mathlib.Core.Bool.{false≢true}
use mathlib.Core.List.{append_assoc, append-nil}
use capability_os.Base.{
  ℕ, zero, suc, String, true, false, ◌||◌, some, List, [], ◌∷◌, ◌++◌, contains, ◌≡◌, refl, sym,
  subst, ◌∙◌, arith, eq_iff, eq_refl, ◌==◌, Bool-cases, Option-cases, inl, inr, All, All-map,
  All-append, if◌then◌else◌, Dict, lookup, insert, keys, lookup-insert, ℤ, pos, negsuc, pos_part,
  AllValues, AllValues-lookup, Distinct,
}
use capability_os.Container.{
  Plugin, Graph, list_at, degree_at, pred, no_edges, build, is_zero, ready, relax, drain,
}
use capability_os.Container.Order.{Known, contains-cons, degree-here, degree-there}

pub contains-snoc :
    (xs : List String) (y x : String) → contains (xs ++ y ∷ []) x ≡ contains xs x || y == x
contains-snoc [] y x = ground arith
contains-snoc (z ∷ xs) y x = ground (arith, contains-snoc xs y x)

pub Distinct-snoc :
    (xs : List String) (y : String) → Distinct xs → contains xs y ≡ false → Distinct (xs ++ y ∷ [])
Distinct-snoc [] y h new = (refl, tt)
Distinct-snoc (x ∷ xs) y h new = (
  rw (contains-snoc xs y x) (ground (arith, eq_iff x y, eq_iff y x)),
  Distinct-snoc xs y h.1 (ground arith),
)

-- None of the plugins waits for another.
abbrev pub Idle : Dict ℤ → List String → Type 0
Idle d xs = All (λ x. pos_part (degree_at x d) ≡ 0) xs

new_of_Idle :
    (d : Dict ℤ) (n : String) (xs : List String)
    → pos_part (degree_at n d) ≡ 1
    → Idle d xs
    → contains xs n ≡ false
new_of_Idle d n [] busy h = refl
new_of_Idle d n (x ∷ xs) busy h = elim (Bool-cases (x == n)) [
  | inl same ↦
      let still = subst (λ y. pos_part (degree_at y d) ≡ 0) ((eq_iff x n).0 same) h.0 in
      absurd (omega arith)
  | inr differs ↦ rw differs (new_of_Idle d n xs busy h.1)
]

pub degree-insert :
    (k j : String) (v : ℤ) (d : Dict ℤ)
    → degree_at j (insert k v d) ≡ (if k == j then v else degree_at j d)
unfolding degree_at
degree-insert k j v d = elim (Bool-cases (k == j)) [
  | inl same ↦ rw (lookup-insert k j v d, same, degree_at) refl
  | inr differs ↦ rw (lookup-insert k j v d, differs, degree_at) refl
]

Idle-insert :
    (d : Dict ℤ) (n : String) (v : ℤ) (xs : List String)
    → (pos_part (degree_at n d) ≡ 0 → pos_part v ≡ 0)
    → Idle d xs
    → Idle (insert n v d) xs
Idle-insert d n v [] less h = tt
Idle-insert d n v (x ∷ xs) less h = (
  elim (Bool-cases (n == x)) [
    | inl same ↦
        rw (degree-insert n x v d, same)
          (less (subst (λ y. pos_part (degree_at y d) ≡ 0) (sym ((eq_iff n x).0 same)) h.0))
    | inr differs ↦ rw (degree-insert n x v d, differs) h.0
  ],
  Idle-insert d n v xs less h.1,
)

pred-less : (v : ℤ) → pos_part v ≡ 0 → pos_part (pred v) ≡ 0
pred-less (pos zero) h = refl
pred-less (pos (suc n)) h = absurd (omega arith)
pred-less (negsuc n) h = refl

pred-zero : (v : ℤ) → is_zero (pred v) ≡ true → (pos_part v ≡ 1) × (pos_part (pred v) ≡ 0)
pred-zero (pos zero) h = absurd (false≢true h)
pred-zero (pos (suc zero)) h = (refl, refl)
pred-zero (pos (suc (suc n))) h = absurd (false≢true h)
pred-zero (negsuc n) h = absurd (false≢true h)

own : (n : String) (v : ℤ) (d : Dict ℤ) → pos_part v ≡ 0 → pos_part (degree_at n (insert n v d)) ≡ 0
own n v d h = rw (degree-insert n n v d, eq_refl n) h

-- The graph of all plugins, as the loop starts with it.
abbrev pub start_graph : {W : Type 0} → Dict (Plugin W) → Graph
start_graph ps = build (keys ps) ps (record { graph = []; in_degree = no_edges (keys ps) })

-- The order and the queue hold plugins, each once, none of which waits.
abbrev pub Once : List String → Dict ℤ → List String → Type 0
Once ids d xs = Distinct xs × Idle d xs × Known ids xs

pub relax-Once :
    (ids ns : List String) (d : Dict ℤ) (queue order : List String)
    → Known ids ns
    → Once ids d (order ++ queue)
    → Once ids (relax ns d queue).0 (order ++ (relax ns d queue).1)
unfolding relax
relax-Once ids [] d queue order known h = h
relax-Once ids (n ∷ ns) d queue order known h =
    let v = pred (degree_at n d) in
    let idle = Idle-insert d n v (order ++ queue) (λ e. pred-less (degree_at n d) e) h.1 in
    relax-Once ids ns (insert n v d) (if is_zero v then queue ++ n ∷ [] else queue) order known.1
      (elim (Bool-cases (is_zero v)) [
        | inr waits ↦ rw waits (h.0, idle, h.2)
        | inl free ↦
            let (busy, zeroed) = pred-zero (degree_at n d) free in
            let new = new_of_Idle d n (order ++ queue) busy h.1 in
            rw free (
              subst (Once ids (insert n v d)) (append_assoc order queue (n ∷ [])) (
                Distinct-snoc (order ++ queue) n h.0 new,
                All-append (λ x. pos_part (degree_at x (insert n v d)) ≡ 0) (order ++ queue)
                    (n ∷ []) idle (own n v d zeroed, tt),
                All-append (λ x. contains ids x ≡ true) (order ++ queue) (n ∷ []) h.2 (known.0, tt),
              ))
      ])

pub list_at-Known :
    (ids : List String) (k : String) (graph : Dict (List String))
    → AllValues (Known ids) graph
    → Known ids (list_at k graph)
unfolding list_at
list_at-Known ids k graph h = elim (Option-cases (lookup k graph)) [
  | inl absent ↦ rw (absent, list_at) tt
  | inr (xs, found) ↦ rw (found, list_at) (AllValues-lookup (Known ids) k xs graph found h)
]

pub drain-Once :
    (ids : List String) (f : ℕ) (graph : Dict (List String)) (d : Dict ℤ)
    (queue order r : List String)
    → AllValues (Known ids) graph
    → Once ids d (order ++ queue)
    → drain f graph d queue order ≡ some r
    → Distinct r × Known ids r
unfolding drain
drain-Once ids f graph d [] order r edges h e =
    let same : order ≡ r = cc in
    let (a, b, c) = subst (Once ids d) (append-nil order ∙ same) h in (a, c)
drain-Once ids zero graph d (node ∷ queue) order r edges h e = cc
drain-Once ids (suc f) graph d (node ∷ queue) order r edges h e =
    drain-Once ids f graph (relax (list_at node graph) d queue).0
      (relax (list_at node graph) d queue).1 (order ++ node ∷ []) r edges
      (relax-Once ids (list_at node graph) d queue (order ++ node ∷ [])
        (list_at-Known ids node graph edges)
        (subst (Once ids d) (sym (append_assoc order (node ∷ []) queue)) h))
      e

contains-ready :
    (d : Dict ℤ) (x : String) → contains (keys d) x ≡ false → contains (ready d) x ≡ false
unfolding keys ready
contains-ready [] x h = refl
contains-ready ((k, v) ∷ d) x h = elim (Bool-cases (is_zero v)) [
  | inl free ↦ rw free (ground (arith, contains-ready d x))
  | inr waits ↦ rw waits (contains-ready d x (ground arith))
]

Idle-cons :
    (k : String) (v : ℤ) (d : Dict ℤ) (xs : List String)
    → contains xs k ≡ false
    → Idle d xs
    → Idle ((k, v) ∷ d) xs
Idle-cons k v d [] new h = tt
Idle-cons k v d (x ∷ xs) new h =
    let apart : k == x ≡ false = ground (arith, eq_iff x k, eq_iff k x) in
    (rw (degree-there x k v d apart) h.0, Idle-cons k v d xs (ground arith) h.1)

zero_part : (v : ℤ) → is_zero v ≡ true → pos_part v ≡ 0
zero_part (pos zero) h = refl
zero_part (pos (suc n)) h = absurd (false≢true h)
zero_part (negsuc n) h = absurd (false≢true h)

pub ready-Once : (d : Dict ℤ) → Distinct (keys d) → Once (keys d) d (ready d)
unfolding keys ready
ready-Once [] h = (tt, tt, tt)
ready-Once ((k, v) ∷ d) h =
    let (a, b, c) = ready-Once d h.1 in
    let new = contains-ready d k h.0 in
    let known =
      All-map {P = λ y. contains (keys d) y ≡ true} {Q = λ y. contains (k ∷ keys d) y ≡ true}
        (λ y. contains-cons k y (keys d)) (ready d) c in
    elim (Bool-cases (is_zero v)) [
      | inr waits ↦ rw waits (a, Idle-cons k v d (ready d) new b, known)
      | inl free ↦ rw free (
        (new, a),
        (rw (degree-here k k v d (eq_refl k)) (zero_part v free), Idle-cons k v d (ready d) new b),
        (rw (eq_refl k) refl, known),
      )
    ]

-- Each plugin, and nothing else, stands once in the list.
abbrev pub IsOrderOf : List String → List String → Type 0
IsOrderOf ids order =
    Distinct order
    × Known ids order
    × ((x : String) → contains ids x ≡ true → contains order x ≡ true)
