-- ===== src/Container/Order.antt =====
-- The order that `_resolve_order` of system/container/service_container.py makes: its loop ends, and
-- each plugin stands in the order once.
use mathlib.Core.Bool.{false≢true}
use capability_os.Base.{
  ℕ, zero, suc, ◌+◌, ◌≤◌, String, Bool, true, false, ◌||◌, none, List, [], ◌∷◌, ◌++◌, length,
  contains, ◌≡◌, ◌≢◌, refl, sym, subst, ap, ◌∙◌, arith, eq_refl, ◌==◌, Bool-cases, if_both, inl,
  inr, All, All-map, if◌then◌else◌, Dict, lookup, insert, keys, ℤ, pos, negsuc, length-append,
}
use capability_os.Container.{
  Plugin, Graph, list_at, degree_at, pred, add_edges, no_edges, build, is_zero, ready, relax, drain,
  kahn,
}

-- Whether an in-degree says that a plugin waits, and whether it is zero, as numbers.
abbrev pub waits : ℤ → ℕ
waits (pos zero) = 0
waits (pos (suc n)) = 1
waits (negsuc n) = 0

abbrev zero_flag : ℤ → ℕ
zero_flag d = if is_zero d then 1 else 0

-- How many plugins wait for another.
pub waiting : Dict ℤ → ℕ
waiting [] = 0
waiting ((k, v) ∷ d) = waits v + waiting d

waits-pred : (v : ℤ) → waits (pred v) + zero_flag (pred v) ≤ waits v
waits-pred (pos zero) = omega arith
waits-pred (pos (suc zero)) = omega arith
waits-pred (pos (suc (suc n))) = omega arith
waits-pred (negsuc n) = omega arith

pub degree-here : (n k : String) (v : ℤ) (d : Dict ℤ) → k == n ≡ true → degree_at n ((k, v) ∷ d) ≡ v
unfolding degree_at lookup
degree-here n k v d h = rw (h, degree_at) refl

pub degree-there :
    (n k : String) (v : ℤ) (d : Dict ℤ) → k == n ≡ false → degree_at n ((k, v) ∷ d) ≡ degree_at n d
unfolding degree_at lookup
degree-there n k v d h = rw (h, degree_at) refl

waiting-insert :
    (n : String) (x : ℤ) (d : Dict ℤ)
    → waiting (insert n x d) + waits (degree_at n d) ≤ waiting d + waits x
unfolding waiting insert degree_at lookup
waiting-insert n x [] = omega arith
waiting-insert n x ((k, v) ∷ d) = elim (Bool-cases (k == n)) [
  | inl same ↦ rw (degree-here n k v d same, same) (omega arith)
  | inr differs ↦ rw (degree-there n k v d differs, differs) (omega (arith, waiting-insert n x d))
]

length-push :
    (b : Bool) (queue : List String) (n : String)
    → length (if b then queue ++ n ∷ [] else queue) ≡ length queue + (if b then 1 else 0)
length-push true queue n = omega (arith, length-append queue (n ∷ []))
length-push false queue n = omega arith

-- The plugins that wait and those in the queue, together.
pub relax-le :
    (ns : List String) (d : Dict ℤ) (queue : List String)
    → waiting (relax ns d queue).0 + length (relax ns d queue).1 ≤ waiting d + length queue
unfolding relax
relax-le [] d queue = omega arith
relax-le (n ∷ ns) d queue =
    let v = pred (degree_at n d) in
    omega (
      arith,
      relax-le ns (insert n v d) (if is_zero v then queue ++ n ∷ [] else queue),
      waiting-insert n v d,
      waits-pred (degree_at n d),
      length-push (is_zero v) queue n,
    )

pub drain-ne-none :
    (f : ℕ) (graph : Dict (List String)) (d : Dict ℤ) (queue order : List String)
    → waiting d + length queue ≤ f
    → drain f graph d queue order ≢ none
unfolding drain
drain-ne-none f graph d [] order h = λ e. cc
drain-ne-none zero graph d (node ∷ queue) order h = absurd (omega arith)
drain-ne-none (suc f) graph d (node ∷ queue) order h =
    drain-ne-none f graph (relax (list_at node graph) d queue).0
      (relax (list_at node graph) d queue).1 (order ++ node ∷ [])
      (omega (arith, relax-le (list_at node graph) d queue))

pub waiting_or_ready : (d : Dict ℤ) → waiting d + length (ready d) ≤ length (keys d)
unfolding ready keys waiting
waiting_or_ready [] = omega arith
waiting_or_ready ((k, pos zero) ∷ d) = omega (arith, waiting_or_ready d)
waiting_or_ready ((k, pos (suc n)) ∷ d) = omega (arith, waiting_or_ready d)
waiting_or_ready ((k, negsuc n) ∷ d) = omega (arith, waiting_or_ready d)

pub keys-insert :
    {V : Type 0} (k : String) (v : V) (d : Dict V)
    → contains (keys d) k ≡ true
    → keys (insert k v d) ≡ keys d
unfolding keys insert
keys-insert k v [] h = absurd (false≢true h)
keys-insert k v ((j, w) ∷ d) h = elim (Bool-cases (j == k)) [
  | inl same ↦ rw same refl
  | inr differs ↦
      rw (differs, keys-insert k v d (subst (λ b. b || contains (keys d) k ≡ true) differs h)) refl
]

pub keys-no_edges : (ids : List String) → keys (no_edges ids) ≡ ids
unfolding keys no_edges
keys-no_edges [] = refl
keys-no_edges (pid ∷ ids) = ap (λ xs. pid ∷ xs) (keys-no_edges ids)

keys-add_edges :
    (ids : List String) (pid : String) (deps : List String) (g : Graph)
    → contains ids pid ≡ true
    → keys g.in_degree ≡ ids
    → keys (add_edges ids pid deps g).in_degree ≡ ids
unfolding add_edges
keys-add_edges ids pid [] g known h = h
keys-add_edges ids pid (dep ∷ deps) g known h = keys-add_edges ids pid deps _ known (
    if_both (λ (x : Graph). keys x.in_degree ≡ ids) (contains ids dep)
      (keys-insert pid _ g.in_degree (subst (λ xs. contains xs pid ≡ true) (sym h) known) ∙ h) h)

abbrev pub Known : List String → List String → Type 0
Known ids xs = All (λ x. contains ids x ≡ true) xs

pub keys-build :
    {W : Type 0} (ids : List String) (ps : Dict (Plugin W)) (g : Graph)
    → Known ids (keys ps)
    → keys g.in_degree ≡ ids
    → keys (build ids ps g).in_degree ≡ ids
unfolding build keys
keys-build ids [] g known h = h
keys-build ids ((pid, p) ∷ ps) g known h =
    keys-build ids ps (add_edges ids pid p.dependencies g) known.1
      (keys-add_edges ids pid p.dependencies g known.0 h)

pub contains-cons :
    (x y : String) (xs : List String) → contains xs y ≡ true → contains (x ∷ xs) y ≡ true
contains-cons x y xs h = ground arith

pub Known-self : (xs : List String) → Known xs xs
Known-self [] = tt
Known-self (x ∷ xs) = (
  rw (eq_refl x) refl,
  All-map {P = λ y. contains xs y ≡ true} {Q = λ y. contains (x ∷ xs) y ≡ true}
      (λ y. contains-cons x y xs) xs (Known-self xs),
)

-- The loop ends: a round for each plugin is enough, whatever the dependencies, cycles included.
pub kahn-ne-none : {W : Type 0} (plugins : Dict (Plugin W)) → kahn plugins ≢ none
unfolding kahn
kahn-ne-none plugins =
    let ids = keys plugins in
    let start : Graph = record { graph = []; in_degree = no_edges ids } in
    let g = build ids plugins start in
    let same = keys-build ids plugins start (Known-self ids) (keys-no_edges ids) in
    drain-ne-none (length ids) g.graph g.in_degree (ready g.in_degree) []
      (omega (arith, waiting_or_ready g.in_degree, ap length same))
