-- ===== src/Workflow/Executor/Runs.antt =====
-- What the loop of `execute` of system/core/workflow/workflow_executor.py does with an order.
use mathlib.Core.Bool.{false≢true}
use mathlib.Core.List.{append_assoc, append-nil}
use capability_os.Base.{
  String, true, false, some, List, [], ◌∷◌, ◌++◌, contains, ◌==◌, eq_iff, Dict, lookup, insert,
  keys, Distinct, ◌≡◌, ◌⊎◌, refl, sym, ap, ◌∙◌, arith, Bool-cases, inl, inr, All,
}
use capability_os.Value.{Value, dict, text, end, field}
use capability_os.ToolRuntime.{Reply, returned, raised}
use capability_os.Container.Order.{Known}
use capability_os.Container.Once.{contains-snoc}
use capability_os.Workflow.{Node}
use capability_os.Workflow.Nodes.{Services}
use capability_os.Workflow.Executor.{
  execute_node, execute_order, Report, success, failed, unsorted, key_error,
}

module _ {W : Type 0} (services : Services W) (nodes : Dict Node) where
  -- Nodes that run one after another, each on the results of those before it, and return.
  pub data Runs : List String → Dict Value → W → Dict Value → W → Type 0 where
    nothing : {results : Dict Value} {w : W} → Runs [] results w results w
    next :
        {id : String} {order : List String} {results r : Dict Value} {w u z : W} (node : Node)
        (v : Value)
        → lookup id nodes ≡ some node
        → execute_node services node results w ≡ (returned v, u)
        → Runs order (results ++ (id, v) ∷ []) u r z
        → Runs (id ∷ order) results w r z

  -- The node that fails, after others that return.
  pub record Fails (order : List String) (results : Dict Value) (w : W) (r : Dict Value)
      (id message : String) (z : W) : Type 0 where
    pub front : List String
    pub rest : List String
    pub split : order ≡ front ++ id ∷ rest
    pub before : Dict Value
    pub world : W
    pub returns : Runs front results w before world
    pub node : Node
    pub found : lookup id nodes ≡ some node
    pub fails : execute_node services node before world ≡ (raised message, z)
    pub reports : r ≡ before ++ (id, dict (field "error" (text message) end)) ∷ []

  abbrev pub Ends : List String → Dict Value → W → Report × W → Type 0
  Ends order results w (success r, z) = Runs order results w r z
  Ends order results w (failed r id message, z) = Fails order results w r id message z
  Ends order results w (unsorted message, z) = ⊥
  Ends order results w (key_error id, z) = ⊥

pub insert-absent :
    (k : String) (v : Value) (d : Dict Value)
    → contains (keys d) k ≡ false
    → insert k v d ≡ d ++ (k, v) ∷ []
unfolding insert keys
insert-absent k v [] h = refl
insert-absent k v ((j, w) ∷ d) h =
    let apart : j == k ≡ false = ground arith in
    rw apart (ap (λ x. (j, w) ∷ x) (insert-absent k v d (ground arith)))

pub lookup-key :
    {V : Type 0} (k : String) (d : Dict V)
    → contains (keys d) k ≡ true
    → (v : V) × (lookup k d ≡ some v)
unfolding lookup keys
lookup-key k [] h = absurd (false≢true h)
lookup-key k ((j, w) ∷ d) h = elim (Bool-cases (j == k)) [
  | inl same ↦ rw same (w, refl)
  | inr differs ↦ rw differs (lookup-key k d (ground arith))
]

pub keys-append-one :
    (d : Dict Value) (k : String) (v : Value) → keys (d ++ (k, v) ∷ []) ≡ keys d ++ k ∷ []
unfolding keys
keys-append-one [] k v = refl
keys-append-one ((j, w) ∷ d) k v = ap (λ xs. j ∷ xs) (keys-append-one d k v)

-- None of the names is a key.
abbrev pub Fresh : Dict Value → List String → Type 0
Fresh results order = All (λ x. contains (keys results) x ≡ false) order

pub Fresh-append :
    (results : Dict Value) (id : String) (v : Value) (order : List String)
    → contains order id ≡ false
    → Fresh results order
    → Fresh (results ++ (id, v) ∷ []) order
Fresh-append results id v [] new h = tt
Fresh-append results id v (x ∷ order) new h =
    let apart : id == x ≡ false = ground (arith, eq_iff x id, eq_iff id x) in
    (
      rw (keys-append-one results id v) (contains-snoc (keys results) id x ∙ rw (h.0, apart) refl),
      Fresh-append results id v order (ground arith) h.1,
    )

pub reply_cases : (r : Reply) → ((v : Value) × (r ≡ returned v)) ⊎ ((e : String) × (r ≡ raised e))
reply_cases (returned v) = inl (v, refl)
reply_cases (raised e) = inr (e, refl)

module _ {W : Type 0} (services : Services W) (nodes : Dict Node) where
  continued :
      (id : String) (order : List String) (results : Dict Value) (w u : W) (node : Node) (v : Value)
      → lookup id nodes ≡ some node
      → execute_node services node results w ≡ (returned v, u)
      → (last : Report × W) → Ends services nodes order (results ++ (id, v) ∷ []) u last
      → Ends services nodes (id ∷ order) results w last
  continued id order results w u node v found ran (success r, z) h = next node v found ran h
  continued id order results w u node v found ran (failed r bad message, z) h = record {
    front = id ∷ h.front;
    rest = h.rest;
    split = ap (λ xs. id ∷ xs) h.split;
    before = h.before;
    world = h.world;
    returns = next node v found ran h.returns;
    node = h.node;
    found = h.found;
    fails = h.fails;
    reports = h.reports;
  }
  continued id order results w u node v found ran (unsorted message, z) h = h
  continued id order results w u node v found ran (key_error bad, z) h = h

  pub execute_order-Ends :
      (order : List String) (results : Dict Value) (w : W)
      → Distinct order
      → Known (keys nodes) order
      → Fresh results order
      → Ends services nodes order results w (execute_order services nodes order results w)
  unfolding execute_order
  execute_order-Ends [] results w once known fresh = nothing
  execute_order-Ends (id ∷ order) results w once known fresh =
      let (node, found) = lookup-key id nodes known.0 in
      let out = execute_node services node results w in
      elim (reply_cases out.0) [
        | inl (v, ran) ↦
            rw (found, execute_order)
              (rw (ran, execute_order)
                (rw (insert-absent id v results fresh.0) (
                  continued id order results w out.1 node v found (ap (λ r. (r, out.1)) ran)
                    (execute_order services nodes order (results ++ (id, v) ∷ []) out.1)
                    (execute_order-Ends order (results ++ (id, v) ∷ []) out.1 once.1 known.1
                      (Fresh-append results id v order once.0 fresh.1)))))
        | inr (e, ran) ↦
            rw (found, execute_order)
              (rw (ran, execute_order)
                (record {
                  front = [];
                  rest = order;
                  split = refl;
                  before = results;
                  world = w;
                  returns = nothing;
                  node = node;
                  found = found;
                  fails = ap (λ r. (r, out.1)) ran;
                  reports = insert-absent id (dict (field "error" (text e) end)) results fresh.0;
                }))
      ]

  -- Results are written in the order in which nodes run.
  pub Runs-keys :
      {order : List String} {results r : Dict Value} {w z : W}
      → Runs services nodes order results w r z
      → keys r ≡ keys results ++ order
  Runs-keys nothing = sym (append-nil (keys _))
  Runs-keys (next {id} {order} {results} node v found ran rest) =
      Runs-keys rest
      ∙ ap (λ xs. xs ++ order) (keys-append-one results id v)
      ∙ append_assoc (keys results) (id ∷ []) order
