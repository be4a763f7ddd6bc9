-- ===== src/Ast/Depths.antt =====
-- What the recorded depths are.
use gnata.Base.{ℕ, Bool, true, false, suc, ◌≤◌, max, arith}
use gnata.Ast.{
  Node, node, Form, path, block, array, object, binary, minus, condition, bind, call, lambda,
  transform, sort, Nodes, nil, cons, Child, absent, present, Terms, no_terms, term, Group, no_group,
  group, Pairs, no_pairs, pair,
}
use gnata.Ast.Height.{
  height, height_form, height_nodes, height_child, height_terms, height_group, height_pairs,
}

-- Evaluating such a node only builds a function.
abbrev pub builds_function : {F : Type 0} → Form F → Bool
builds_function (lambda params sig body d) = true
builds_function (transform p u del d) = true
builds_function _ = false

abbrev pub level : Bool → ℕ → ℕ
level true below = 1
level false below = suc below

abbrev mutual
  -- How deeply evaluating a tree recurses: a function is one level.
  pub evaluated_depth : {F : Type 0} → Node F → ℕ
  evaluated_depth (node pos m g f) = level (builds_function f) (max (depth_form f) (depth_group g))

  pub depth_form : {F : Type 0} → Form F → ℕ
  depth_form (path es) = depth_nodes es
  depth_form (block es) = depth_nodes es
  depth_form (array es) = depth_nodes es
  depth_form (object es) = depth_nodes es
  depth_form (binary op l r) = max (evaluated_depth l) (evaluated_depth r)
  depth_form (minus e) = evaluated_depth e
  depth_form (condition c t e) = max (evaluated_depth c) (max (evaluated_depth t) (depth_child e))
  depth_form (bind l r) = max (evaluated_depth l) (evaluated_depth r)
  depth_form (call partial v p args) = max (evaluated_depth p) (depth_nodes args)
  depth_form (lambda params sig body d) = max (depth_nodes params) (evaluated_depth body)
  depth_form (transform p u del d) =
      max (evaluated_depth p) (max (evaluated_depth u) (depth_child del))
  depth_form (sort l ts) = max (evaluated_depth l) (depth_terms ts)
  depth_form _ = 0

  pub depth_nodes : {F : Type 0} → Nodes F → ℕ
  depth_nodes nil = 0
  depth_nodes (cons e es) = max (evaluated_depth e) (depth_nodes es)

  pub depth_child : {F : Type 0} → Child F → ℕ
  depth_child absent = 0
  depth_child (present e) = evaluated_depth e

  pub depth_terms : {F : Type 0} → Terms F → ℕ
  depth_terms no_terms = 0
  depth_terms (term b e ts) = max (evaluated_depth e) (depth_terms ts)

  pub depth_group : {F : Type 0} → Group F → ℕ
  depth_group no_group = 0
  depth_group (group ps pos b) = depth_pairs ps

  pub depth_pairs : {F : Type 0} → Pairs F → ℕ
  depth_pairs no_pairs = 0
  depth_pairs (pair k v ps) = max (evaluated_depth k) (max (evaluated_depth v) (depth_pairs ps))

-- How deeply the children of a node recurse.
abbrev pub deepest_below : {F : Type 0} → Node F → ℕ
deepest_below (node pos m g f) = max (depth_form f) (depth_group g)

-- The depth itself on a lambda or a transform.
abbrev pub record_exact : {F : Type 0} → ℕ → Form F → Form F
record_exact deepest (lambda params sig body d) = lambda params sig body deepest
record_exact deepest (transform p u del d) = transform p u del deepest
record_exact deepest f = f

abbrev mutual
  -- The tree with the depth of its clauses and group on each function.
  pub exact : {F : Type 0} → Node F → Node F
  exact (node pos m g f) =
      node pos m (exact_group g) (record_exact (max (depth_form f) (depth_group g)) (exact_form f))

  pub exact_form : {F : Type 0} → Form F → Form F
  exact_form (path es) = path (exact_nodes es)
  exact_form (block es) = block (exact_nodes es)
  exact_form (array es) = array (exact_nodes es)
  exact_form (object es) = object (exact_nodes es)
  exact_form (binary op l r) = binary op (exact l) (exact r)
  exact_form (minus e) = minus (exact e)
  exact_form (condition c t e) = condition (exact c) (exact t) (exact_child e)
  exact_form (bind l r) = bind (exact l) (exact r)
  exact_form (call partial v p args) = call partial v (exact p) (exact_nodes args)
  exact_form (lambda params sig body d) = lambda (exact_nodes params) sig (exact body) d
  exact_form (transform p u del d) = transform (exact p) (exact u) (exact_child del) d
  exact_form (sort l ts) = sort (exact l) (exact_terms ts)
  exact_form f = f

  pub exact_nodes : {F : Type 0} → Nodes F → Nodes F
  exact_nodes nil = nil
  exact_nodes (cons e es) = cons (exact e) (exact_nodes es)

  pub exact_child : {F : Type 0} → Child F → Child F
  exact_child absent = absent
  exact_child (present e) = present (exact e)

  pub exact_terms : {F : Type 0} → Terms F → Terms F
  exact_terms no_terms = no_terms
  exact_terms (term b e ts) = term b (exact e) (exact_terms ts)

  pub exact_group : {F : Type 0} → Group F → Group F
  exact_group no_group = no_group
  exact_group (group ps pos b) = group (exact_pairs ps) pos b

  pub exact_pairs : {F : Type 0} → Pairs F → Pairs F
  exact_pairs no_pairs = no_pairs
  exact_pairs (pair k v ps) = pair (exact k) (exact v) (exact_pairs ps)

level-le : (b : Bool) (k : ℕ) → level b k ≤ suc k
level-le true k = omega arith
level-le false k = omega arith

mutual
  -- Evaluating a tree recurses no more deeply than the tree is high.
  pub evaluated_depth-le : {F : Type 0} (n : Node F) → evaluated_depth n ≤ height n
  evaluated_depth-le (node pos m g f) = omega (
    arith,
    level-le (builds_function f) (max (depth_form f) (depth_group g)),
    depth_form-le f,
    depth_group-le g,
  )

  pub depth_form-le : {F : Type 0} (f : Form F) → depth_form f ≤ height_form f
  depth_form-le (path es) = omega (arith, depth_nodes-le es)
  depth_form-le (block es) = omega (arith, depth_nodes-le es)
  depth_form-le (array es) = omega (arith, depth_nodes-le es)
  depth_form-le (object es) = omega (arith, depth_nodes-le es)
  depth_form-le (binary op l r) = omega (arith, evaluated_depth-le l, evaluated_depth-le r)
  depth_form-le (minus e) = omega (arith, evaluated_depth-le e)
  depth_form-le (condition c t e) =
      omega (arith, evaluated_depth-le c, evaluated_depth-le t, depth_child-le e)
  depth_form-le (bind l r) = omega (arith, evaluated_depth-le l, evaluated_depth-le r)
  depth_form-le (call partial v p args) = omega (arith, evaluated_depth-le p, depth_nodes-le args)
  depth_form-le (lambda params sig body d) =
      omega (arith, depth_nodes-le params, evaluated_depth-le body)
  depth_form-le (transform p u del d) =
      omega (arith, evaluated_depth-le p, evaluated_depth-le u, depth_child-le del)
  depth_form-le (sort l ts) = omega (arith, evaluated_depth-le l, depth_terms-le ts)
  depth_form-le _ = omega arith

  depth_nodes-le : {F : Type 0} (x : Nodes F) → depth_nodes x ≤ height_nodes x
  depth_nodes-le nil = omega arith
  depth_nodes-le (cons e es) = omega (arith, evaluated_depth-le e, depth_nodes-le es)

  depth_child-le : {F : Type 0} (x : Child F) → depth_child x ≤ height_child x
  depth_child-le absent = omega arith
  depth_child-le (present e) = omega (arith, evaluated_depth-le e)

  depth_terms-le : {F : Type 0} (x : Terms F) → depth_terms x ≤ height_terms x
  depth_terms-le no_terms = omega arith
  depth_terms-le (term b e ts) = omega (arith, evaluated_depth-le e, depth_terms-le ts)

  pub depth_group-le : {F : Type 0} (x : Group F) → depth_group x ≤ height_group x
  depth_group-le no_group = omega arith
  depth_group-le (group ps pos b) = omega (arith, depth_pairs-le ps)

  depth_pairs-le : {F : Type 0} (x : Pairs F) → depth_pairs x ≤ height_pairs x
  depth_pairs-le no_pairs = omega arith
  depth_pairs-le (pair k v ps) =
      omega (arith, evaluated_depth-le k, evaluated_depth-le v, depth_pairs-le ps)
