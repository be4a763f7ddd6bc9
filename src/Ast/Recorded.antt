-- ===== src/Ast/Recorded.antt =====
-- The single pass of `markFunctionDepths` gives the recorded depths of the reference definition.
use gnata.Base.{ℕ, ◌≤◌, max, min, ◌≡◌, refl, arith}
use gnata.Ast.{
  Node, node, Form, path, block, array, object, binary, minus, condition, bind, call, lambda,
  transform, sort, Nodes, nil, cons, Child, absent, present, Terms, no_terms, term, Group, no_group,
  group, Pairs, no_pairs, pair,
}
use gnata.Ast.Height.{
  height, height_form, height_nodes, height_child, height_terms, height_group, height_pairs,
}
use gnata.Ast.FunctionDepth.{
  max_recorded, levels, record_depth, mark_function_depths, mark_form, mark_nodes, mark_child,
  mark_terms, mark_group, mark_pairs,
}
use gnata.Ast.Chains.{
  IsLongest, IsLongestBelow, evaluated_depth-IsLongest, deepest_below-IsLongestBelow,
}
use gnata.Ast.Depths.{
  builds_function, level, deepest_below, evaluated_depth, depth_form, depth_nodes, depth_child,
  depth_terms, depth_group, depth_pairs, record_exact, exact, exact_form, exact_nodes, exact_child,
  exact_terms, exact_group, exact_pairs, depth_form-le, depth_group-le,
}

record_depth-exact :
    {F : Type 0} (k : ℕ) (f : Form F) → k ≤ max_recorded → record_depth k f ≡ record_exact k f
record_depth-exact k (lambda params sig body d) h =
    let e : min k max_recorded ≡ k = omega arith in rw e refl
record_depth-exact k (transform p u del d) h =
    let e : min k max_recorded ≡ k = omega arith in rw e refl
record_depth-exact k _ h = refl

levels-exact_form :
    {F : Type 0} (f : Form F) (k : ℕ) → levels (exact_form f) k ≡ level (builds_function f) k
levels-exact_form (lambda params sig body d) k = refl
levels-exact_form (transform p u del d) k = refl
levels-exact_form _ k = refl

mutual
  unfolding mark_function_depths mark_form mark_nodes mark_child mark_terms mark_group mark_pairs

  marked-exact :
      {F : Type 0} (n : Node F)
      → height n ≤ max_recorded
      → mark_function_depths n ≡ (exact n, evaluated_depth n)
  marked-exact (node pos m g f) h =
      let k = max (depth_form f) (depth_group g) in
      let small : k ≤ max_recorded = omega (arith, depth_form-le f, depth_group-le g) in
      rw
        (
          mark_form-exact f (omega arith),
          mark_group-exact g (omega arith),
          record_depth-exact k (exact_form f) small,
          levels-exact_form f k,
        )
        refl

  mark_form-exact :
      {F : Type 0} (f : Form F)
      → height_form f ≤ max_recorded
      → mark_form f ≡ (exact_form f, depth_form f)
  mark_form-exact (path es) h = rw (mark_nodes-exact es (omega arith)) refl
  mark_form-exact (block es) h = rw (mark_nodes-exact es (omega arith)) refl
  mark_form-exact (array es) h = rw (mark_nodes-exact es (omega arith)) refl
  mark_form-exact (object es) h = rw (mark_nodes-exact es (omega arith)) refl
  mark_form-exact (binary op l r) h =
      rw (marked-exact l (omega arith), marked-exact r (omega arith)) refl
  mark_form-exact (minus e) h = rw (marked-exact e (omega arith)) refl
  mark_form-exact (condition c t e) h =
      rw
        (
          marked-exact c (omega arith),
          marked-exact t (omega arith),
          mark_child-exact e (omega arith),
        )
        refl
  mark_form-exact (bind l r) h =
      rw (marked-exact l (omega arith), marked-exact r (omega arith)) refl
  mark_form-exact (call partial v p args) h =
      rw (marked-exact p (omega arith), mark_nodes-exact args (omega arith)) refl
  mark_form-exact (lambda params sig body d) h =
      rw (mark_nodes-exact params (omega arith), marked-exact body (omega arith)) refl
  mark_form-exact (transform p u del d) h =
      rw
        (
          marked-exact p (omega arith),
          marked-exact u (omega arith),
          mark_child-exact del (omega arith),
        )
        refl
  mark_form-exact (sort l ts) h =
      rw (marked-exact l (omega arith), mark_terms-exact ts (omega arith)) refl
  mark_form-exact _ h = refl

  mark_nodes-exact :
      {F : Type 0} (x : Nodes F)
      → height_nodes x ≤ max_recorded
      → mark_nodes x ≡ (exact_nodes x, depth_nodes x)
  mark_nodes-exact nil h = refl
  mark_nodes-exact (cons e es) h =
      rw (marked-exact e (omega arith), mark_nodes-exact es (omega arith)) refl

  mark_child-exact :
      {F : Type 0} (x : Child F)
      → height_child x ≤ max_recorded
      → mark_child x ≡ (exact_child x, depth_child x)
  mark_child-exact absent h = refl
  mark_child-exact (present e) h = rw (marked-exact e (omega arith)) refl

  mark_terms-exact :
      {F : Type 0} (x : Terms F)
      → height_terms x ≤ max_recorded
      → mark_terms x ≡ (exact_terms x, depth_terms x)
  mark_terms-exact no_terms h = refl
  mark_terms-exact (term b e ts) h =
      rw (marked-exact e (omega arith), mark_terms-exact ts (omega arith)) refl

  mark_group-exact :
      {F : Type 0} (x : Group F)
      → height_group x ≤ max_recorded
      → mark_group x ≡ (exact_group x, depth_group x)
  mark_group-exact no_group h = refl
  mark_group-exact (group ps pos b) h = rw (mark_pairs-exact ps (omega arith)) refl

  mark_pairs-exact :
      {F : Type 0} (x : Pairs F)
      → height_pairs x ≤ max_recorded
      → mark_pairs x ≡ (exact_pairs x, depth_pairs x)
  mark_pairs-exact no_pairs h = refl
  mark_pairs-exact (pair k v ps) h =
      rw
        (
          marked-exact k (omega arith),
          marked-exact v (omega arith),
          mark_pairs-exact ps (omega arith),
        )
        refl

-- On a tree of height at most 65535, `markFunctionDepths` records on every lambda and transform,
-- and changes nothing else, the length of the longest chain of evaluations that starts at one of
-- its children, and returns that of the longest that starts at the tree. A chain goes from a node
-- to a child, and stops at a lambda or a transform, or before.
pub mark_function_depths-exact :
    {F : Type 0} (n : Node F)
    → height n ≤ max_recorded
    → (k : ℕ) × (mark_function_depths n ≡ (exact n, k))
      × IsLongest n k
      × ((x : Node F) → IsLongestBelow x (deepest_below x))
mark_function_depths-exact n h =
    (evaluated_depth n, marked-exact n h, evaluated_depth-IsLongest n, deepest_below-IsLongestBelow)
