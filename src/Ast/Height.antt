-- ===== src/Ast/Height.antt =====
-- The height of a tree, and whether it builds a function.
use gnata.Base.{ℕ, suc, max}
use gnata.Ast.{
  Node, node, Form, path, block, array, object, binary, minus, condition, bind, call, lambda,
  transform, sort, Nodes, nil, cons, Child, absent, present, Terms, no_terms, term, Group, no_group,
  group, Pairs, no_pairs, pair,
}

abbrev mutual
  -- How many nodes the longest way from the root has.
  pub height : {F : Type 0} → Node F → ℕ
  height (node pos m g f) = suc (max (height_form f) (height_group g))

  pub height_form : {F : Type 0} → Form F → ℕ
  height_form (path es) = height_nodes es
  height_form (block es) = height_nodes es
  height_form (array es) = height_nodes es
  height_form (object es) = height_nodes es
  height_form (binary op l r) = max (height l) (height r)
  height_form (minus e) = height e
  height_form (condition c t e) = max (height c) (max (height t) (height_child e))
  height_form (bind l r) = max (height l) (height r)
  height_form (call partial v p args) = max (height p) (height_nodes args)
  height_form (lambda params sig body d) = max (height_nodes params) (height body)
  height_form (transform p u d n) = max (height p) (max (height u) (height_child d))
  height_form (sort l ts) = max (height l) (height_terms ts)
  height_form _ = 0

  pub height_nodes : {F : Type 0} → Nodes F → ℕ
  height_nodes nil = 0
  height_nodes (cons e es) = max (height e) (height_nodes es)

  pub height_child : {F : Type 0} → Child F → ℕ
  height_child absent = 0
  height_child (present e) = height e

  pub height_terms : {F : Type 0} → Terms F → ℕ
  height_terms no_terms = 0
  height_terms (term d e ts) = max (height e) (height_terms ts)

  pub height_group : {F : Type 0} → Group F → ℕ
  height_group no_group = 0
  height_group (group ps pos b) = height_pairs ps

  pub height_pairs : {F : Type 0} → Pairs F → ℕ
  height_pairs no_pairs = 0
  height_pairs (pair k v ps) = max (height k) (max (height v) (height_pairs ps))

abbrev mutual
  -- 1 where the tree has a lambda or a transform, else 0.
  pub functions_in : {F : Type 0} → Node F → ℕ
  functions_in (node pos m g f) = max (functions_form f) (functions_group g)

  pub functions_form : {F : Type 0} → Form F → ℕ
  functions_form (path es) = functions_nodes es
  functions_form (block es) = functions_nodes es
  functions_form (array es) = functions_nodes es
  functions_form (object es) = functions_nodes es
  functions_form (binary op l r) = max (functions_in l) (functions_in r)
  functions_form (minus e) = functions_in e
  functions_form (condition c t e) = max (functions_in c) (max (functions_in t) (functions_child e))
  functions_form (bind l r) = max (functions_in l) (functions_in r)
  functions_form (call partial v p args) = max (functions_in p) (functions_nodes args)
  functions_form (lambda params sig body d) = 1
  functions_form (transform p u d n) = 1
  functions_form (sort l ts) = max (functions_in l) (functions_terms ts)
  functions_form _ = 0

  pub functions_nodes : {F : Type 0} → Nodes F → ℕ
  functions_nodes nil = 0
  functions_nodes (cons e es) = max (functions_in e) (functions_nodes es)

  pub functions_child : {F : Type 0} → Child F → ℕ
  functions_child absent = 0
  functions_child (present e) = functions_in e

  pub functions_terms : {F : Type 0} → Terms F → ℕ
  functions_terms no_terms = 0
  functions_terms (term d e ts) = max (functions_in e) (functions_terms ts)

  pub functions_group : {F : Type 0} → Group F → ℕ
  functions_group no_group = 0
  functions_group (group ps pos b) = functions_pairs ps

  pub functions_pairs : {F : Type 0} → Pairs F → ℕ
  functions_pairs no_pairs = 0
  functions_pairs (pair k v ps) = max (functions_in k) (max (functions_in v) (functions_pairs ps))
