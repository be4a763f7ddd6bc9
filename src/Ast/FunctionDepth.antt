-- ===== src/Ast/FunctionDepth.antt =====
-- internal/parser/depth.go: how deeply evaluating a tree recurses, recorded on its functions.
use gnata.Base.{ℕ, suc, max, min}
use gnata.Ast.{
  Node, node, Form, path, block, array, object, binary, minus, condition, bind, call, lambda,
  transform, sort, Nodes, nil, cons, Child, absent, present, Terms, no_terms, term, Group, no_group,
  group, Pairs, no_pairs, pair,
}

-- `math.MaxUint16`
abbrev pub max_recorded : ℕ
max_recorded = 65535

-- What `markFunctionDepths` returns for a node whose clauses reach `deepest`: a lambda or a transform
-- only builds a function.
abbrev pub levels : {F : Type 0} → Form F → ℕ → ℕ
levels (lambda params sig body d) deepest = 1
levels (transform p u del d) deepest = 1
levels _ deepest = suc deepest

-- `SetDepth` on a lambda or a transform.
abbrev pub record_depth : {F : Type 0} → ℕ → Form F → Form F
record_depth deepest (lambda params sig body d) = lambda params sig body (min deepest max_recorded)
record_depth deepest (transform p u del d) = transform p u del (min deepest max_recorded)
record_depth deepest f = f

unfoldable mutual
  -- `markFunctionDepths`: the tree with the depths recorded, and how deeply evaluating it recurses.
  pub mark_function_depths : {F : Type 0} → Node F → Node F × ℕ
  mark_function_depths (node pos m g f) =
      let (f', deepest_f) = mark_form f in
      let (g', deepest_g) = mark_group g in
      let deepest = max deepest_f deepest_g in
      (node pos m g' (record_depth deepest f'), levels f' deepest)

  -- The children that depend on the type, and the deepest of them.
  pub mark_form : {F : Type 0} → Form F → Form F × ℕ
  mark_form (path es) = let (es', d_es) = mark_nodes es in (path es', d_es)
  mark_form (block es) = let (es', d_es) = mark_nodes es in (block es', d_es)
  mark_form (array es) = let (es', d_es) = mark_nodes es in (array es', d_es)
  mark_form (object es) = let (es', d_es) = mark_nodes es in (object es', d_es)
  mark_form (binary op l r) =
      let (l', d_l) = mark_function_depths l in
      let (r', d_r) = mark_function_depths r in (binary op l' r', max (d_l) (d_r))
  mark_form (minus e) = let (e', d_e) = mark_function_depths e in (minus e', d_e)
  mark_form (condition c t e) =
      let (c', d_c) = mark_function_depths c in
      let (t', d_t) = mark_function_depths t in
      let (e', d_e) = mark_child e in (condition c' t' e', max (d_c) (max (d_t) (d_e)))
  mark_form (bind l r) =
      let (l', d_l) = mark_function_depths l in
      let (r', d_r) = mark_function_depths r in (bind l' r', max (d_l) (d_r))
  mark_form (call partial v p args) =
      let (p', d_p) = mark_function_depths p in
      let (args', d_args) = mark_nodes args in (call partial v p' args', max (d_p) (d_args))
  mark_form (lambda params sig body d) =
      let (params', d_params) = mark_nodes params in
      let (body', d_body) = mark_function_depths body in
      (lambda params' sig body' d, max (d_params) (d_body))
  mark_form (transform p u del d) =
      let (p', d_p) = mark_function_depths p in
      let (u', d_u) = mark_function_depths u in
      let (del', d_del) = mark_child del in (transform p' u' del' d, max (d_p) (max (d_u) (d_del)))
  mark_form (sort l ts) =
      let (l', d_l) = mark_function_depths l in
      let (ts', d_ts) = mark_terms ts in (sort l' ts', max (d_l) (d_ts))
  mark_form f = (f, 0)

  -- `deepestOf`
  pub mark_nodes : {F : Type 0} → Nodes F → Nodes F × ℕ
  mark_nodes nil = (nil, 0)
  mark_nodes (cons e es) =
      let (e', d_e) = mark_function_depths e in
      let (es', d_es) = mark_nodes es in (cons e' es', max (d_e) (d_es))

  -- `depthOf`
  pub mark_child : {F : Type 0} → Child F → Child F × ℕ
  mark_child absent = (absent, 0)
  mark_child (present e) = let (e', d_e) = mark_function_depths e in (present e', d_e)

  -- The loop over the terms.
  pub mark_terms : {F : Type 0} → Terms F → Terms F × ℕ
  mark_terms no_terms = (no_terms, 0)
  mark_terms (term b e ts) =
      let (e', d_e) = mark_function_depths e in
      let (ts', d_ts) = mark_terms ts in (term b e' ts', max (d_e) (d_ts))

  -- The group, if there is one.
  pub mark_group : {F : Type 0} → Group F → Group F × ℕ
  mark_group no_group = (no_group, 0)
  mark_group (group ps pos b) = let (ps', d_ps) = mark_pairs ps in (group ps' pos b, d_ps)

  -- The loop over the pairs.
  pub mark_pairs : {F : Type 0} → Pairs F → Pairs F × ℕ
  mark_pairs no_pairs = (no_pairs, 0)
  mark_pairs (pair k v ps) =
      let (k', d_k) = mark_function_depths k in
      let (v', d_v) = mark_function_depths v in
      let (ps', d_ps) = mark_pairs ps in (pair k' v' ps', max (d_k) (max (d_v) (d_ps)))
