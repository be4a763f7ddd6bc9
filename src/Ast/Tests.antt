-- ===== src/Ast/Tests.antt =====
-- The passes over the tree at concrete trees.
use gnata.Base.{ℕ, ◌≡◌, refl, true, false, [], ◌∷◌, none, some, Bytes, codes, arith}
use gnata.Ast.{
  Node, node, name, variable, call, condition, block, bind, lambda, nil, cons, present, no_marks,
  no_group, leaf,
}
use gnata.Ast.FunctionDepth.{mark_function_depths}
use gnata.Ast.Depths.{exact, deepest_below}
use gnata.Ast.Chains.{IsLongest, IsLongestBelow}
use gnata.Ast.Recorded.{mark_function_depths-exact}
use gnata.Ast.TailCall.{to_else, to_last, to_bound, at_ways, mark_tail_calls}
use gnata.Ast.TailMarks.{mark_tail_calls-call}

-- `$f(a)`
abbrev call_f : Node Bytes
call_f =
    leaf 7 (
      call false (codes "f") (leaf 7 (variable (codes "f")))
        (cons (leaf 10 (name (codes "a"))) nil))

-- `(a; $x := (c ? b : $f(a)))`
abbrev body : Node Bytes
body = leaf 0 (
    block (
      cons (leaf 1 (name (codes "a"))) (
        cons
          (leaf 3 (
            bind (leaf 3 (variable (codes "x"))) (
              leaf 5 (
                condition (leaf 4 (name (codes "c"))) (leaf 5 (name (codes "b")))
                  (present call_f)))))
          nil)))

-- `function(){ body }`
abbrev tree : Node Bytes
tree = leaf 0 (lambda nil none body 0)

mark_function_depths-exact_example :
    (k : ℕ) × (mark_function_depths tree ≡ (exact tree, k))
    × IsLongest tree k
    × ((x : Node Bytes) → IsLongestBelow x (deepest_below x))
mark_function_depths-exact_example = mark_function_depths-exact tree (omega arith)

mark_tail_calls-call_example :
    at_ways (to_last ∷ to_bound ∷ to_else ∷ []) (some (mark_tail_calls body))
    ≡ some (
        node 7
          (record no_marks { tail_context = false; thunk = true })
          no_group
          (call false
            (codes "f")
            (leaf 7 (variable (codes "f")))
            (cons (leaf 10 (name (codes "a"))) nil)))
mark_tail_calls-call_example =
    mark_tail_calls-call body (to_last ∷ to_bound ∷ to_else ∷ []) 7 no_marks no_group (codes "f")
      (leaf 7 (variable (codes "f"))) (cons (leaf 10 (name (codes "a"))) nil) refl
