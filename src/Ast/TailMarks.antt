-- ===== src/Ast/TailMarks.antt =====
-- Which nodes `markTailCalls` marks.
use gnata.Base.{
  ℕ, Bytes, arith, if◌then◌else◌, Bool, true, false, not, ◌&&◌, ◌||◌, List, [], ◌∷◌, Option, none,
  some, ◌≡◌, refl, ap, ◌∙◌, inl, inr, Bool-cases,
}
use mathlib.Core.Option
use gnata.Ast.{
  is_set, has_group, Marks, Group, Node, node, block, binary, condition, bind, call, Nodes, nil,
  cons, absent, present, form_of,
}
use gnata.Ast.TailCall.{
  mark_tail_calls, is_default_op, mark_tail_position, mark_tail_child, mark_tail_last, Way, to_then,
  to_else, to_last, to_bound, to_default, last_of, step_to, js_way, js_along, at_ways,
}

keep : (b : Bool) → b ≡ (b && true)
keep true = refl
keep false = refl

drop : (b : Bool) → false ≡ (b && false)
drop true = refl
drop false = refl

module _ {F : Type 0} where
  last_of-mark :
      (b : Bool) (es : Nodes F)
      → last_of (mark_tail_last b es) ≡ Option.map (mark_tail_position b) (last_of es)
  unfolding mark_tail_last
  last_of-mark b nil = refl
  last_of-mark b (cons e nil) = refl
  last_of-mark b (cons e (cons x nil)) = refl
  last_of-mark b (cons e (cons x (cons y es))) = last_of-mark b (cons x (cons y es))

  binary-mark :
      (b : Bool) (pos : ℕ) (m : Marks) (g : Group F) (op : Bytes) (l r : Node F)
      → form_of (mark_tail_position b (node pos m g (binary op l r)))
        ≡ binary op l (if is_default_op op then mark_tail_position b r else r)
  unfolding mark_tail_position
  binary-mark b pos m g op l r = ground arith

  -- A way in the marked expression leads to the marked expression.
  step_to-mark :
      (w : Way) (b : Bool) (n : Node F)
      → step_to w (form_of (mark_tail_position b n))
        ≡ Option.map (mark_tail_position (b && js_way w)) (step_to w (form_of n))
  unfolding mark_tail_position mark_tail_child
  step_to-mark to_then b (node pos m g (condition c t e)) =
      ap (λ k. some (mark_tail_position k t)) (keep b)
  step_to-mark to_else b (node pos m g (condition c t absent)) = refl
  step_to-mark to_else b (node pos m g (condition c t (present e))) =
      ap (λ k. some (mark_tail_position k e)) (keep b)
  step_to-mark to_last b (node pos m g (block es)) =
      last_of-mark b es ∙ ap (λ k. Option.map (mark_tail_position k) (last_of es)) (keep b)
  step_to-mark to_bound b (node pos m g (bind l r)) =
      ap (λ k. some (mark_tail_position k r)) (drop b)
  step_to-mark _ b (node pos m g (call true v p args)) = refl
  step_to-mark _ b (node pos m g (call false v p args)) = refl
  step_to-mark to_default b (node pos m g (binary op l r)) = elim (Bool-cases (is_default_op op)) [
    | inl y ↦
        rw (y, mark_tail_position)
          (rw (y, mark_tail_position) (ap (λ k. some (mark_tail_position k r)) (keep b)))
    | inr n ↦ rw (n, mark_tail_position) (rw (n, mark_tail_position) refl)
  ]
  step_to-mark _ b (node pos m g (binary op l r)) = rw (binary-mark b pos m g op l r) refl
  step_to-mark _ b (node pos m g _) = refl

  -- At every place that ways from the expression lead to, the marked expression holds what
  -- `markTailPosition` makes of the expression there, for jsonata-js unless a way enters a binding;
  -- no way leads elsewhere than before.
  pub at_ways-mark :
      (ws : List Way) (b : Bool) (o : Option (Node F))
      → at_ways ws (Option.map (mark_tail_position b) o)
        ≡ Option.map (mark_tail_position (js_along b ws)) (at_ways ws o)
  at_ways-mark [] b none = refl
  at_ways-mark (w ∷ ws) b none = refl
  at_ways-mark [] b (some n) = refl
  at_ways-mark (w ∷ ws) b (some n) =
      ap (at_ways ws) (step_to-mark w b n) ∙ at_ways-mark ws (b && js_way w) (step_to w (form_of n))

  -- A call in tail position of the body of a lambda is marked in its place: as a tail call of
  -- jsonata-js unless it has an index or a way to it enters a binding, and as one to trampoline if it is
  -- that or has no group.
  pub mark_tail_calls-call :
      (n : Node F) (ws : List Way) (pos : ℕ) (m : Marks) (g : Group F) (v : Bytes) (p : Node F)
      (args : Nodes F)
      → at_ways ws (some n) ≡ some (node pos m g (call false v p args))
      → at_ways ws (some (mark_tail_calls n))
        ≡ some (
            node pos
              (record m {
                tail_context = js_along true ws && not (is_set m.index);
                thunk = (js_along true ws && not (is_set m.index)) || not (has_group g);
              })
              g
              (call false v p args))
  unfolding mark_tail_position
  mark_tail_calls-call n ws pos m g v p args h =
      at_ways-mark ws true (some n) ∙ ap (Option.map (mark_tail_position (js_along true ws))) h
