-- ===== src/Ast/TailCall.antt =====
-- internal/parser/tailcall.go: the marks of tail calls, and the tail positions they belong to.
use gnata.Base.{
  Bool, true, false, not, ◌&&◌, ◌||◌, List, [], ◌∷◌, Option, none, some, Bytes, codes, bytes_eq,
  if◌then◌else◌,
}
use gnata.Ast.{
  Marks, Node, node, Form, block, binary, condition, bind, call, Nodes, nil, cons, Child, absent,
  present, Group, has_group, is_set, form_of,
}

-- An operator that jsonata-js parses as a condition.
abbrev pub is_default_op : Bytes → Bool
is_default_op op = bytes_eq op (codes "?:") || bytes_eq op (codes "??")

-- The marks of a call in tail position.
abbrev pub call_marks : {F : Type 0} → Bool → Group F → Marks → Marks
call_marks js_tail g m = record m {
  tail_context = js_tail && not (is_set m.index);
  thunk = (js_tail && not (is_set m.index)) || not (has_group g);
}

abbrev pub thunk_mark : Bool → Marks → Marks
thunk_mark js_tail m = record m { thunk = js_tail }

unfoldable mutual
  -- `markTailPosition`
  pub mark_tail_position : {F : Type 0} → Bool → Node F → Node F
  mark_tail_position js_tail (node pos m g (call partial v p args)) =
      if partial
      then node pos m g (call partial v p args)
      else node pos (call_marks js_tail g m) g (call partial v p args)
  mark_tail_position js_tail (node pos m g (condition c t e)) =
      node pos m g (condition c (mark_tail_position js_tail t) (mark_tail_child js_tail e))
  mark_tail_position js_tail (node pos m g (block es)) =
      node pos m g (block (mark_tail_last js_tail es))
  mark_tail_position js_tail (node pos m g (bind l r)) =
      node pos m g (bind l (mark_tail_position false r))
  mark_tail_position js_tail (node pos m g (binary op l r)) =
      let right = mark_tail_position js_tail r in
      if is_default_op op
      then node pos (thunk_mark js_tail m) g (binary op l right)
      else node pos m g (binary op l r)
  mark_tail_position js_tail n = n

  -- `markTailPosition` on a child that may be absent.
  pub mark_tail_child : {F : Type 0} → Bool → Child F → Child F
  mark_tail_child js_tail absent = absent
  mark_tail_child js_tail (present e) = present (mark_tail_position js_tail e)

  -- `markTailPosition` on the last expression of a block.
  pub mark_tail_last : {F : Type 0} → Bool → Nodes F → Nodes F
  mark_tail_last js_tail nil = nil
  mark_tail_last js_tail (cons e nil) = cons (mark_tail_position js_tail e) nil
  mark_tail_last js_tail (cons e (cons x es)) = cons e (mark_tail_last js_tail (cons x es))

-- `markTailCalls`
abbrev pub mark_tail_calls : {F : Type 0} → Node F → Node F
mark_tail_calls n = mark_tail_position true n

-- The ways from an expression to the one whose value it returns.
pub data Way : Type 0 where
  to_then to_else to_last to_bound to_default : Way

abbrev pub last_of : {F : Type 0} → Nodes F → Option (Node F)
last_of nil = none
last_of (cons e nil) = some e
last_of (cons e (cons x es)) = last_of (cons x es)

-- The expression that a way leads to.
abbrev pub step_to : {F : Type 0} → Way → Form F → Option (Node F)
step_to to_then (condition c t e) = some t
step_to to_else (condition c t (present e)) = some e
step_to to_last (block es) = last_of es
step_to to_bound (bind l r) = some r
step_to to_default (binary op l r) = if is_default_op op then some r else none
step_to _ f = none

-- jsonata-js does not follow the right side of `:=`.
abbrev pub js_way : Way → Bool
js_way to_bound = false
js_way _ = true

abbrev pub js_along : Bool → List Way → Bool
js_along b [] = b
js_along b (w ∷ ws) = js_along (b && js_way w) ws

-- The expression in tail position that ways lead to.
abbrev pub at_ways : {F : Type 0} → List Way → Option (Node F) → Option (Node F)
at_ways ws none = none
at_ways [] (some n) = some n
at_ways (w ∷ ws) (some n) = at_ways ws (step_to w (form_of n))
