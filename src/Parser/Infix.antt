-- ===== src/Parser/Infix.antt =====
-- The constructs of the grammar that are parsed in infix position: `led` and the methods it calls.
-- `expr` stands for `expression`, and `fuel` bounds the rounds of each loop.
use gnata.Base.{
  ℕ, ◌-◌, Bool, true, false, not, ◌&&◌, ◌||◌, List, [], ◌∷◌, Option, none, some, Bytes, codes,
  bytes_eq, if◌then◌else◌,
}
use gnata.Lexer.Token.{
  TokenType, Token, left_bracket, right_bracket, left_brace, left_paren, right_paren, colon,
  at_sign, hash, question, less_than, greater_than, assign, caret, dot,
}
use gnata.Ast.{
  Marks, Node, node, Form, Nodes, nil, cons, Child, absent, present, Terms, no_terms, term, Group,
  no_group, group, Pairs, no_pairs, pair, leaf, form_of, marks_of, group_of, with_marks, with_group,
  has_group, on_path, is_variable, is_placeholder, is_subscript, is_sort, nodes_of, value_of,
  is_path_like, subscript_op, dot_op, binary, condition, bind, call, sort,
}
use gnata.Parser.Tokens.{binding_power, right_operator, left_operator}
use gnata.Parser.Monad.{
  Method, TokenSource, syntax, s0201, s0209, s0210, s0212, s0214, s0215, s0216, pure, raise, ◌>>=◌,
  ◌>>◌, current, if_at, choose, defer_error, advance, advance_infix, consume, consume_infix,
}
use gnata.Parser.Parts.{list_until, parse_argument, parse_object_pairs}

-- A predicate or a `[]` after a `#` binding marks the node that has the binding last.
abbrev pub mark_kept : Bool → Marks → Marks
mark_kept already_kept m = record m {
  kept_after_index = true;
  index_keep_array = m.index_keep_array || not already_kept;
}

abbrev pub mark_focus : Bytes → Marks → Marks
mark_focus v m = record m { index_last = false; focus = v }

abbrev pub mark_index : Bytes → Marks → Marks
mark_index v m = record m { index_last = true; index = v }

abbrev pub mark_keep_array : Marks → Marks
mark_keep_array m = record m { keep_array = true }

module _ {F : Type 0} where
  -- The loop of `parseSubscript` that looks for the binding, with what it does to it.
  unfoldable pub mark_bound : Bool → Node F → Node F
  mark_bound kept (node pos m g (binary op l r)) =
      let inner = mark_bound kept l in
      if m.index_last
      then node pos (mark_kept kept m) g (binary op l r)
      else if bytes_eq op subscript_op
      then node pos m g (binary op inner r)
      else node pos m g (binary op l r)
  mark_bound kept (node pos m g f) =
      if m.index_last then node pos (mark_kept kept m) g f else node pos m g f

  -- An empty `[]` behind a node.
  unfoldable pub keep_array_of : Node F → Node F
  keep_array_of n = mark_bound (marks_of n).keep_array (with_marks mark_keep_array n)

  abbrev pub pairs_of : List (Node F × Node F) → Pairs F
  pairs_of [] = no_pairs
  pairs_of ((k, v) ∷ ps) = pair k v (pairs_of ps)

  abbrev pub terms_of : List (Bool × Node F) → Terms F
  terms_of [] = no_terms
  terms_of ((d, e) ∷ ts) = term d e (terms_of ts)

  abbrev pub any_placeholder : List (Node F) → Bool
  any_placeholder [] = false
  any_placeholder (e ∷ es) = is_placeholder (form_of e) || any_placeholder es

module _ {F S : Type 0} where
  -- What an operator of a table does, or else the rest.
  abbrev pub binary_or :
      Option Bytes → (Bytes → Method F S (Node F)) → Method F S (Node F) → Method F S (Node F)
  binary_or (some op) m k = m op
  binary_or none m k = k

  -- The deferred errors of `@`.
  unfoldable pub check_focus : Form F → Method F S Unit
  check_focus f =
      choose (is_subscript f) (defer_error (syntax s0215 (codes "@")))
        (choose (is_sort f) (defer_error (syntax s0216 (codes "@"))) (pure tt))

  -- `parseBinding` behind its operand.
  unfoldable pub bind_variable : Bool → Node F → Node F → Method F S (Node F)
  bind_variable focus left (node q m g (gnata.Ast.variable v)) =
      choose focus (check_focus (form_of left) >> pure (with_marks (mark_focus v) left))
        (pure (with_marks (mark_index v) left))
  bind_variable focus left (node q m g f) =
      raise (syntax s0214 (if focus then codes "@" else codes "#"))

  -- The deferred error of a predicate.
  unfoldable pub check_predicate : Group F → Method F S Unit
  check_predicate g =
      choose (has_group g && not (on_path g)) (defer_error (syntax s0209 (codes "["))) (pure tt)

  -- The deferred error of a second group.
  unfoldable pub check_group : Group F → Method F S Unit
  check_group g = choose (has_group g) (defer_error (syntax s0210 (codes "{"))) (pure tt)

module _ {F S : Type 0} (lexer : TokenSource F S) where
  -- The direction of a sort term.
  unfoldable pub parse_direction : Method F S Bool
  parse_direction =
      if_at greater_than (do advance lexer; pure true)
        (if_at less_than (do advance lexer; pure false) (pure false))

  module _ (expr : ℕ → Method F S (Node F)) where
    -- A binary operator whose right operand binds more tightly than `bp`.
    unfoldable pub parse_binary : ℕ → Bytes → ℕ → Node F → Method F S (Node F)
    parse_binary bp op pos left = do
      advance lexer
      right ← expr bp
      pure (leaf pos (binary op left right))

    -- The conditional operator.
    unfoldable pub parse_else : Method F S (Child F)
    parse_else = if_at colon (do advance lexer; e ← expr 0; pure (present e)) (pure absent)

    unfoldable pub parse_condition : ℕ → Node F → Method F S (Node F)
    parse_condition pos left = do
      advance lexer
      then_branch ← expr 0
      else_branch ← parse_else
      pure (leaf pos (condition left then_branch else_branch))

    -- `:=`
    unfoldable pub parse_assign : Token F → Node F → Method F S (Node F)
    parse_assign t left =
        choose (is_variable (form_of left))
          (do
            advance lexer
            right ← expr (binding_power assign - 1)
            pure (leaf t.pos (bind left right)))
          (raise (syntax s0212 t.value))

    -- `parseBinding`
    unfoldable pub parse_binding : Bool → Node F → Method F S (Node F)
    parse_binding focus left = do
      advance lexer
      rhs ← expr (binding_power left_bracket)
      bind_variable focus left rhs

    -- `parseSubscript`
    unfoldable pub parse_subscript : ℕ → Node F → Method F S (Node F)
    parse_subscript pos left = do
      advance lexer
      if_at right_bracket (do advance lexer; pure (keep_array_of left))
          (do
            check_predicate (group_of left)
            e ← expr 0
            consume_infix lexer right_bracket
            pure (leaf pos (binary subscript_op left e)))

    unfoldable pub parse_term : Method F S (Bool × Node F)
    parse_term = do descending ← parse_direction; e ← expr 0; pure (descending, e)

    -- The cases of `led` that differ in the operator and in how tightly it binds.
    unfoldable pub led_operator : Token F → Node F → Method F S (Node F)
    led_operator t left =
        binary_or (right_operator t.type)
          (λ op. parse_binary (binding_power t.type - 1) op t.pos left)
          (binary_or (left_operator t.type)
            (λ op. parse_binary (binding_power t.type) op t.pos left)
            (raise (syntax s0201 t.value)))

    module _ (fuel : ℕ) where
      -- `parseFunctionCall`
      unfoldable pub parse_function_call : ℕ → Node F → Method F S (Node F)
      parse_function_call pos callee = do
        advance lexer
        args ← list_until lexer right_paren (parse_argument lexer expr) fuel
        advance_infix lexer
        pure (
            leaf pos
              (call (any_placeholder args) (value_of (form_of callee)) callee (nodes_of args)))

      -- A group.
      unfoldable pub parse_group : ℕ → Node F → Method F S (Node F)
      parse_group pos left = do
        check_group (group_of left)
        advance lexer
        pairs ← parse_object_pairs lexer expr fuel
        advance_infix lexer
        pure (with_group (group (pairs_of pairs) pos (is_path_like left)) left)

      -- `parseSortExpr`
      unfoldable pub parse_sort_expr : ℕ → Node F → Method F S (Node F)
      parse_sort_expr pos left = do
        advance lexer
        consume lexer left_paren
        terms ← list_until lexer right_paren parse_term fuel
        advance lexer
        pure (leaf pos (sort left (terms_of terms)))

      -- `led` on a token of a type.
      unfoldable pub led_of : TokenType → Token F → Node F → Method F S (Node F)
      led_of left_paren t left = parse_function_call t.pos left
      led_of left_bracket t left = parse_subscript t.pos left
      led_of dot t left = parse_binary 74 dot_op t.pos left
      led_of at_sign t left = parse_binding true left
      led_of hash t left = parse_binding false left
      led_of question t left = parse_condition t.pos left
      led_of assign t left = parse_assign t left
      led_of left_brace t left = parse_group t.pos left
      led_of caret t left = parse_sort_expr t.pos left
      led_of _ t left = led_operator t left

      -- `led`
      unfoldable pub led : Node F → Method F S (Node F)
      led left = current >>= λ t. led_of t.type t left
