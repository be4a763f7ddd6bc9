-- ===== src/Parser/Led.antt =====
-- What `led` returns, on each type of token.
use gnata.Base.{
  ℕ, suc, ◌-◌, ◌≤◌, max, refl, Bool, true, false, List, Option, none, some, Bytes, arith, All,
}
use gnata.Lexer.Token.{
  TokenType, Token, left_bracket, right_bracket, left_brace, right_brace, left_paren, right_paren,
  question, dot, at_sign, hash, assign, caret,
}
use gnata.Ast.{Node, node, group, with_marks, with_group, group_of, marks_of, dot_op, is_path_like}
use gnata.Parser.Monad.{raise, syntax, s0201, Parser, Method, TokenSource}
use gnata.Parser.Tokens.{binding_power, right_operator, left_operator}
use gnata.Parser.Parts.{parse_argument}
use gnata.Parser.Infix.{
  mark_keep_array, keep_array_of, pairs_of, binary_or, parse_binary, parse_subscript, parse_term,
  led_operator, parse_function_call, parse_group, parse_sort_expr, led_of, led,
}
use gnata.Parser.Returns.{
  Returns, returned, failed, bind, branch, flag, ahead, relax, join, behind, Built, built,
}
use gnata.Parser.Steps.{ahead-is_at, next-Later, consume-Later, consume_infix-Later}
use gnata.Parser.Loops.{Reads, list_until-Returns, All-Stays}
use gnata.Parser.Prefix.{ReadsTrees, parse_argument-Reads, parse_object_pairs-Returns}
use gnata.Parser.Operators.{
  with_marks-Built, mark_bound-Built, ReadBehind, check_predicate-Returns, check_group-Returns,
  parse_direction-Returns, parse_binary-Returns, parse_condition-Returns, parse_assign-Returns,
  parse_binding-Returns,
}
use gnata.Parser.Trees.{
  BuiltArgument, BuiltPair, stay, stay_argument, stay_pair, pairs-Built, terms-Built, stay_term,
  BuiltTerm, any_placeholder-nodes_of, arguments-Built,
}

module _ {F S : Type 0} where
  keep_array_of-Built :
      (h : ℕ) (p : Parser F S) (e : Node F) → Built h p e → Built h p (keep_array_of e)
  unfolding keep_array_of
  keep_array_of-Built h p e b =
      mark_bound-Built p (marks_of e).keep_array h (with_marks mark_keep_array e)
        (with_marks-Built h p mark_keep_array e b)

  -- A group behind a tree.
  with_group-Built :
      (k : ℕ) (p q : Parser F S) (pos : ℕ) (on : Bool) (es : List (Node F × Node F)) (e : Node F)
      → flag p.functions ≤ flag q.functions
      → Built k p e
      → All (BuiltPair q) es
      → Built (suc (max k q.height)) q (with_group (group (pairs_of es) pos on) e)
  with_group-Built k p q pos on es (node i m g f) l b hs =
      let (a, c, d) = pairs-Built q es hs in
      built (omega (arith, b.high)) (omega (arith, b.known)) (b.formed.0, d)

module _ {F S : Type 0} (lexer : TokenSource F S) (expr : ℕ → Method F S (Node F)) (n : ℕ)
    (ih : ReadsTrees lexer n expr) where
  parse_subscript-Returns :
      (pos k : ℕ) (left : Node F) (p : Parser F S)
      → Built k p left
      → 1 ≤ ahead lexer p
      → ahead lexer p ≤ n
      → Returns (ReadBehind lexer k p) (parse_subscript lexer expr pos left p)
  unfolding parse_subscript
  parse_subscript-Returns pos k left p b h ln = bind _ (next-Later lexer false p h) (λ _ p1 l1.
      branch right_bracket _ _ p1
        (λ e.
          bind _ (next-Later lexer false p1 (ahead-is_at lexer right_bracket p1 refl e)) (λ _ p2 l2.
            let t = join l1 (relax l2) in
            let c = keep_array_of-Built k p left b in
            returned (t, built (omega (arith, c.high)) (omega (arith, c.known, t.flags)) c.formed)))
        (λ _. bind _ (check_predicate-Returns lexer (group_of left) p1) (λ _ p2 l2.
          bind _ (ih 0 p2 (omega arith)) (λ e p3 (l3, c).
            bind _ (consume_infix-Later lexer right_bracket p3 refl) (λ _ p4 l4.
              let t = join l1 (join l2 (join (relax l3) (relax l4))) in
              let c' = stay (relax l4) c in
              returned (
                t,
                built (omega (arith, b.high, c'.high)) (omega (arith, b.known, c'.known, t.flags))
                    ((b.formed, c.formed), tt),
              ))))))

  parse_term-Reads : Reads lexer BuiltTerm n (parse_term lexer expr)
  unfolding parse_term
  parse_term-Reads p h ln = bind _ (parse_direction-Returns lexer p) (λ d p1 l1.
      bind _ (ih 0 p1 (omega (arith, l1.reads))) (λ e p2 (l2, b). returned (behind l1 l2, b)))

  parse_function_call-Returns :
      (pos k : ℕ) (left : Node F) (p : Parser F S)
      → Built k p left
      → 1 ≤ ahead lexer p
      → ahead lexer p ≤ n
      → Returns (ReadBehind lexer k p) (parse_function_call lexer expr n pos left p)
  unfolding parse_function_call
  parse_function_call-Returns pos k (node i m g f) p b h ln =
      bind _ (next-Later lexer false p h) (λ _ p1 l1.
        bind _
          (list_until-Returns lexer BuiltArgument right_paren n (parse_argument lexer expr)
            stay_argument (parse_argument-Reads lexer expr n ih) n p1 (omega arith) (omega arith))
          (λ args p2 (l2, hs, y).
            bind _ (next-Later lexer true p2 (ahead-is_at lexer right_paren p2 refl y)) (λ _ p3 l3.
              let t = join l1 (join l2 (relax l3)) in
              let (a, c, d) = arguments-Built p2 args hs in
              returned (
                t,
                built (omega (arith, b.high, l3.grows)) (omega (arith, b.known, t.flags, l3.flags))
                    ((any_placeholder-nodes_of args, b.formed, d), tt),
              ))))

  parse_group-Returns :
      (pos k : ℕ) (left : Node F) (p : Parser F S)
      → Built k p left
      → 1 ≤ ahead lexer p
      → ahead lexer p ≤ n
      → Returns (ReadBehind lexer k p) (parse_group lexer expr n pos left p)
  unfolding parse_group
  parse_group-Returns pos k left p b h ln =
      bind _ (check_group-Returns lexer (group_of left) p) (λ _ p0 (l0, same).
        bind _ (next-Later lexer false p0 (omega arith)) (λ _ p1 l1.
          bind _ (parse_object_pairs-Returns lexer expr n ih p1 (omega arith)) (λ es p2 (l2, hs, y).
            bind _ (next-Later lexer true p2 (ahead-is_at lexer right_brace p2 refl y)) (λ _ p3 l3.
              let t = behind l0 (join l1 (join l2 (relax l3))) in
              returned (
                t,
                with_group-Built k p p3 pos (is_path_like left) es left t.flags b
                    (All-Stays lexer BuiltPair stay_pair p2 p3 es (relax l3) hs),
              )))))

  parse_sort_expr-Returns :
      (pos k : ℕ) (left : Node F) (p : Parser F S)
      → Built k p left
      → 1 ≤ ahead lexer p
      → ahead lexer p ≤ n
      → Returns (ReadBehind lexer k p) (parse_sort_expr lexer expr n pos left p)
  unfolding parse_sort_expr
  parse_sort_expr-Returns pos k left p b h ln = bind _ (next-Later lexer false p h) (λ _ p1 l1.
      bind _ (consume-Later lexer left_paren p1 refl) (λ _ p2 l2.
        bind _
          (list_until-Returns lexer BuiltTerm right_paren n (parse_term lexer expr) stay_term
            parse_term-Reads n p2 (omega arith) (omega arith))
          (λ ts p3 (l3, hs, y).
            bind _ (next-Later lexer false p3 (ahead-is_at lexer right_paren p3 refl y)) (λ _ p4 l4.
              let t = join l1 (join (relax l2) (join l3 (relax l4))) in
              let (a, c, d) = terms-Built p3 ts hs in
              returned (
                t,
                built (omega (arith, b.high, l4.grows)) (omega (arith, b.known, t.flags, l4.flags))
                    ((b.formed, d), tt),
              )))))

  led_operator-Returns :
      (tok : Token F) (k : ℕ) (left : Node F) (p : Parser F S)
      → Built k p left
      → 1 ≤ ahead lexer p
      → ahead lexer p ≤ n
      → Returns (ReadBehind lexer k p) (led_operator lexer expr tok left p)
  unfolding led_operator
  led_operator-Returns tok k left p b h ln = go (right_operator tok.type) (left_operator tok.type)
    where
      go :
          (r l : Option Bytes)
          → Returns (ReadBehind lexer k p) (
              binary_or r
                (λ op. parse_binary lexer expr (binding_power tok.type - 1) op tok.pos left)
                (binary_or l
                  (λ op. parse_binary lexer expr (binding_power tok.type) op tok.pos left)
                  (raise (syntax s0201 tok.value)))
                p)
      go (some op) l = parse_binary-Returns lexer expr n ih _ op tok.pos k left p b h ln
      go none (some op) = parse_binary-Returns lexer expr n ih _ op tok.pos k left p b h ln
      go none none = failed refl

  led_of-Returns :
      (ty : TokenType) (tok : Token F) (k : ℕ) (left : Node F) (p : Parser F S)
      → Built k p left
      → 1 ≤ ahead lexer p
      → ahead lexer p ≤ n
      → Returns (ReadBehind lexer k p) (led_of lexer expr n ty tok left p)
  unfolding led_of
  led_of-Returns left_paren t k left p b h ln = parse_function_call-Returns t.pos k left p b h ln
  led_of-Returns left_bracket t k left p b h ln = parse_subscript-Returns t.pos k left p b h ln
  led_of-Returns dot t k left p b h ln =
      parse_binary-Returns lexer expr n ih 74 dot_op t.pos k left p b h ln
  led_of-Returns at_sign t k left p b h ln =
      parse_binding-Returns lexer expr n ih true k left p b h ln
  led_of-Returns hash t k left p b h ln =
      parse_binding-Returns lexer expr n ih false k left p b h ln
  led_of-Returns question t k left p b h ln =
      parse_condition-Returns lexer expr n ih t.pos k left p b h ln
  led_of-Returns assign t k left p b h ln = parse_assign-Returns lexer expr n ih t k left p b h ln
  led_of-Returns left_brace t k left p b h ln = parse_group-Returns t.pos k left p b h ln
  led_of-Returns caret t k left p b h ln = parse_sort_expr-Returns t.pos k left p b h ln
  led_of-Returns _ t k left p b h ln = led_operator-Returns t k left p b h ln

  pub led-Returns :
      (k : ℕ) (left : Node F) (p : Parser F S)
      → Built k p left
      → 1 ≤ ahead lexer p
      → ahead lexer p ≤ n
      → Returns (ReadBehind lexer k p) (led lexer expr n left p)
  unfolding led
  led-Returns k left p b h ln = led_of-Returns p.token.type p.token k left p b h ln
