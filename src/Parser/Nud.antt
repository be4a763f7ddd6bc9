-- ===== src/Parser/Nud.antt =====
-- What `nud` returns, on each type of token.
use gnata.Base.{ℕ, ◌≤◌, ◌≡◌, refl, true, arith}
use gnata.Lexer.Token.{
  TokenType, Token, chain, eof, left_bracket, left_brace, left_paren, star, percent, pipe,
  star_star, and_word, or_word, in_word,
}
use gnata.Ast.{
  Node, node, Form, leaf, path, block, array, object, lambda, transform, wildcard, descendant,
  placeholder, parent, nil, cons, Child, absent, present, nodes_of, no_marks, no_group,
}
use gnata.Ast
use gnata.Parser.Tokens.{type_code, same_type}
use gnata.Parser.Monad.{Parser, ok, Method, TokenSource, is_at}
use gnata.Parser.Parts.{parse_name, nud_of, nud, is_lambda_word}
use gnata.Parser.Returns.{Returns, returned, failed, bind, branch, choice, ahead}
use gnata.Parser.Steps.{ahead-pos, ahead-at_end, next-Later}
use gnata.Parser.Prefix.{
  ReadsTrees, Read, leaf-Built, operand-Returns, parse_parent-Returns, missing_operand-Returns,
}
use gnata.Parser.Operands.{
  parse_transform-Returns, parse_paren_or_block-Returns, parse_array-Returns, parse_object-Returns,
  parse_minus-Returns, parse_lambda-Returns,
}

module _ {F S : Type 0} (lexer : TokenSource F S) (zero_value : F) (negate : F → F)
    (expr : ℕ → Method F S (Node F)) (n : ℕ) (ih : ReadsTrees lexer n expr) where
  parse_name-Returns :
      (t : Token F) (p : Parser F S)
      → 1 ≤ ahead lexer p
      → ahead lexer p ≤ n
      → Returns (Read lexer p) (parse_name lexer expr n t p)
  unfolding parse_name
  parse_name-Returns t p h ln = bind _ (next-Later lexer true p h) (λ _ q l.
      let plain : Returns {A = Node F} (Read lexer p) (ok (leaf t.pos (Ast.name t.value)) q) =
        returned
          (l, leaf-Built t.pos (Ast.name t.value) q.height q (omega arith) (omega arith) tt) in
      choice (is_lambda_word t.value) _ _ q
        (λ _.
          branch left_paren _ _ q
            (λ _. parse_lambda-Returns lexer expr n ih t.pos q p l (omega arith)) (λ _. plain))
        (λ _. plain))

  nud_of-Returns :
      (ty : TokenType) (t : Token F) (p : Parser F S)
      → is_at eof p ≡ same_type ty eof
      → ahead lexer p ≤ n
      → Returns (Read lexer p) (nud_of lexer zero_value negate expr n ty t p)
  unfolding nud_of same_type type_code
  nud_of-Returns eof t p e ln = missing_operand-Returns lexer t p (ahead-at_end lexer p e)
  nud_of-Returns TokenType.name t p e ln = parse_name-Returns t p (ahead-pos lexer p e) ln
  nud_of-Returns and_word t p e ln = operand-Returns lexer t _ p (ahead-pos lexer p e) refl refl tt
  nud_of-Returns or_word t p e ln = operand-Returns lexer t _ p (ahead-pos lexer p e) refl refl tt
  nud_of-Returns in_word t p e ln = operand-Returns lexer t _ p (ahead-pos lexer p e) refl refl tt
  nud_of-Returns TokenType.variable t p e ln =
      operand-Returns lexer t _ p (ahead-pos lexer p e) refl refl tt
  nud_of-Returns TokenType.string t p e ln =
      operand-Returns lexer t _ p (ahead-pos lexer p e) refl refl tt
  nud_of-Returns TokenType.number t p e ln =
      operand-Returns lexer t _ p (ahead-pos lexer p e) refl refl tt
  nud_of-Returns TokenType.value t p e ln =
      operand-Returns lexer t _ p (ahead-pos lexer p e) refl refl tt
  nud_of-Returns TokenType.regex t p e ln =
      operand-Returns lexer t _ p (ahead-pos lexer p e) refl refl tt
  nud_of-Returns star t p e ln = operand-Returns lexer t _ p (ahead-pos lexer p e) refl refl tt
  nud_of-Returns star_star t p e ln = operand-Returns lexer t _ p (ahead-pos lexer p e) refl refl tt
  nud_of-Returns TokenType.minus t p e ln =
      parse_minus-Returns lexer expr n ih negate t.pos p (ahead-pos lexer p e) ln
  nud_of-Returns percent t p e ln = parse_parent-Returns lexer t p (ahead-pos lexer p e)
  nud_of-Returns left_bracket t p e ln =
      parse_array-Returns lexer expr n ih t.pos p (ahead-pos lexer p e) ln
  nud_of-Returns left_brace t p e ln =
      parse_object-Returns lexer expr n ih t.pos p (ahead-pos lexer p e) ln
  nud_of-Returns left_paren t p e ln =
      parse_paren_or_block-Returns lexer expr n ih t.pos p (ahead-pos lexer p e) ln
  nud_of-Returns pipe t p e ln =
      parse_transform-Returns lexer expr n ih t.pos p (ahead-pos lexer p e) ln
  nud_of-Returns chain t p e ln = failed refl
  nud_of-Returns _ t p e ln = failed refl

  pub nud-Returns :
      (p : Parser F S)
      → ahead lexer p ≤ n
      → Returns (Read lexer p) (nud lexer zero_value negate expr n p)
  unfolding nud
  nud-Returns p ln = nud_of-Returns p.token.type p.token p refl ln
