-- ===== src/Parser/Operands.antt =====
-- What `nud` returns.
use gnata.Base.{ℕ, zero, suc, ◌≤◌, ◌<◌, ◌≡◌, refl, true, false, List, [], ◌∷◌, Option, arith, All}
use gnata.Lexer.Token.{
  right_bracket, left_brace, right_brace, left_paren, right_paren, semicolon, pipe,
}
use gnata.Signature.{ParamSpec}
use gnata.Ast.{
  Node, node, Form, leaf, path, block, array, object, lambda, transform, wildcard, descendant,
  placeholder, parent, nil, cons, Child, absent, present, nodes_of, no_marks, no_group,
}
use gnata.Ast
use gnata.Parser.Monad.{Parser, Method, TokenSource, mark_functions}
use gnata.Parser.Parts.{
  is_parameter, parse_argument, parse_transform, block_rest, parse_lambda, parse_paren_or_block,
  parse_array, parse_object, negated, parse_minus,
}
use gnata.Parser.Formed.{IsSignature}
use gnata.Parser.Returns.{
  Returns, returned, bind, branch, flag-le, ahead, Later, later, unread, relax, join, Built, built,
}
use gnata.Parser.Steps.{ahead-is_at, next-Later, consume-Later, consume_infix-Later}
use gnata.Parser.Loops.{list_until-Returns}
use gnata.Parser.Prefix.{
  ReadsTrees, Read, parse_signature-Returns, check_parameters-Returns, parse_argument-Reads,
  expr-Reads, parse_object_pairs-Returns, parse_delete-Returns,
}
use gnata.Parser.Trees.{
  BuiltArgument, BuiltHere, stay, stay_here, stay_argument, nodes-Built, flat-Built,
  arguments-Built, parameters-nodes_of,
}

module _ {F S : Type 0} (lexer : TokenSource F S) (expr : ℕ → Method F S (Node F)) (n : ℕ)
    (ih : ReadsTrees lexer n expr) where
  -- The functions flag, once set.
  known_function :
      {p q : Parser F S} → Later lexer 1 p q → Later lexer 1 p (record q { functions = true })
  known_function {p} l =
      later l.reads l.balanced (flag-le p.functions) l.grows l.stays_below l.keeps_error

  lambda-Built :
      (pos : ℕ) (params : List (Node F)) (sig : Option (List ParamSpec)) (body : Node F)
      (p q : Parser F S)
      → Later lexer 0 p q
      → All (BuiltArgument p) params
      → All (λ e. is_parameter e ≡ true) params
      → IsSignature sig
      → BuiltHere q body
      → Built
          (suc q.height)
          (record q { functions = true })
          (leaf pos (lambda (nodes_of params) sig body 0))
  lambda-Built pos params sig (node i m g f) p q l hs vs ws b =
      let (a, c, d) = arguments-Built p params hs in
      built (omega (arith, b.high, l.grows)) (omega arith)
        ((parameters-nodes_of params vs, ws, b.formed), tt)

  pub parse_transform-Returns :
      (pos : ℕ) (p : Parser F S)
      → 1 ≤ ahead lexer p
      → ahead lexer p ≤ n
      → Returns (Read lexer p) (parse_transform lexer expr pos p)
  unfolding parse_transform mark_functions
  parse_transform-Returns pos p h ln = bind _ (next-Later lexer true p h) (λ _ p1 l1.
      bind _ (ih 0 p1 (omega (arith, l1.reads))) (λ pattern p2 (l2, b2).
        let t2 = join l1 (relax l2) in
        bind _ (consume-Later lexer pipe p2 refl) (λ _ p3 l3.
          let t3 = join t2 (relax l3) in
          bind _ (ih 0 p3 (omega (arith, t3.reads))) (λ update p4 (l4, b4).
            let t4 = join t3 (relax l4) in
            bind _ (parse_delete-Returns lexer expr n ih p4 (omega (arith, t4.reads)))
              (λ del p5 (l5, hd, fd, wd). bind _ (consume-Later lexer pipe p5 refl) (λ _ p6 l6.
                let k6 = join l5 (relax l6) in
                let b = stay (join (join (relax l3) (relax l4)) k6) b2 in
                let c = stay k6 b4 in
                let t6 = join t4 k6 in
                returned (
                  known_function t6,
                  built (omega (arith, b.high, c.high, hd, k6.grows, l6.grows)) (omega arith)
                      ((b.formed, c.formed, wd), tt),
                )))))))

  block_rest-Returns :
      (fuel : ℕ) (p : Parser F S)
      → ahead lexer p < fuel
      → ahead lexer p < n
      → Returns (λ es q. Later lexer 0 p q × All (BuiltHere q) es) (block_rest lexer expr fuel p)
  unfolding block_rest
  block_rest-Returns zero p h ln = absurd (omega arith)
  block_rest-Returns (suc fuel) p h ln =
      branch semicolon _ _ p
        (λ e. bind _ (next-Later lexer false p (ahead-is_at lexer semicolon p refl e)) (λ _ p1 l1.
          branch right_paren _ _ p1 (λ _. returned (relax l1, tt))
            (λ _. bind _ (ih 0 p1 (omega (arith, l1.reads))) (λ x p2 (l2, b).
              bind _
                (block_rest-Returns fuel p2 (omega (arith, ahead-is_at lexer semicolon p refl e))
                  (omega (arith, ahead-is_at lexer semicolon p refl e)))
                (λ es p3 (l3, bs).
                  returned (join (relax l1) (join (relax l2) l3), (stay l3 b, bs)))))))
        (λ _. returned (unread, tt))

  block-Built :
      (pos : ℕ) (es : List (Node F)) (p q : Parser F S)
      → Later lexer 0 p q
      → All (BuiltHere p) es
      → Built (suc q.height) q (leaf pos (block (nodes_of es)))
  block-Built pos es p q l h =
      let (a, b, c) = nodes-Built p es h in built (omega arith) (omega arith) (c, tt)

  pub parse_paren_or_block-Returns :
      (pos : ℕ) (p : Parser F S)
      → 1 ≤ ahead lexer p
      → ahead lexer p ≤ n
      → Returns (Read lexer p) (parse_paren_or_block lexer expr n pos p)
  unfolding parse_paren_or_block
  parse_paren_or_block-Returns pos p h ln = bind _ (next-Later lexer true p h) (λ _ p1 l1.
      branch right_paren _ _ p1
        (λ e.
          bind _ (next-Later lexer true p1 (ahead-is_at lexer right_paren p1 refl e))
            (λ _ p2 l2. returned (join l1 (relax l2), block-Built pos [] p1 p2 (relax l2) tt)))
        (λ _. bind _ (ih 0 p1 (omega arith)) (λ first p2 (l2, b).
          branch right_paren _ _ p2
            (λ e.
              bind _ (next-Later lexer true p2 (ahead-is_at lexer right_paren p2 refl e))
                (λ _ p3 l3. returned (
                  join l1 (join (relax l2) (relax l3)),
                  block-Built pos (first ∷ []) p2 p3 (relax l3) (b, tt),
                )))
            (λ _. bind _ (block_rest-Returns n p2 (omega arith) (omega arith)) (λ es p3 (l3, bs).
              bind _ (consume_infix-Later lexer right_paren p3 refl) (λ _ p4 l4. returned (
                join l1 (join (relax l2) (join l3 (relax l4))),
                block-Built pos (first ∷ es) p3 p4 (relax l4) (stay l3 b, bs),
              )))))))

  pub parse_array-Returns :
      (pos : ℕ) (p : Parser F S)
      → 1 ≤ ahead lexer p
      → ahead lexer p ≤ n
      → Returns (Read lexer p) (parse_array lexer expr n pos p)
  unfolding parse_array
  parse_array-Returns pos p h ln = bind _ (next-Later lexer true p h) (λ _ p1 l1.
      bind _
        (list_until-Returns lexer BuiltHere right_bracket n (expr 0) stay_here
          (expr-Reads lexer expr n ih) n p1 (omega arith) (omega arith))
        (λ es p2 (l2, hs, y).
          bind _ (next-Later lexer true p2 (ahead-is_at lexer right_bracket p2 refl y)) (λ _ p3 l3.
            let (a, b, c) = nodes-Built p2 es hs in
            returned (
              join l1 (join l2 (relax l3)),
              built (omega (arith, l3.grows)) (omega (arith, l3.flags)) (c, tt),
            ))))

  pub parse_object-Returns :
      (pos : ℕ) (p : Parser F S)
      → 1 ≤ ahead lexer p
      → ahead lexer p ≤ n
      → Returns (Read lexer p) (parse_object lexer expr n pos p)
  unfolding parse_object
  parse_object-Returns pos p h ln = bind _ (next-Later lexer true p h) (λ _ p1 l1.
      bind _ (parse_object_pairs-Returns lexer expr n ih p1 (omega arith)) (λ es p2 (l2, hs, y).
        bind _ (next-Later lexer true p2 (ahead-is_at lexer right_brace p2 refl y)) (λ _ p3 l3.
          let (a, b, c) = flat-Built p2 es hs in
          returned (
            join l1 (join l2 (relax l3)),
            built (omega (arith, l3.grows)) (omega (arith, l3.flags)) (c, tt),
          ))))

  negated-Built :
      (negate : F → F) (pos : ℕ) (p : Parser F S) (e : Node F)
      → BuiltHere p e
      → Built (suc p.height) p (negated negate pos e)
  unfolding negated
  negated-Built negate pos p (node q m g (Ast.number v x)) b =
      built (omega (arith, b.high)) (omega (arith, b.known)) b.formed
  negated-Built negate pos p (node q m g f) b =
      built (omega (arith, b.high)) (omega (arith, b.known)) (b.formed, tt)

  pub parse_minus-Returns :
      (negate : F → F) (pos : ℕ) (p : Parser F S)
      → 1 ≤ ahead lexer p
      → ahead lexer p ≤ n
      → Returns (Read lexer p) (parse_minus lexer negate expr pos p)
  unfolding parse_minus
  parse_minus-Returns negate pos p h ln = bind _ (next-Later lexer true p h) (λ _ p1 l1.
      bind _ (ih 70 p1 (omega arith))
        (λ e p2 (l2, b). returned (join l1 (relax l2), negated-Built negate pos p2 e b)))

  pub parse_lambda-Returns :
      (pos : ℕ) (p p0 : Parser F S)
      → Later lexer 1 p0 p
      → ahead lexer p < n
      → Returns (Read lexer p0) (parse_lambda lexer expr n pos p)
  unfolding parse_lambda mark_functions
  parse_lambda-Returns pos p p0 l0 ln = bind _ (consume-Later lexer left_paren p refl) (λ _ p1 l1.
      bind _
        (list_until-Returns lexer BuiltArgument right_paren n (parse_argument lexer expr)
          stay_argument (parse_argument-Reads lexer expr n ih) n p1 (omega arith) (omega arith))
        (λ params p2 (l2, hs, y).
          bind _ (next-Later lexer true p2 (ahead-is_at lexer right_paren p2 refl y)) (λ _ p3 l3.
            bind _ (check_parameters-Returns lexer params p3) (λ _ p4 (l4, vs).
              let t4 = join (relax l1) (join l2 (join (relax l3) l4)) in
              bind _ (parse_signature-Returns lexer n p4 (omega (arith, t4.reads)))
                (λ sig p5 (l5, ws).
                  let t5 = join t4 l5 in
                  bind _ (consume-Later lexer left_brace p5 refl) (λ _ p6 l6.
                    let t6 = join t5 (relax l6) in
                    bind _ (ih 0 p6 (omega (arith, t6.reads))) (λ body p7 (l7, b).
                      bind _ (consume-Later lexer right_brace p7 refl) (λ _ p8 l8.
                        let t8 = join t6 (join (relax l7) (relax l8)) in
                        returned (
                          known_function (join l0 t8),
                          lambda-Built pos params sig body p2 p8
                              (join (relax l3)
                                (join l4 (join l5 (join (relax l6) (join (relax l7) (relax l8))))))
                              hs vs ws (stay (relax l8) b),
                        )))))))))
