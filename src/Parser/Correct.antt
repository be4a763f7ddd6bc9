-- ===== src/Parser/Correct.antt =====
-- What `expression` and `Parse` return.
use gnata.Base.{
  ℕ, zero, suc, ◌+◌, ◌≤◌, ◌<◌, max, ◌≡◌, refl, ◌∙◌, false, some, arith, ltb, leb, ◌==◌,
}
use gnata.Lexer.Token.{TokenType, eof}
use gnata.Ast.{Node}
use gnata.Parser.Tokens.{type_code, same_type, binding_power}
use gnata.Parser.Monad.{Parser, Method, TokenSource, max_depth, ParseError}
use gnata.Parser.Expression.{
  depth_error, get_height, set_height, enter, leave, led_loop, expression, deepen,
}
use gnata.Parser.Returns.{
  Returns, returned, failed, bind, choice, weaken, flag, ahead, later, Built, built,
}
use gnata.Parser.Steps.{ahead-pos}
use gnata.Parser.Prefix.{ReadsTrees}
use gnata.Parser.Nud.{nud-Returns}
use gnata.Parser.Led.{led-Returns}

-- Only tokens that are not the last bind to a tree.
binding_power-ne-eof :
    (t : TokenType) (bp : ℕ) → leb (binding_power t) bp ≡ false → same_type t eof ≡ false
unfolding binding_power same_type type_code
binding_power-ne-eof eof bp h = ground arith
binding_power-ne-eof _ bp h = refl

module _ {F S : Type 0} (lexer : TokenSource F S) where
  -- What the loop of `expression` returns at `p`: a tree with a bound on its height.
  abbrev Grown : Parser F S → Node F × ℕ → Parser F S → Type 0
  Grown p (e, h) q =
      (ahead lexer q ≤ ahead lexer p)
      × (q.depth ≡ p.depth)
      × (flag p.functions ≤ flag q.functions)
      × (h ≤ max_depth)
      × ((d : ParseError) → p.deferred ≡ some d → q.deferred ≡ some d)
      × Built h q e

  led_loop-Returns :
      (expr : ℕ → Method F S (Node F)) (n : ℕ)
      → ReadsTrees lexer n expr
      → (fuel bp k : ℕ) (left : Node F) (p : Parser F S) → Built k p left
      → ahead lexer p ≤ n
      → ahead lexer p < fuel
      → Returns (Grown p) (led_loop lexer expr n fuel bp k left p)
  unfolding led_loop set_height get_height depth_error
  led_loop-Returns expr n ih zero bp k left p b ln lf = absurd (omega arith)
  led_loop-Returns expr n ih (suc fuel) bp k left p b ln lf =
      choice (ltb max_depth k) _ _ p (λ _. failed refl)
        (λ low.
          choice (leb (binding_power p.token.type) bp) _ _ p
            (λ _. returned (omega arith, refl, omega arith, ground arith, (λ d e. e), b))
            (λ tight.
              let more = ahead-pos lexer p (binding_power-ne-eof p.token.type bp tight) in
              bind _
                (led-Returns lexer expr n ih k left (record p { height = 0 })
                  (built b.high b.known b.formed) more ln)
                (λ e q (l, c).
                  weaken
                    (led_loop-Returns expr n ih fuel bp (max k q.height + 1) e q
                      (built (omega (arith, c.high)) c.known c.formed) (omega (arith, l.reads))
                      (omega (arith, l.reads)))
                    (λ (e', h) r (a, d, f, g, u, w). (
                      omega (arith, l.reads),
                      d ∙ l.balanced,
                      omega (arith, l.flags),
                      g,
                      (λ d e. u d (l.keeps_error d e)),
                      w,
                    )))))

  enter-Returns :
      (p : Parser F S)
      → Returns
          (λ _ q.
            (ahead lexer q ≡ ahead lexer p)
            × (q.depth ≡ suc p.depth)
            × (q.height ≡ p.height)
            × (flag q.functions ≡ flag p.functions)
            × (q.deferred ≡ p.deferred))
          (enter p)
  unfolding enter depth_error
  enter-Returns p =
      choice (p.depth == max_depth) _ (deepen (suc p.depth)) p (λ _. failed refl)
        (λ _. returned (refl, refl, refl, refl, refl))

module _ {F S : Type 0} (lexer : TokenSource F S) (zero_value : F) (negate : F → F) where
  pub expression-Returns : (n : ℕ) → ReadsTrees lexer n (expression lexer zero_value negate n)
  unfolding expression get_height set_height leave
  expression-Returns zero bp p h = absurd (omega arith)
  expression-Returns (suc n) bp p h =
      let expr = expression lexer zero_value negate n in
      let ih = expression-Returns n in
      bind _ (enter-Returns lexer p) (λ _ p1 (a1, d1, h1, f1, e1).
        let p2 : Parser F S = record p1 { height = 0 } in
        bind _ (nud-Returns lexer zero_value negate expr n ih p2 (omega arith)) (λ e p3 (l3, b3).
          bind _
            (led_loop-Returns lexer expr n ih (suc n) bp (p3.height + 1) e p3
              (built (omega (arith, b3.high)) b3.known b3.formed) (omega (arith, l3.reads))
              (omega (arith, l3.reads)))
            (λ (e', k) p4 (a4, d4, f4, m4, e4, b4). returned (
              later (omega (arith, l3.reads)) (omega (arith, l3.balanced)) (omega (arith, l3.flags))
                  (omega arith) (omega arith) (λ d e. e4 d (l3.keeps_error d (e1 ∙ e))),
              built (omega (arith, b4.high)) b4.known b4.formed,
            ))))
