-- ===== src/Parser/Precedence/Climbing.antt =====
-- `expression` on a written expression.
use gnata.Base.{
  ℕ, zero, suc, ◌+◌, ◌-◌, ◌≤◌, ◌<◌, max, ◌≡◌, refl, ap, sym, subst, ◌∙◌, Bool, true, false, List,
  ◌∷◌, Option, Bytes, arith, ltb, leb, ◌==◌, codes,
}
use gnata.Lexer.Token.{TokenType, Token, plain, variable, left_paren, right_paren}
use gnata.Ast.{Node, leaf, binary}
use gnata.Parser.Tokens.{type_code, same_type, binding_power}
use gnata.Parser.Monad.{
  Parser, Result, ok, Method, ParseError, max_depth, continue, next, choose, if_at,
}
use gnata.Parser.Parts.{operand, parse_paren_or_block, nud, nud_of}
use gnata.Parser.Infix.{parse_binary, led}
use gnata.Parser.Expression.{get_height, set_height, enter, leave, led_loop, expression}
use gnata.Parser.Precedence.{
  Infix, atom, parens, op, level, right_level, spelling, written, tree_of, Edge, Grouped, size,
}
use gnata.Parser.Precedence.Reading.{
  first_of, list_source, is_readable, at, next-at, operator-is_readable, written-is_readable,
  led_of-operator, binding_power-operator,
}

written-ne-closing :
    {F : Type 0} (t : Infix) (k : List (Token F))
    → same_type (first_of (written t k)).type right_paren ≡ false
unfolding same_type type_code
written-ne-closing (atom v) k = refl
written-ne-closing (parens e) k = refl
written-ne-closing (op o l r) k = written-ne-closing l (plain o (spelling o) 0 ∷ written r k)

-- How many operators stand on the left edge.
abbrev spine : Infix → ℕ
spine (atom v) = 0
spine (parens e) = 0
spine (op o l r) = suc (spine l)

spine-lt : (t : Infix) → spine t < size t
spine-lt (atom v) = omega arith
spine-lt (parens e) = omega arith
spine-lt (op o l r) = omega (arith, spine-lt l)

continue_assoc :
    {F S A B C : Type 0} (m : Result F S A) (k : A → Method F S B) (j : B → Method F S C)
    → continue (λ a p. continue j (k a p)) m ≡ continue j (continue k m)
continue_assoc (ok a p) k j = refl
continue_assoc (gnata.Parser.Monad.err e) k j = refl
continue_assoc gnata.Parser.Monad.out_of_fuel k j = refl

pub Edge-zero : (t : Infix) → Edge 0 t
Edge-zero (atom v) = tt
Edge-zero (parens e) = tt
Edge-zero (op o l r) = (omega arith, Edge-zero r)

module _ {F : Type 0} (slots : ℕ) (functions : Bool) (deferred : Option ParseError) where
  -- The parser at tokens.
  abbrev pub here : List (Token F) → ℕ → ℕ → Parser F (List (Token F))
  here = at slots functions deferred

  -- One round of the loop of `expression`, at an operator.
  loop-round :
      (expr : ℕ → Method F (List (Token F)) (Node F)) (n f bp g d h h' : ℕ) (left : Node F)
      (o : TokenType) (r : Infix) (k : List (Token F))
      → 0 < level o
      → ltb max_depth g ≡ false
      → leb (binding_power o) bp ≡ false
      → expr (right_level o) (here (written r k) d 0) ≡ ok (tree_of r) (here k d h')
      → led_loop list_source expr n
          (suc f)
          bp
          g
          left
          (here (plain o (spelling o) 0 ∷ written r k) d h)
        ≡ led_loop list_source expr n f bp
            (max g h' + 1)
            (leaf 0 (binary (spelling o) left (tree_of r)))
            (here k d h')
  unfolding led_loop set_height get_height led parse_binary
  loop-round expr n f bp g d h h' left o r k z c1 c2 q =
      rw
        (
          c1,
          c2,
          led_of-operator list_source expr n o left z,
          next-at slots functions deferred false (plain o (spelling o) 0) (written r k) d 0
              (written-is_readable r k),
          q,
        )
        refl

  module _ (zero_value : F) (negate : F → F) where
    nud-atom :
        (expr : ℕ → Method F (List (Token F)) (Node F)) (n d h : ℕ) (v : Bytes) (k : List (Token F))
        → is_readable k ≡ true
        → nud list_source zero_value negate expr n (here (written (atom v) k) d h)
          ≡ ok (tree_of (atom v)) (here k d h)
    unfolding nud nud_of operand
    nud-atom expr n d h v k y =
        rw (next-at slots functions deferred true (plain variable v 0) k d h y) refl

    nud-parens :
        (expr : ℕ → Method F (List (Token F)) (Node F)) (n d h' : ℕ) (e : Infix)
        (k : List (Token F))
        → is_readable k ≡ true
        → expr 0 (here (written e (plain right_paren (codes ")") 0 ∷ k)) d 0)
          ≡ ok (tree_of e) (here (plain right_paren (codes ")") 0 ∷ k) d h')
        → nud list_source zero_value negate expr n (here (written (parens e) k) d 0)
          ≡ ok (tree_of (parens e)) (here k d h')
    unfolding nud nud_of parse_paren_or_block if_at same_type type_code
    nud-parens expr n d h' e k y q =
        let closing : Token F = plain right_paren (codes ")") 0 in
        rw
          (
            next-at slots functions deferred true (plain left_paren (codes "(") 0)
                (written e (closing ∷ k)) d 0 (written-is_readable e (closing ∷ k)),
            continue,
            if_at,
            written-ne-closing e (closing ∷ k),
            q,
            next-at slots functions deferred true closing k d h' y,
          )
          refl

    -- `expression` reads the expression `t`, in a place for operators above `bp`, and stops before `k`.
    abbrev pub ReadsAs : (ℕ → Method F (List (Token F)) (Node F)) → ℕ → Type 0
    ReadsAs expr n =
        (t : Infix) (k : List (Token F)) (bp d h : ℕ)
        → size t < n
        → d + size t ≤ max_depth
        → Grouped bp t
        → Edge (binding_power (first_of k).type) t
        → binding_power (first_of k).type ≤ bp
        → is_readable k ≡ true
        → (h' : ℕ) × (h' ≤ max h (size t))
          × (expr bp (here (written t k) d h) ≡ ok (tree_of t) (here k d h'))

    -- What `expression` does once it has entered: an operand, then the loop.
    abbrev body :
        (ℕ → Method F (List (Token F)) (Node F))
        → ℕ
        → ℕ
        → ℕ
        → Method F (List (Token F)) (Node F × ℕ)
    body expr n fuel bp p =
        continue (λ left q. led_loop list_source expr n fuel bp (q.height + 1) left q)
          (nud list_source zero_value negate expr n p)

    climb :
        (expr : ℕ → Method F (List (Token F)) (Node F)) (n : ℕ)
        → ReadsAs expr n
        → (t : Infix) (k : List (Token F)) (fuel f bp d : ℕ) → fuel ≡ spine t + f
        → size t ≤ n
        → d + size t ≤ suc max_depth
        → Grouped bp t
        → Edge (binding_power (first_of k).type) t
        → is_readable k ≡ true
        → (g : ℕ) × (h' : ℕ) × (g ≤ size t)
          × (body expr n fuel bp (here (written t k) d 0)
              ≡ led_loop list_source expr n f bp g (tree_of t) (here k d h'))
    unfolding binding_power same_type type_code
    climb expr n ih (atom v) k fuel f bp d e s m gr ed y =
        let e' : fuel ≡ f = omega arith in
        (1, 0, omega arith, rw (nud-atom expr n d 0 v k y, e') refl)
    climb expr n ih (parens t) k fuel f bp d e s m gr ed y =
        let e' : fuel ≡ f = omega arith in
        let (h', b, q) =
          ih t (plain right_paren (codes ")") 0 ∷ k) 0 d 0 (omega arith) (omega arith) gr
            (Edge-zero t) (omega arith) refl in
        (h' + 1, h', omega arith, rw (nud-parens expr n d h' t k y q, e') refl)
    climb expr n ih (op o l r) k fuel f bp d e s m (z, gl, el, gr) (er, ed) y =
        let z' : 0 < level o = omega arith in
        let w = binding_power-operator o z' in
        let next_k : List (Token F) = plain o (spelling o) 0 ∷ written r k in
        let (g1, h1, b1, q1) =
          climb expr n ih l next_k fuel (suc f) bp d (omega arith) (omega arith) (omega arith) gl
            (subst (λ m. Edge m l) (sym w) el)
            (operator-is_readable o (spelling o) (written r k) z') in
        let (h2, b2, q2) = ih r k (right_level o) d 0 (omega arith) (omega arith) gr ed er y in
        let c1 : ltb max_depth g1 ≡ false = ground arith in
        let c2 : leb (binding_power o) bp ≡ false = ground (arith, w) in
        (
          max g1 h2 + 1,
          h2,
          omega arith,
          q1 ∙ loop-round expr n f bp g1 d h1 h2 (tree_of l) o r k z' c1 c2 q2,
        )

    -- The end of `expression`, with the height outside it.
    abbrev close_expression : ℕ → Node F × ℕ → Method F (List (Token F)) (Node F)
    close_expression outer (e, g) p = ok e (record p { height = max outer g; depth = p.depth - 1 })

    pub expression-ReadsAs : (n : ℕ) → ReadsAs (expression list_source zero_value negate n) n
    unfolding expression enter get_height set_height leave led_loop
    expression-ReadsAs zero t k bp d h s m gr ed b y = absurd (omega arith)
    expression-ReadsAs (suc n) t k bp d h s m gr ed b y =
        let expr = expression list_source zero_value negate n in
        let sp = spine-lt t in
        let (g, h', bg, q) =
          climb expr n (expression-ReadsAs n) t k (suc n) (suc (n - spine t)) bp (suc d)
            (omega arith) (omega arith) (omega arith) gr ed y in
        let c0 : (d == max_depth) ≡ false = ground (arith, sp) in
        let c1 : ltb max_depth g ≡ false = ground (arith, sp) in
        let c2 : leb (binding_power (first_of k).type) bp ≡ true = ground arith in
        let stop : led_loop list_source expr n (suc (n - spine t)) bp g (tree_of t)
              (here k (suc d) h')
            ≡ ok (tree_of t, g) (here k (suc d) h') =
          rw (c1, c2) refl in
        let left_depth : suc d - 1 ≡ d = omega arith in
        (
          max h g,
          omega arith,
          rw c0 (
              continue_assoc
                (nud list_source zero_value negate expr n (here (written t k) (suc d) 0))
                (λ left q. led_loop list_source expr n (suc n) bp (q.height + 1) left q)
                (close_expression h)
              ∙ ap (continue (close_expression h)) (q ∙ stop)
              ∙ ap (λ x. ok (tree_of t) (here k x (max h g))) left_depth),
        )
