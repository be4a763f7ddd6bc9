-- ===== src/Parser/Outcome.antt =====
-- What `Parse` returns.
use gnata.Base.{
  ℕ, suc, ◌≤◌, ◌<◌, ◌≡◌, refl, ◌∙◌, ap, subst, true, false, Option, none, some, Bytes, arith,
  length, inl, inr, Bool-cases,
}
use gnata.Lexer.Token.{eof}
use gnata.Ast.{Node}
use gnata.Ast.Height.{height, functions_in}
use gnata.Parser.Monad.{
  current, raise, s0201, Parser, Result, ok, err, out_of_fuel, Method, TokenSource, max_depth,
  if_at, is_at, continue, next, ParseError, syntax, advance, ◌>>=◌, ◌>>◌,
}
use gnata.Parser.Expression.{report, finish, expression, unprimed, parse_all, parse}
use gnata.Parser.Formed.{IsFormed}
use gnata.Parser.Returns.{IsEager, Returns, returned, failed, flag, ahead, Later}
use gnata.Parser.Steps.{next-Returns}
use gnata.Parser.Trees.{BuiltHere}
use gnata.Parser.Source.{lexer_source, parse_source}
use gnata.Parser.Correct.{expression-Returns}

eq_of_err : {F S A : Type 0} (d e : ParseError) → ◌≡◌ {A = Result F S A} (err d) (err e) → d ≡ e
eq_of_err d e h = cc

-- A result of `Parse`: an error, or a tree with the parser behind all tokens.
abbrev pub IsParsed : {F S : Type 0} → Result F S (Node F) → Type 0
IsParsed (err e) = Unit
IsParsed out_of_fuel = ⊥
IsParsed (ok e p) =
    (height e ≤ max_depth)
    × (functions_in e ≤ flag p.functions)
    × IsFormed e
    × (is_at eof p ≡ true)
    × (p.depth ≡ 0)
    × (p.deferred ≡ none)

module _ {F S : Type 0} where
  parsed :
      {A : Type 0} {P : A → Parser F S → Type 0} {r : Result F S A} (k : A → Method F S (Node F))
      → Returns P r
      → ((a : A) (p : Parser F S) → P a p → IsParsed (k a p))
      → IsParsed (continue k r)
  parsed k (returned {a} {p} h) f = f a p h
  parsed k (failed e) f = tt

  -- An error that is not eager comes from the rest.
  late :
      {A : Type 0} {P : A → Parser F S → Type 0} {r : Result F S A} {e : ParseError}
      (k : A → Method F S (Node F))
      → Returns P r
      → continue k r ≡ err e
      → (IsEager e → ⊥)
      → (a : A) × (p : Parser F S) × (r ≡ ok a p) × (k a p ≡ err e) × P a p
  late k (returned {a} {p} h) q n = (a, p, refl, q, h)
  late k (failed {e} h) q n = absurd (n (subst IsEager (eq_of_err _ _ q) h))

module _ {F S : Type 0} (lexer : TokenSource F S) (zero_value : F) (negate : F → F) where
  -- `expression` on a parser with its first token, with enough fuel.
  full-Returns :
      (fuel : ℕ) (p : Parser F S)
      → ahead lexer p < fuel
      → Returns
          (λ e q. Later lexer 1 p q × BuiltHere q e)
          (expression lexer zero_value negate fuel 0 p)
  full-Returns fuel p h = expression-Returns lexer zero_value negate fuel 0 p h

  finish-IsParsed :
      (e : Node F) (p : Parser F S)
      → is_at eof p ≡ true
      → p.depth ≡ 0
      → height e ≤ max_depth
      → functions_in e ≤ flag p.functions
      → IsFormed e
      → IsParsed (finish e p)
  unfolding finish
  finish-IsParsed e p a b c d f = go p.deferred refl
    where
      go : (o : Option ParseError) → p.deferred ≡ o → IsParsed (report o e p)
      go none n = (c, d, f, a, b, n)
      go (some x) n = tt

  pub parse-IsParsed :
      (fuel : ℕ) (s : S) → lexer.left s < fuel → IsParsed (parse lexer zero_value negate fuel s)
  unfolding parse parse_all if_at
  parse-IsParsed fuel s h = parsed _ (next-Returns lexer false (unprimed s)) (λ _ p (a, d, z, n).
      parsed _ (full-Returns fuel p (omega arith)) (λ e q (l, b). elim (Bool-cases (is_at eof q)) [
        | inl y ↦
            rw (y, if_at)
              (finish-IsParsed e q y (l.balanced ∙ d) (omega (arith, b.high, l.stays_below)) b.known
                b.formed)
        | inr n ↦ rw (n, if_at) tt
      ]))

  -- The error that an expression defers, reported at the end.
  abbrev pub DeferredAt : ℕ → S → ParseError → Type 0
  DeferredAt fuel s e =
      (n : Node F) × (p : Parser F S) × ((advance lexer
            >> expression lexer zero_value negate fuel 0)
          (unprimed s)
        ≡ ok n p)
      × (is_at eof p ≡ true)
      × (p.deferred ≡ some e)

  finish-err :
      (n : Node F) (p : Parser F S) (e : ParseError) → finish n p ≡ err e → p.deferred ≡ some e
  unfolding finish
  finish-err n p e h = go p.deferred h
    where
      go : (o : Option ParseError) → report o n p ≡ err e → o ≡ some e
      go none q = cc
      go (some x) q = ap some (eq_of_err x e q)

  -- The end of `Parse` behind the tree `t`.
  end-err :
      (t : Node F) (p : Parser F S) (e : ParseError)
      → if_at eof (finish t) (current >>= λ c. raise (syntax s0201 c.value)) p ≡ err e
      → (IsEager e → ⊥)
      → (is_at eof p ≡ true) × (p.deferred ≡ some e)
  unfolding if_at
  end-err t p e q n = elim (Bool-cases (is_at eof p)) [
    | inl y ↦ (y, finish-err t p e (rw (y, if_at) at q))
    | inr m ↦
        (let r : ◌≡◌ {A = Result F S (Node F)} (err (syntax s0201 p.token.value)) (err e) =
            rw (m, if_at) at q in
          absurd (n (subst IsEager (eq_of_err _ _ r) refl)))
  ]

  -- An error that is not eager was deferred: every token has been read, a tree was built, and the
  -- error is the one the parser has kept.
  pub parse-err :
      (fuel : ℕ) (s : S) (e : ParseError)
      → lexer.left s < fuel
      → parse lexer zero_value negate fuel s ≡ err e
      → (IsEager e → ⊥)
      → DeferredAt fuel s e
  unfolding parse parse_all
  parse-err fuel s e h q n = go (late _ (next-Returns lexer false (unprimed s)) q n)
    where
      go :
          (a : Unit) × (p : Parser F S) × (next lexer false (unprimed s) ≡ ok a p)
            × (parse_all lexer zero_value negate fuel p ≡ err e)
            × ((ahead lexer p ≤ lexer.left s)
                × (p.depth ≡ 0)
                × (p.height ≡ 0)
                × (p.deferred ≡ none))
          → DeferredAt fuel s e
      go (a, p, r, q1, (l, d, z, u)) =
          let (t, p2, r2, q2, _) = late _ (full-Returns fuel p (omega arith)) q1 n in
          let (y, k) = end-err t p2 e q2 n in
          (t, p2, ap (continue (λ _. expression lexer zero_value negate fuel 0)) r ∙ r2, y, k)

-- `Parse` returns on every source, with an error or with a tree no higher than `MaxDepth`, formed as
-- the grammar allows, behind the last token and with no error deferred; where the tree has a lambda
-- or a transform the parser has noted it.
pub parse_source-IsParsed :
    {F : Type 0} (parse_float : Bytes → Option F) (src : Bytes) (zero_value : F) (negate : F → F)
    → IsParsed (parse_source parse_float src zero_value negate)
unfolding parse_source
parse_source-IsParsed parse_float src zero_value negate =
    parse-IsParsed (lexer_source parse_float src) zero_value negate (suc (length src)) 0
      (omega arith)
