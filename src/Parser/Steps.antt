-- ===== src/Parser/Steps.antt =====
-- What reading a token, requiring one and a list of items do to the parser.
use gnata.Base.{
  suc, ◌-◌, ◌≤◌, ◌<◌, ◌≡◌, ◌≢◌, refl, ap, subst, Bool, true, false, not, ◌&&◌, ◌||◌, arith, inl,
  inr, Bool-cases,
}
use gnata.Lexer.Token.{
  TokenType, eof, Token, LexError, Outcome, token, fail, out_of_fuel, bang, tilde,
}
use gnata.Parser.Tokens.{type_code, same_type}
use gnata.Parser.Monad.{
  ParseError, lexical, Parser, err, TokenSource, is_at, next, expect, consume, consume_infix,
  set_token, first_error, defer_error,
}
use gnata.Parser.Returns.{
  IsEager, Returns, returned, failed, bind, weaken, ahead_of, ahead, Later, later, unread, behind,
}

abbrev pub is_eof : TokenType → Bool
is_eof eof = true
is_eof _ = false

same_type-is_eof : (t : TokenType) → is_eof t ≡ false → same_type t eof ≡ false
unfolding same_type type_code
same_type-is_eof eof h = cc
same_type-is_eof _ h = refl

pub eq_of_same_type-eof : (t : TokenType) → same_type t eof ≡ true → t ≡ eof
unfolding same_type type_code
eq_of_same_type-eof eof h = refl
eq_of_same_type-eof _ h = cc

lexical-IsEager : (e : LexError) → e ≢ out_of_fuel → IsEager (lexical e)
lexical-IsEager out_of_fuel n = absurd (n refl)
lexical-IsEager _ n = tt

ne_of_same_type : (t : TokenType) → same_type t eof ≡ false → t ≢ eof
unfolding same_type type_code
ne_of_same_type t h e = cc (rw e at h)

module _ {F S : Type 0} where
  -- A token of another type than the end.
  pub ne_eof-is_at :
      (t : TokenType) (p : Parser F S) → is_eof t ≡ false → is_at t p ≡ true → is_at eof p ≡ false
  unfolding same_type type_code
  ne_eof-is_at t p h e = ground (arith, same_type-is_eof t h)

module _ {F S : Type 0} (lexer : TokenSource F S) where
  pub ahead-pos : (p : Parser F S) → is_at eof p ≡ false → 1 ≤ ahead lexer p
  unfolding ahead_of
  ahead-pos p h = rw (h, ahead_of) (omega arith)

  pub ahead-at_end : (p : Parser F S) → is_at eof p ≡ true → ahead lexer p ≤ 0
  unfolding ahead_of
  ahead-at_end p h = rw (h, ahead_of) (omega arith)

  -- At a token of another type than the end there is one to read.
  pub ahead-is_at :
      (t : TokenType) (p : Parser F S) → is_eof t ≡ false → is_at t p ≡ true → 1 ≤ ahead lexer p
  ahead-is_at t p h e = ahead-pos p (ne_eof-is_at t p h e)

  -- Reading on from a token that is not the last.
  ahead_of-read :
      (t u : TokenType) (s r : S)
      → 1 ≤ ahead_of lexer t s
      → (u ≢ eof → lexer.left r < lexer.left s)
      → ahead_of lexer u r ≤ ahead_of lexer t s - 1
  unfolding ahead_of
  ahead_of-read t u s r h l = elim (Bool-cases (same_type t eof)) [
    | inl z ↦
        absurd (elim (subst (λ b. 1 ≤ elim b [ true ↦ 0 | false ↦ suc (lexer.left s) ]) z h) [ ])
    | inr z ↦ elim (Bool-cases (same_type u eof)) [
      | inl e ↦ rw (z, e, ahead_of) (omega arith)
      | inr e ↦ rw (z, e, ahead_of) (omega (arith, l (λ q. ne_of_same_type u e q)))
    ]
  ]

  set_token-Later :
      (s : S) (t : Token F) (p : Parser F S)
      → 1 ≤ ahead lexer p
      → (t.type ≢ eof → lexer.left s < lexer.left p.lex)
      → Returns (λ _ q. Later lexer 1 p q) (set_token s t p)
  unfolding set_token
  set_token-Later s t p h l = elim (Bool-cases (same_type t.type bang || same_type t.type tilde)) [
    | inl e ↦ rw e (failed refl)
    | inr e ↦ rw e (
        returned (
          later (ahead_of-read p.token.type t.type p.lex s h l) refl (omega arith) (omega arith)
            (omega arith) (λ d e. e)))
  ]

  -- `next` from a token that is not the last
  pub next-Later :
      (b : Bool) (p : Parser F S)
      → 1 ≤ ahead lexer p
      → Returns (λ _ q. Later lexer 1 p q) (next lexer b p)
  unfolding next
  next-Later b p h =
      go (lexer.read b p.lex).0 (lexer.left-read b p.lex) (lexer.read-ne-fuel b p.lex)
    where
      go :
          (o : Outcome F)
          → ((t : Token F)
              → o ≡ token t
              → t.type ≢ eof
              → lexer.left ((lexer.read b p.lex).1) < lexer.left p.lex)
          → o ≢ fail out_of_fuel
          → Returns
              (λ _ q. Later lexer 1 p q)
              (elim o [
                | token t ↦ set_token ((lexer.read b p.lex).1) t p
                | fail e ↦ err (lexical e)
              ])
      go (token t) l n = set_token-Later ((lexer.read b p.lex).1) t p h (l t refl)
      go (fail e) l n = failed (lexical-IsEager e (λ q. n (ap fail q)))

  ahead_of-first :
      (u : TokenType) (s r : S)
      → (u ≢ eof → lexer.left r < lexer.left s)
      → ahead_of lexer u r ≤ lexer.left s
  unfolding ahead_of
  ahead_of-first u s r l = elim (Bool-cases (same_type u eof)) [
    | inl e ↦ rw (e, ahead_of) (omega arith)
    | inr e ↦ rw (e, ahead_of) (omega (arith, l (λ q. ne_of_same_type u e q)))
  ]

  -- `next` at any token, the zero token included
  pub next-Returns :
      (b : Bool) (p : Parser F S)
      → Returns
          (λ _ q.
            (ahead lexer q ≤ lexer.left p.lex)
            × (q.depth ≡ p.depth)
            × (q.height ≡ p.height)
            × (q.deferred ≡ p.deferred))
          (next lexer b p)
  unfolding next set_token
  next-Returns b p =
      go (lexer.read b p.lex).0 (lexer.left-read b p.lex) (lexer.read-ne-fuel b p.lex)
    where
      go :
          (o : Outcome F)
          → ((t : Token F)
              → o ≡ token t
              → t.type ≢ eof
              → lexer.left ((lexer.read b p.lex).1) < lexer.left p.lex)
          → o ≢ fail out_of_fuel
          → Returns
              (λ _ q.
                (ahead lexer q ≤ lexer.left p.lex)
                × (q.depth ≡ p.depth)
                × (q.height ≡ p.height)
                × (q.deferred ≡ p.deferred))
              (elim o [
                | token t ↦ set_token ((lexer.read b p.lex).1) t p
                | fail e ↦ err (lexical e)
              ])
      go (token t) l n = elim (Bool-cases (same_type t.type bang || same_type t.type tilde)) [
        | inl e ↦ rw e (failed refl)
        | inr e ↦ rw e (returned (ahead_of-first t.type p.lex _ (l t refl), refl, refl, refl))
      ]
      go (fail e) l n = failed (lexical-IsEager e (λ q. n (ap fail q)))

  -- `expect`, which leaves the parser as it is
  pub expect-Returns :
      (t : TokenType) (p : Parser F S)
      → Returns (λ _ q. Later lexer 0 p q × (is_at t q ≡ true)) (expect t p)
  unfolding expect
  expect-Returns t p = elim (Bool-cases (is_at eof p && not (same_type t eof))) [
    | inl e ↦ rw e (failed refl)
    | inr e ↦ elim (Bool-cases (is_at t p)) [
      | inl y ↦ rw (e, y) (returned (unread, y))
      | inr n ↦ rw (e, n) (failed refl)
    ]
  ]

  pub consume-Later :
      (t : TokenType) (p : Parser F S)
      → is_eof t ≡ false
      → Returns (λ _ q. Later lexer 1 p q) (consume lexer t p)
  consume-Later t p h =
      bind _ (expect-Returns t p)
        (λ _ q (l, y). weaken (next-Later false q (ahead-is_at t q h y)) (λ _ r k. behind l k))

  pub consume_infix-Later :
      (t : TokenType) (p : Parser F S)
      → is_eof t ≡ false
      → Returns (λ _ q. Later lexer 1 p q) (consume_infix lexer t p)
  consume_infix-Later t p h =
      bind _ (expect-Returns t p)
        (λ _ q (l, y). weaken (next-Later true q (ahead-is_at t q h y)) (λ _ r k. behind l k))

  pub defer_error-Later :
      (e : ParseError) (p : Parser F S) → Returns (λ _ q. Later lexer 0 p q) (defer_error e p)
  unfolding defer_error
  defer_error-Later e p = returned (
      later (omega arith) refl (omega arith) (omega arith) (omega arith)
        (λ d q. ap (first_error e) q))
