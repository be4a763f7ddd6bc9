-- ===== src/Parser/Returns.antt =====
-- What holds of every result of a method, with rules for the ways methods are composed.
use gnata.Base.{
  ℕ, suc, ◌-◌, ◌≤◌, max, ◌≡◌, refl, ◌∙◌, Bool, true, false, some, arith, inl, inr, Bool-cases,
}
use gnata.Lexer.Token.{TokenType, eof, out_of_fuel}
use gnata.Ast.{Node}
use gnata.Ast.Height.{height, functions_in}
use gnata.Parser.Tokens.{same_type}
use gnata.Parser.Monad.{
  Code, s0207, s0209, s0210, s0215, s0216, ParseError, syntax, lexical, bad_signature, Parser,
  Result, ok, err, Method, TokenSource, max_depth, if_at, choose, is_at, continue,
}
use gnata.Parser.Formed.{IsFormed}

abbrev pub is_deferred_code : Code → Bool
is_deferred_code s0207 = true
is_deferred_code s0209 = true
is_deferred_code s0210 = true
is_deferred_code s0215 = true
is_deferred_code s0216 = true
is_deferred_code _ = false

-- An error that ends parsing at once.
abbrev pub IsEager : ParseError → Type 0
IsEager (syntax c v) = is_deferred_code c ≡ false
IsEager (lexical out_of_fuel) = ⊥
IsEager (lexical _) = Unit
IsEager (bad_signature e) = Unit

-- The result is an error that is not deferred, or a value and a parser with `Q`.
pub data Returns {F S A : Type 0} (Q : A → Parser F S → Type 0) : Result F S A → Type 0 where
  returned : {a : A} {p : Parser F S} → Q a p → Returns Q (ok a p)
  failed : {e : ParseError} → IsEager e → Returns Q (err e)

abbrev pub flag : Bool → ℕ
flag true = 1
flag false = 0

pub flag-le : (b : Bool) → flag b ≤ 1
flag-le true = omega arith
flag-le false = omega arith

module _ {F S : Type 0} where
  pub bind :
      {A B : Type 0} {r : Result F S A} {P : A → Parser F S → Type 0} {Q : B → Parser F S → Type 0}
      (k : A → Method F S B)
      → Returns P r
      → ((a : A) (p : Parser F S) → P a p → Returns Q (k a p))
      → Returns Q (continue k r)
  bind k (returned {a} {p} h) next_h = next_h a p h
  bind k (failed e) next_h = failed e

  pub branch :
      {A : Type 0} {Q : A → Parser F S → Type 0} (t : TokenType) (m k : Method F S A)
      (p : Parser F S)
      → (is_at t p ≡ true → Returns Q (m p))
      → (is_at t p ≡ false → Returns Q (k p))
      → Returns Q (if_at t m k p)
  unfolding if_at
  branch t m k p y n = elim (Bool-cases (is_at t p)) [
    | inl e ↦ rw (e, if_at) (y e)
    | inr e ↦ rw (e, if_at) (n e)
  ]

  pub choice :
      {A : Type 0}
      → {Q : A → Parser F S → Type 0} (b : Bool) (m k : Method F S A) (p : Parser F S)
      → (b ≡ true → Returns Q (m p))
      → (b ≡ false → Returns Q (k p))
      → Returns Q (choose b m k p)
  choice true m k p y n = y refl
  choice false m k p y n = n refl

  pub weaken :
      {A : Type 0} {r : Result F S A} {P Q : A → Parser F S → Type 0}
      → Returns P r
      → ((a : A) (p : Parser F S) → P a p → Q a p)
      → Returns Q r
  weaken (returned {a} {p} h) f = returned (f a p h)
  weaken (failed e) f = failed e

module _ {F S : Type 0} (lexer : TokenSource F S) where
  -- How many tokens may still be read, the current one included.
  unfoldable pub ahead_of : TokenType → S → ℕ
  ahead_of t s = elim (same_type t eof) [ true ↦ 0 | false ↦ suc (lexer.left s) ]

  abbrev pub ahead : Parser F S → ℕ
  ahead p = ahead_of p.token.type p.lex

-- From `p` to `q` at least `d` tokens are read, if that many are left, calls are balanced, no function
-- that was parsed is forgotten, the height grows, within the maximum, and a deferred error is kept.
pub record Later {F S : Type 0} (lexer : TokenSource F S) (d : ℕ) (p q : Parser F S) : Type 0 where
  pub reads : ahead lexer q ≤ ahead lexer p - d
  pub balanced : q.depth ≡ p.depth
  pub flags : flag p.functions ≤ flag q.functions
  pub grows : p.height ≤ q.height
  pub stays_below : q.height ≤ max p.height max_depth
  pub keeps_error : (d : ParseError) → p.deferred ≡ some d → q.deferred ≡ some d

module _ {F S : Type 0} {lexer : TokenSource F S} {p : Parser F S} where
  pub later :
      {d : ℕ} {q : Parser F S}
      → ahead lexer q ≤ ahead lexer p - d
      → q.depth ≡ p.depth
      → flag p.functions ≤ flag q.functions
      → p.height ≤ q.height
      → q.height ≤ max p.height max_depth
      → ((d : ParseError) → p.deferred ≡ some d → q.deferred ≡ some d)
      → Later lexer d p q
  later a b c e f g = record {
    reads = a;
    balanced = b;
    flags = c;
    grows = e;
    stays_below = f;
    keeps_error = g;
  }

  pub unread : Later lexer 0 p p
  unread = later (omega arith) refl (omega arith) (omega arith) (omega arith) (λ d e. e)

  pub relax : {q : Parser F S} → Later lexer 1 p q → Later lexer 0 p q
  relax l = later (omega (arith, l.reads)) l.balanced l.flags l.grows l.stays_below l.keeps_error

  -- Reading on.
  pub join : {d : ℕ} {q r : Parser F S} → Later lexer d p q → Later lexer 0 q r → Later lexer d p r
  join l k =
      later (omega (arith, l.reads, k.reads)) (k.balanced ∙ l.balanced)
        (omega (arith, l.flags, k.flags)) (omega (arith, l.grows, k.grows))
        (omega (arith, l.stays_below, k.stays_below)) (λ d e. k.keeps_error d (l.keeps_error d e))

  pub behind :
      {d : ℕ} {q r : Parser F S} → Later lexer 0 p q → Later lexer d q r → Later lexer d p r
  behind l k =
      later (omega (arith, l.reads, k.reads)) (k.balanced ∙ l.balanced)
        (omega (arith, l.flags, k.flags)) (omega (arith, l.grows, k.grows))
        (omega (arith, l.stays_below, k.stays_below)) (λ d e. k.keeps_error d (l.keeps_error d e))

-- A tree of a bounded height that the parser knows the functions of.
pub record Built {F S : Type 0} (h : ℕ) (p : Parser F S) (e : Node F) : Type 0 where
  pub high : height e ≤ h
  pub known : functions_in e ≤ flag p.functions
  pub formed : IsFormed e

module _ {F S : Type 0} {h : ℕ} {p : Parser F S} {e : Node F} where
  pub built : height e ≤ h → functions_in e ≤ flag p.functions → IsFormed e → Built h p e
  built a b c = record { high = a; known = b; formed = c }
