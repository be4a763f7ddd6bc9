-- ===== src/Parser/Monad.antt =====
-- The state of the parser, its errors and the methods that read tokens. A method is a function
-- from a parser to a result; a parser that returned an error is not used again, so an error comes
-- without one. `out_of_fuel` belongs to the model only.
use gnata.Base.{
  ℕ, suc, ◌<◌, Bool, true, false, not, ◌&&◌, ◌||◌, Option, none, some, Bytes, codes, if◌then◌else◌,
  ◌≡◌, ◌≢◌,
}
use gnata.Lexer.Token.{TokenType, eof, bang, tilde, Token, LexError, Outcome, token, fail}
use gnata.Signature.{SigError}
use gnata.Parser.Tokens.{same_type}

-- The codes that `parseError` is called with.
pub data Code : Type 0 where
  s0201 s0202 s0203 s0204 s0207 s0208 s0209 s0210 s0211 s0212 s0214 s0215 s0216 s0218 : Code

-- An error of the parser with the token it is reported at, or one that it passes on.
pub data ParseError : Type 0 where
  syntax : Code → Bytes → ParseError
  lexical : LexError → ParseError
  bad_signature : SigError → ParseError

-- `endError`
abbrev pub end_error : ParseError
end_error = syntax s0203 (codes "EOF")

-- What the parser uses of a lexer: `Next` with the state that it leaves, where a token that is not
-- the last brings the end of the source nearer.
pub record TokenSource (F S : Type 0) : Type 0 where
  pub read : Bool → S → Outcome F × S
  pub left : S → ℕ
  pub left-read :
      (infix_position : Bool) (s : S) (t : Token F)
      → (read infix_position s).0 ≡ token t
      → t.type ≢ eof
      → left ((read infix_position s).1) < left s
  pub read-ne-fuel :
      (infix_position : Bool) (s : S) → (read infix_position s).0 ≢ fail LexError.out_of_fuel

-- `Parser`; the slots are a number, as the Nth `%` makes the slot with the label `!N`.
pub record Parser (F S : Type 0) : Type 0 where
  pub lex : S
  pub token : Token F
  pub slots : ℕ
  pub depth : ℕ
  pub height : ℕ
  pub functions : Bool
  pub deferred : Option ParseError

pub data Result (F S A : Type 0) : Type 0 where
  ok : A → Parser F S → Result F S A
  err : ParseError → Result F S A
  out_of_fuel : Result F S A

abbrev pub Method : Type 0 → Type 0 → Type 0 → Type 0
Method F S A = Parser F S → Result F S A

-- `MaxDepth`
unfoldable pub max_depth : ℕ
max_depth = 10000

-- The first deferred error wins.
abbrev pub first_error : ParseError → Option ParseError → Option ParseError
first_error e none = some e
first_error e (some d) = some d

module _ {F S : Type 0} where
  abbrev pub pure : {A : Type 0} → A → Method F S A
  pure a p = ok a p

  abbrev pub raise : {A : Type 0} → ParseError → Method F S A
  raise e p = err e

  abbrev pub exhausted : {A : Type 0} → Method F S A
  exhausted p = out_of_fuel

  -- The rest of a method behind a call: `if err != nil { return nil, err }`.
  abbrev pub continue : {A B : Type 0} → (A → Method F S B) → Result F S A → Result F S B
  continue k (ok a p) = k a p
  continue k (err e) = err e
  continue k out_of_fuel = out_of_fuel

  infixl 5 ◌>>=◌ ◌>>◌
  abbrev pub ◌>>=◌ : {A B : Type 0} → Method F S A → (A → Method F S B) → Method F S B
  ◌>>=◌ m k p = continue k (m p)

  abbrev pub ◌>>◌ : {A B : Type 0} → Method F S A → Method F S B → Method F S B
  ◌>>◌ m k p = continue (λ a. k) (m p)

  -- `p.token`
  abbrev pub current : Method F S (Token F)
  current p = ok p.token p

  -- `p.token.Type == tt`
  abbrev pub is_at : TokenType → Parser F S → Bool
  is_at t p = same_type (p.token.type) t

  -- `if p.token.Type == tt { … } else { … }`
  unfoldable pub if_at : {A : Type 0} → TokenType → Method F S A → Method F S A → Method F S A
  if_at t m k p = elim (is_at t p) [ true ↦ m p | false ↦ k p ]

  -- `if c { … } else { … }`
  abbrev pub choose : {A : Type 0} → Bool → Method F S A → Method F S A → Method F S A
  choose true m k = m
  choose false m k = k

  -- `deferError`
  unfoldable pub defer_error : ParseError → Method F S Unit
  defer_error e p = ok tt (record p { deferred = first_error e p.deferred })

  -- `p.functions = true`
  unfoldable pub mark_functions : Method F S Unit
  mark_functions p = ok tt (record p { functions = true })

  -- `p.slots = append(p.slots, slot)`, with the number of the slot
  unfoldable pub new_slot : Method F S ℕ
  new_slot p = ok p.slots (record p { slots = suc p.slots })

  -- `expect`
  unfoldable pub expect : TokenType → Method F S Unit
  expect t p =
      if is_at eof p && not (same_type t eof)
      then err end_error
      else if is_at t p
      then ok tt p
      else err (syntax s0202 p.token.value)

  unfoldable pub set_token : S → Token F → Method F S Unit
  set_token s t p =
      if same_type t.type bang || same_type t.type tilde
      then err (syntax s0204 t.value)
      else ok tt (record p { lex = s; token = t })

  module _ (lexer : TokenSource F S) where
    -- `next`
    unfoldable pub next : Bool → Method F S Unit
    next infix_position p =
        let (o, s) = lexer.read infix_position p.lex in
        elim o [ token t ↦ set_token s t p | fail e ↦ err (lexical e) ]

    -- `advance`
    abbrev pub advance : Method F S Unit
    advance = next false

    -- `advanceInfix`
    abbrev pub advance_infix : Method F S Unit
    advance_infix = next true

    -- `consume`
    abbrev pub consume : TokenType → Method F S Unit
    consume t = expect t >> advance

    -- `consumeInfix`
    abbrev pub consume_infix : TokenType → Method F S Unit
    consume_infix t = expect t >> advance_infix
