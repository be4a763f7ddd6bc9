-- ===== src/Parser/Expression.antt =====
-- `expression`, `NewParser` and `Parse`.
use gnata.Base.{ℕ, zero, suc, ◌+◌, ◌-◌, max, false, Option, none, some, [], ltb, leb, ◌==◌}
use gnata.Lexer.Token.{eof, plain}
use gnata.Ast.{Node}
use gnata.Parser.Tokens.{binding_power}
use gnata.Parser.Monad.{
  Parser, Method, Result, TokenSource, ParseError, syntax, s0201, s0218, max_depth, pure, raise,
  exhausted, ◌>>=◌, ◌>>◌, current, if_at, choose, advance,
}
use gnata.Parser.Monad
use gnata.Parser.Parts.{nud}
use gnata.Parser.Infix.{led}

module _ {F S : Type 0} where
  -- `depthError`
  unfoldable pub depth_error : {A : Type 0} → Method F S A
  depth_error = current >>= λ t. raise (syntax s0218 t.value)

  -- `p.height`, and setting it
  unfoldable pub get_height : Method F S ℕ
  get_height p = Monad.ok p.height p

  unfoldable pub set_height : ℕ → Method F S Unit
  set_height h p = Monad.ok tt (record p { height = h })

  abbrev pub deepen : ℕ → Method F S Unit
  deepen d p = Monad.ok tt (record p { depth = d })

  -- `p.depth++`, unless the depth is the maximum
  unfoldable pub enter : Method F S Unit
  enter p = choose (p.depth == max_depth) depth_error (deepen (suc p.depth)) p

  -- The end of `Parse`, which reports the deferred error.
  abbrev pub report : Option ParseError → Node F → Method F S (Node F)
  report none n = pure n
  report (some e) n = raise e

  unfoldable pub finish : Node F → Method F S (Node F)
  finish n p = report p.deferred n p

  -- `p.depth--`
  unfoldable pub leave : Method F S Unit
  leave p = Monad.ok tt (record p { depth = p.depth - 1 })

  -- A parser before its first token.
  abbrev pub unprimed : S → Parser F S
  unprimed s = record {
    lex = s;
    token = plain eof [] 0;
    slots = 0;
    depth = 0;
    height = 0;
    functions = false;
    deferred = none;
  }

module _ {F S : Type 0} (lexer : TokenSource F S) where
  -- The loop of `expression`, with the height so far.
  unfoldable pub led_loop :
      (ℕ → Method F S (Node F)) → ℕ → ℕ → ℕ → ℕ → Node F → Method F S (Node F × ℕ)
  led_loop expr n zero bp height left = exhausted
  led_loop expr n (suc fuel) bp height left =
      let rest = led_loop expr n fuel bp in
      choose (ltb max_depth height) depth_error (do
        t ← current
        choose (leb (binding_power t.type) bp) (pure (left, height)) (do
          set_height 0
          left' ← led lexer expr n left
          h ← get_height
          rest (max height h + 1) left'))

module _ {F S : Type 0} (lexer : TokenSource F S) (zero_value : F) (negate : F → F) where
  -- `expression`. The fuel bounds the nesting and the rounds of each loop.
  unfoldable pub expression : ℕ → ℕ → Method F S (Node F)
  expression zero bp = exhausted
  expression (suc n) bp =
      let expr = expression n in
      (do
        enter
        outer ← get_height
        set_height 0
        left ← nud lexer zero_value negate expr n
        h ← get_height
        (left', height) ← led_loop lexer expr n (suc n) bp (h + 1) left
        set_height (max outer height)
        leave
        pure left')

  -- `Parse` behind the first token.
  unfoldable pub parse_all : ℕ → Method F S (Node F)
  parse_all fuel = do
    node ← expression fuel 0
    if_at eof (finish node) (current >>= λ t. raise (syntax s0201 t.value))

  -- `Parse` on a new parser.
  unfoldable pub parse : ℕ → S → Result F S (Node F)
  parse fuel s = (advance lexer >> parse_all fuel) (unprimed s)
