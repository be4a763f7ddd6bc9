-- ===== src/Parser/Precedence/Reading.antt =====
-- A list of tokens as what the parser reads from, and how it reads.
use gnata.Base.{
  ℕ, ◌<◌, ◌≡◌, ◌≢◌, refl, ap, sym, Bool, true, false, not, ◌||◌, List, [], ◌∷◌, Option, Bytes,
  arith, length,
}
use gnata.Lexer.Token.{
  TokenType, Token, eof, bang, tilde, plain, token, fail, out_of_fuel, dot_dot, elvis, coalesce,
  or_word, and_word, in_word, equals, not_equal, less_than, less_equal, greater_than, greater_equal,
  chain, plus, minus, ampersand, star, slash, percent, star_star, dot,
}
use gnata.Ast.{Node}
use gnata.Parser.Tokens.{type_code, same_type, binding_power, right_operator, left_operator}
use gnata.Parser.Monad.{Parser, Method, ok, TokenSource, ParseError, next, set_token}
use gnata.Parser.Infix.{parse_binary, led_operator, led_of}
use gnata.Parser.Precedence.{
  Infix, atom, parens, op, level, groups_right, spelling, right_level, written,
}

abbrev pub end_token : {F : Type 0} → Token F
end_token = plain eof [] 0

abbrev pub first_of : {F : Type 0} → List (Token F) → Token F
first_of [] = end_token
first_of (t ∷ ts) = t

abbrev pub rest_of : {F : Type 0} → List (Token F) → List (Token F)
rest_of [] = []
rest_of (t ∷ ts) = ts

module _ {F : Type 0} where
  eq_of_token : (t u : Token F) → token t ≡ token u → t ≡ u
  eq_of_token t u h = cc

  pub nearer :
      (ts : List (Token F)) (t : Token F)
      → token (first_of ts) ≡ token t
      → t.type ≢ eof
      → length (rest_of ts) < length ts
  nearer [] t h n = absurd (n (ap (λ (x : Token F). x.type) (sym (eq_of_token end_token t h))))
  nearer (u ∷ ts) t h n = omega arith

  pub never_out : (ts : List (Token F)) → token (first_of ts) ≢ fail out_of_fuel
  never_out ts h = cc

abbrev pub list_source : {F : Type 0} → TokenSource F (List (Token F))
list_source = record {
  read = λ b ts. (token (first_of ts), rest_of ts);
  left = length;
  left-read = λ b. nearer;
  read-ne-fuel = λ b. never_out;
}

-- A token that does not stop the parser at once.
abbrev pub is_readable : {F : Type 0} → List (Token F) → Bool
is_readable ts = not (same_type (first_of ts).type bang || same_type (first_of ts).type tilde)

module _ {F : Type 0} (slots : ℕ) (functions : Bool) (deferred : Option ParseError) where
  -- The parser at the tokens `ts`.
  abbrev pub at : List (Token F) → ℕ → ℕ → Parser F (List (Token F))
  at ts depth height = record {
    lex = rest_of ts;
    token = first_of ts;
    slots = slots;
    depth = depth;
    height = height;
    functions = functions;
    deferred = deferred;
  }

  pub next-at :
      (b : Bool) (t : Token F) (ts : List (Token F)) (depth height : ℕ)
      → is_readable ts ≡ true
      → next list_source b (at (t ∷ ts) depth height) ≡ ok tt (at ts depth height)
  unfolding next set_token
  next-at b t ts depth height h =
      let e : (same_type (first_of ts).type bang || same_type (first_of ts).type tilde) ≡ false =
        ground arith in
      rw e refl

pub operator-is_readable :
    {F : Type 0} (o : TokenType) (text : Bytes) (ts : List (Token F))
    → 0 < level o
    → is_readable (plain o text 0 ∷ ts) ≡ true
unfolding same_type type_code level
operator-is_readable bang text ts h = elim h [ ]
operator-is_readable tilde text ts h = elim h [ ]
operator-is_readable _ text ts h = refl

pub written-is_readable :
    {F : Type 0} (t : Infix) (k : List (Token F)) → is_readable (written t k) ≡ true
unfolding same_type type_code
written-is_readable (atom v) k = refl
written-is_readable (parens e) k = refl
written-is_readable (op o l r) k = written-is_readable l (plain o (spelling o) 0 ∷ written r k)

-- `led` and the binding powers read an operator as its level and direction say.
module _ {F S : Type 0} (lexer : TokenSource F S) (expr : ℕ → Method F S (Node F)) (n : ℕ) where
  pub led_of-operator :
      (o : TokenType) (left : Node F)
      → 0 < level o
      → led_of lexer expr n o (plain o (spelling o) 0) left
        ≡ parse_binary lexer expr (right_level o) (spelling o) 0 left
  unfolding level groups_right spelling led_of led_operator binding_power right_operator
      left_operator
  led_of-operator dot_dot left h = refl
  led_of-operator elvis left h = refl
  led_of-operator coalesce left h = refl
  led_of-operator or_word left h = refl
  led_of-operator and_word left h = refl
  led_of-operator in_word left h = refl
  led_of-operator equals left h = refl
  led_of-operator not_equal left h = refl
  led_of-operator less_than left h = refl
  led_of-operator less_equal left h = refl
  led_of-operator greater_than left h = refl
  led_of-operator greater_equal left h = refl
  led_of-operator chain left h = refl
  led_of-operator plus left h = refl
  led_of-operator minus left h = refl
  led_of-operator ampersand left h = refl
  led_of-operator star left h = refl
  led_of-operator slash left h = refl
  led_of-operator percent left h = refl
  led_of-operator star_star left h = refl
  led_of-operator dot left h = refl
  led_of-operator _ left h = elim h [ ]

pub binding_power-operator : (o : TokenType) → 0 < level o → binding_power o ≡ level o
unfolding level binding_power
binding_power-operator dot_dot h = refl
binding_power-operator elvis h = refl
binding_power-operator coalesce h = refl
binding_power-operator or_word h = refl
binding_power-operator and_word h = refl
binding_power-operator in_word h = refl
binding_power-operator equals h = refl
binding_power-operator not_equal h = refl
binding_power-operator less_than h = refl
binding_power-operator less_equal h = refl
binding_power-operator greater_than h = refl
binding_power-operator greater_equal h = refl
binding_power-operator chain h = refl
binding_power-operator plus h = refl
binding_power-operator minus h = refl
binding_power-operator ampersand h = refl
binding_power-operator star h = refl
binding_power-operator slash h = refl
binding_power-operator percent h = refl
binding_power-operator star_star h = refl
binding_power-operator dot h = refl
binding_power-operator _ h = elim h [ ]
