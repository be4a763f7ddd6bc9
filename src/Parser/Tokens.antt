-- ===== src/Parser/Tokens.antt =====
-- The types of tokens, internal/lexer/token.go, as numbers, and `bindingPower` of
-- internal/parser/parser.go.
use gnata.Base.{ℕ, Bool, ◌==◌, Bytes, codes, Option, none, some}
use gnata.Lexer.Token.{
  TokenType, eof, name, variable, string, number, value, regex, dot, left_bracket, right_bracket,
  left_brace, right_brace, left_paren, right_paren, comma, at_sign, hash, semicolon, colon,
  question, plus, minus, star, slash, percent, pipe, equals, less_than, greater_than, caret,
  ampersand, bang, tilde, star_star, dot_dot, assign, not_equal, less_equal, greater_equal, chain,
  elvis, coalesce, and_word, or_word, in_word,
}

-- The value of a constant of `TokenType`.
unfoldable pub type_code : TokenType → ℕ
type_code eof = 0
type_code name = 1
type_code variable = 2
type_code string = 3
type_code number = 4
type_code value = 5
type_code regex = 6
type_code dot = 7
type_code left_bracket = 8
type_code right_bracket = 9
type_code left_brace = 10
type_code right_brace = 11
type_code left_paren = 12
type_code right_paren = 13
type_code comma = 14
type_code at_sign = 15
type_code hash = 16
type_code semicolon = 17
type_code colon = 18
type_code question = 19
type_code plus = 20
type_code minus = 21
type_code star = 22
type_code slash = 23
type_code percent = 24
type_code pipe = 25
type_code equals = 26
type_code less_than = 27
type_code greater_than = 28
type_code caret = 29
type_code ampersand = 30
type_code bang = 31
type_code tilde = 32
type_code star_star = 33
type_code dot_dot = 34
type_code assign = 35
type_code not_equal = 36
type_code less_equal = 37
type_code greater_equal = 38
type_code chain = 39
type_code elvis = 40
type_code coalesce = 41
type_code and_word = 42
type_code or_word = 43
type_code in_word = 44

unfoldable pub same_type : TokenType → TokenType → Bool
same_type t u = type_code t == type_code u

-- `bindingPower`
unfoldable pub binding_power : TokenType → ℕ
binding_power left_paren = 80
binding_power left_bracket = 80
binding_power at_sign = 75
binding_power hash = 75
binding_power dot = 75
binding_power semicolon = 0
binding_power colon = 0
binding_power star_star = 60
binding_power star = 60
binding_power slash = 60
binding_power percent = 60
binding_power plus = 50
binding_power minus = 50
binding_power ampersand = 50
binding_power not_equal = 40
binding_power less_equal = 40
binding_power greater_equal = 40
binding_power equals = 40
binding_power less_than = 40
binding_power greater_than = 40
binding_power in_word = 40
binding_power and_word = 30
binding_power or_word = 25
binding_power dot_dot = 20
binding_power question = 20
binding_power elvis = 20
binding_power coalesce = 20
binding_power chain = 45
binding_power assign = 10
binding_power left_brace = 70
binding_power caret = 40
binding_power _ = 0

-- The infix operators of `led` whose right operand is parsed with `bp - 1`, and their nodes' value.
unfoldable pub right_operator : TokenType → Option Bytes
right_operator chain = some (codes "~>")
right_operator elvis = some (codes "?:")
right_operator coalesce = some (codes "??")
right_operator dot_dot = some (codes "..")
right_operator _ = none

-- Those whose right operand is parsed with `bp`.
unfoldable pub left_operator : TokenType → Option Bytes
left_operator and_word = some (codes "and")
left_operator or_word = some (codes "or")
left_operator in_word = some (codes "in")
left_operator equals = some (codes "=")
left_operator not_equal = some (codes "!=")
left_operator less_than = some (codes "<")
left_operator greater_than = some (codes ">")
left_operator less_equal = some (codes "<=")
left_operator greater_equal = some (codes ">=")
left_operator plus = some (codes "+")
left_operator minus = some (codes "-")
left_operator star = some (codes "*")
left_operator slash = some (codes "/")
left_operator percent = some (codes "%")
left_operator star_star = some (codes "**")
left_operator ampersand = some (codes "&")
left_operator _ = none
