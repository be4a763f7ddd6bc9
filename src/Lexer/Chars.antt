-- ===== src/Lexer/Chars.antt =====
-- internal/lexer/lexer.go: the tables of characters.
use gnata.Base.{
  ℕ, Bool, List, [], ◌∷◌, Option, none, Bytes, codes, elem, lookup, nat_eq, bytes_keys,
}
use gnata.Lexer.Token.{
  TokenType, dot, left_bracket, right_bracket, left_brace, right_brace, left_paren, right_paren,
  comma, at_sign, hash, semicolon, colon, question, plus, minus, star, slash, percent, pipe, equals,
  less_than, greater_than, caret, ampersand, bang, tilde, star_star, dot_dot, assign, not_equal,
  less_equal, greater_equal, chain, elvis, coalesce,
}

-- the whitespace that `Next` skips; 11 is `\v`
abbrev pub spaces : Bytes
spaces = b' ' ∷ b'\t' ∷ b'\n' ∷ b'\r' ∷ 11 ∷ []

abbrev pub is_space : ℕ → Bool
is_space c = elem c spaces

abbrev pub stop_chars : Bytes
stop_chars = b' ' ∷ b'\t' ∷ b'\n' ∷ b'\r' ∷ 11 ∷ codes ".[]{}(),@#;:?+-*/%|=<>^&!~"

-- `isStopChar`
unfoldable pub is_stop_char : ℕ → Bool
is_stop_char c = elem c stop_chars

-- `singleCharOps`
abbrev pub single_char_ops : List (ℕ × TokenType)
single_char_ops =
    (b'.', dot)
    ∷ (b'[', left_bracket)
    ∷ (b']', right_bracket)
    ∷ (b'{', left_brace)
    ∷ (b'}', right_brace)
    ∷ (b'(', left_paren)
    ∷ (b')', right_paren)
    ∷ (b',', comma)
    ∷ (b'@', at_sign)
    ∷ (b'#', hash)
    ∷ (b';', semicolon)
    ∷ (b':', colon)
    ∷ (b'?', question)
    ∷ (b'+', plus)
    ∷ (b'-', minus)
    ∷ (b'*', star)
    ∷ (b'/', slash)
    ∷ (b'%', percent)
    ∷ (b'|', pipe)
    ∷ (b'=', equals)
    ∷ (b'<', less_than)
    ∷ (b'>', greater_than)
    ∷ (b'^', caret)
    ∷ (b'&', ampersand)
    ∷ (b'!', bang)
    ∷ (b'~', tilde)
    ∷ []

-- `singleCharOp`
unfoldable pub single_char_op : ℕ → Option TokenType
single_char_op c = lookup c single_char_ops

abbrev pub two_char_ops : List (Bytes × TokenType)
two_char_ops =
    (codes "..", dot_dot)
    ∷ (codes ":=", assign)
    ∷ (codes "!=", not_equal)
    ∷ (codes ">=", greater_equal)
    ∷ (codes "<=", less_equal)
    ∷ (codes "**", star_star)
    ∷ (codes "~>", chain)
    ∷ (codes "?:", elvis)
    ∷ (codes "??", coalesce)
    ∷ []

-- the two-character `switch` of `Next`, on the character and what follows it
unfoldable pub two_char_op : ℕ → Bytes → Option TokenType
two_char_op c [] = none
two_char_op c (d ∷ _) = lookup (c ∷ d ∷ []) two_char_ops

-- `simpleEscapes`, with `simpleEscapeValid` as its domain; 8 and 12 are `\b` and `\f`
abbrev pub simple_escapes : List (ℕ × ℕ)
simple_escapes =
    (b'"', b'"')
    ∷ (b'\'', b'\'')
    ∷ (b'\\', b'\\')
    ∷ (b'/', b'/')
    ∷ (b'b', 8)
    ∷ (b'f', 12)
    ∷ (b'n', b'\n')
    ∷ (b'r', b'\r')
    ∷ (b't', b'\t')
    ∷ []

unfoldable pub simple_escape : ℕ → Option ℕ
simple_escape c = lookup c simple_escapes
