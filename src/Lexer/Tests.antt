-- ===== src/Lexer/Tests.antt =====
-- Runs of the lexer at concrete sources, and the theorems at inputs that meet their hypotheses.
use gnata.Base.{
  ℕ, ◌≡◌, refl, Bool, ◌++◌, ◌∷◌, Option, some, Bytes, codes, true, false, [], rune_size,
  encode_rune,
}
use gnata.Lexer.Token.{TokenType, name, star_star, plain, Outcome, token, fail, s0106}
use gnata.Lexer.Chars.{is_stop_char, single_char_op, two_char_op, simple_escape}
use gnata.Lexer.Regex.{closing_slash, regex_end, regex_end_from, is_escaped_at, backslashes}
use gnata.Lexer.Strings.{
  scan_string, string_loop, string_round, escape, unicode_escape, code_unit, low_surrogate,
  hex_value,
}
use gnata.Lexer.Numbers.{scan_number, number_len, integer_len, fraction_len, exponent_len}
use gnata.Lexer.Next.{
  next, next_from, scan, scan_at, scan_operator, scan_operand, scan_word, scan_comment, scan_regex,
  regex_token, word_token, comment_len,
}

-- a stand-in for `strconv.ParseFloat` that keeps the text
abbrev keep_text : Bytes → Option Bytes
keep_text s = some s

abbrev at : Bool → Bytes → ℕ → Outcome Bytes × ℕ
at = next keep_text

next_name : at false (codes "  /* c */ foo.bar") 0 ≡ (token (plain name (codes "foo") 10), 13)
unfolding next next_from scan scan_at scan_operator scan_operand scan_word word_token scan_comment
    comment_len is_stop_char single_char_op two_char_op
next_name = refl

next_power : at true (codes "a**b") 1 ≡ (token (plain star_star (codes "**") 1), 3)
unfolding next next_from scan scan_at scan_operator two_char_op
next_power = refl

next_string :
    at false (codes "'a\\n\\ud83d\\ude00'") 0
    ≡ (token (plain TokenType.string (codes "a\n" ++ (0xF0 ∷ 0x9F ∷ 0x98 ∷ 0x80 ∷ [])) 0), 17)
unfolding next next_from scan scan_at scan_operator scan_operand scan_string string_loop
    string_round escape unicode_escape code_unit low_surrogate hex_value rune_size encode_rune
    simple_escape single_char_op two_char_op
next_string = refl

next_regex : (at false (codes "/a\\/b/i + 1") 0).1 ≡ 7
unfolding next next_from scan scan_at scan_regex regex_token closing_slash regex_end regex_end_from
    is_escaped_at backslashes
next_regex = refl

next_number : (at false (codes "12.5e3x") 0).1 ≡ 6
unfolding next next_from scan scan_at scan_operator scan_operand scan_number number_len integer_len
    fraction_len exponent_len single_char_op two_char_op
next_number = refl

next_unclosed : at false (codes "1 /* x") 1 ≡ (fail s0106, 6)
unfolding next next_from scan scan_at scan_comment comment_len
next_unclosed = refl
