-- ===== src/Parser/Tests.antt =====
-- Runs of the parser at concrete sources, and the theorems at inputs that meet their hypotheses.
use gnata.Base.{ℕ, ◌≡◌, refl, Option, some, [], ◌∷◌, Bytes, codes, arith}
use gnata.Lexer.Chars.{is_stop_char, single_char_op, two_char_op}
use gnata.Lexer.Numbers.{scan_number, number_len, integer_len, fraction_len, exponent_len}
use gnata.Lexer.Next
use gnata.Lexer.Next.{next_from, scan, scan_at, scan_operator, scan_operand, scan_word, word_token}
use gnata.Ast.{Node}
use gnata.Parser.Tokens.{type_code, same_type, binding_power, right_operator, left_operator}
use gnata.Parser.Monad.{
  Result, err, syntax, s0215, max_depth, if_at, defer_error, expect, set_token, next,
}
use gnata.Parser.Parts.{operand, parse_name, missing_operand, nud, nud_of}
use gnata.Parser.Infix.{
  check_focus, bind_variable, check_predicate, parse_subscript, parse_binding, parse_binary,
  led_operator, led_of, led,
}
use gnata.Parser.Expression.{
  get_height, set_height, enter, leave, finish, led_loop, expression, parse_all, parse,
}
use gnata.Parser.Source.{parse_source, lexer_source}
use gnata.Parser.Outcome.{IsParsed, parse_source-IsParsed, DeferredAt, parse-err}

-- a stand-in for `strconv.ParseFloat` that keeps the text
abbrev keep_text : Bytes → Option Bytes
keep_text s = some s

abbrev minus_text : Bytes → Bytes
minus_text s = b'-' ∷ s

abbrev run : Bytes → Result Bytes ℕ (Node Bytes)
run src = parse_source keep_text src [] minus_text

-- Two operands miss: `@` may not follow a predicate, and `+` ends the source.
abbrev two_faults : Bytes
two_faults = codes "a[0]@$x + "

run-two_faults : run two_faults ≡ err (syntax s0215 (b'@' ∷ []))
unfolding parse_source parse parse_all expression led_loop nud nud_of led led_of operand parse_name
    missing_operand check_focus bind_variable check_predicate parse_subscript parse_binding
    parse_binary led_operator get_height set_height enter leave finish max_depth if_at defer_error
    expect set_token next type_code same_type binding_power right_operator left_operator Next.next
    next_from scan scan_at scan_operator scan_operand scan_word word_token is_stop_char
    single_char_op two_char_op scan_number number_len integer_len fraction_len exponent_len
run-two_faults = refl

parse_source-IsParsed_example : IsParsed (run (codes "function($x){ $x[0].b }(1, ?)^(>c)"))
parse_source-IsParsed_example =
    parse_source-IsParsed keep_text (codes "function($x){ $x[0].b }(1, ?)^(>c)") [] minus_text

parse-err_example :
    DeferredAt (lexer_source keep_text two_faults) [] minus_text 11 0 (syntax s0215 (b'@' ∷ []))
unfolding parse_source
parse-err_example =
    parse-err (lexer_source keep_text two_faults) [] minus_text 11 0 (syntax s0215 (b'@' ∷ []))
      (omega arith) run-two_faults (λ h. cc)
