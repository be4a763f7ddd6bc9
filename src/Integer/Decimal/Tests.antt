-- ===== src/Integer/Decimal/Tests.antt =====
-- Runs of the decimal pictures, and the round trip at a grouped, signed ordinal.
use gnata.Base.{◌≡◌, refl, [], ◌∷◌, true, negsuc, arith}
use gnata.Integer.{Runes, ok}
use gnata.Integer.Decimal.{
  unicode_digit_zero, is_picture_digit, family_of, family_zero_from, digit_family_zero,
  mandatory_count, total_digits, group_infos, digits_from, format_int, zeros, fail, d3131,
}
use gnata.Integer.Decimal.Grouping.{
  position_set, same_sep, regular, repeat_sep, place_seps, separators, apply_integer_grouping,
  apply_digit_family_rune, write_decimal, format_integer_decimal, parse_integer_decimal,
}
use gnata.Integer.Decimal.Signed.{
  format_decimal, split_picture_modifier, ordinal_suffix, has_picture_digit,
}
use gnata.Integer.Decimal.Whole.{parse_integer_decimal-format_decimal, picture_of}

-- #,##0
abbrev thousands : Runes
thousands = b'#' ∷ b',' ∷ b'#' ∷ b'#' ∷ b'0' ∷ []

-- -1,234,567th
abbrev formatted : Runes
formatted = b'-' ∷ b'1' ∷ b',' ∷ b'2' ∷ b'3' ∷ b'4' ∷ b',' ∷ b'5' ∷ b'6' ∷ b'7' ∷ b't' ∷ b'h' ∷ []

format_thousands : format_decimal (negsuc 1234566) (picture_of thousands true) ≡ ok formatted
unfolding format_decimal split_picture_modifier ordinal_suffix has_picture_digit position_set
    same_sep regular repeat_sep place_seps separators apply_integer_grouping apply_digit_family_rune
    write_decimal format_integer_decimal unicode_digit_zero is_picture_digit family_of
    family_zero_from digit_family_zero mandatory_count total_digits group_infos format_int
    digits_from zeros
format_thousands = refl

-- Two Arabic-Indic digits: the value 7 is padded.
format_family : format_integer_decimal 7 (1632 ∷ 1633 ∷ []) ≡ ok (1632 ∷ 1639 ∷ [])
unfolding position_set same_sep regular repeat_sep place_seps separators apply_integer_grouping
    apply_digit_family_rune write_decimal format_integer_decimal unicode_digit_zero is_picture_digit
    family_of family_zero_from digit_family_zero mandatory_count total_digits group_infos format_int
    digits_from zeros
format_family = refl

mixed_families : format_integer_decimal 7 (b'0' ∷ 1633 ∷ []) ≡ fail d3131
unfolding format_integer_decimal family_of family_zero_from digit_family_zero unicode_digit_zero
mixed_families = refl

thousands_family : digit_family_zero thousands ≡ ok b'0'
unfolding digit_family_zero family_zero_from family_of unicode_digit_zero
thousands_family = refl

thousands_count : mandatory_count thousands ≡ 1
unfolding mandatory_count is_picture_digit unicode_digit_zero
thousands_count = refl

parse_integer_decimal-format_decimal_example :
    (text : Runes) × (format_decimal (negsuc 1234566) (picture_of thousands true) ≡ ok text)
    × (parse_integer_decimal text (picture_of thousands true) ≡ ok (negsuc 1234566))
parse_integer_decimal-format_decimal_example =
    parse_integer_decimal-format_decimal (negsuc 1234566) b'0' thousands true (omega arith) refl
      refl thousands_family (omega (arith, thousands_count))
