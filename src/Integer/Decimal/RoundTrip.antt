-- ===== src/Integer/Decimal/RoundTrip.antt =====
-- The digits of a number between the formatter and the parser of decimal pictures.
use gnata.Base.{
  ℕ, ◌-◌, ◌<◌, ◌≤◌, ◌≡◌, refl, ap, ◌∙◌, inl, inr, Bool, true, false, [], ◌∷◌, ◌++◌, arith, ◌==◌,
  elem, all, length, Bool-cases,
}
use gnata.Integer.{Runes, ok}
use gnata.Integer.Decimal.{
  is_ascii_digit, is_picture_digit, digit_family_zero, mandatory_count, total_digits, format_int,
  zeros, group_infos,
}
use gnata.Integer.Decimal.Grouping.{
  write_decimal, format_integer_decimal, parse_zero, digits_only, clean, apply_integer_grouping,
  apply_digit_family_rune,
}
use gnata.Integer.Decimal.Digits.{padded}
use gnata.Integer.Decimal.Family.{IsFamily, family_zero_from-parse_zero}
use gnata.Integer.Decimal.Cleaning.{clean-apply_integer_grouping, apply_digit_family_rune-ascii}

total_digits-mandatory_count : (picture : Runes) → mandatory_count picture ≤ total_digits picture
unfolding total_digits mandatory_count
total_digits-mandatory_count [] = omega arith
total_digits-mandatory_count (c ∷ picture) =
    let rest = total_digits-mandatory_count picture in
    elim (Bool-cases (is_picture_digit c)) [
      | inl e ↦ rw e (ground (arith, rest))
      | inr e ↦ rw e (ground (arith, rest))
    ]

all-digits_only : (s : Runes) → digits_only s ≡ true → all is_ascii_digit s ≡ true
all-digits_only [] h = refl
all-digits_only (c ∷ s) h = h

-- The parser gets the padded digits.
pub clean-write_decimal :
    (n : ℕ) (picture : Runes) (z : ℕ)
    → IsFamily z
    → elem b'-' picture ≡ false
    → clean z (write_decimal n picture z)
      ≡ zeros (mandatory_count picture - length (format_int n)) ++ format_int n
unfolding write_decimal
clean-write_decimal n picture z w h =
    let digits = zeros (mandatory_count picture - length (format_int n)) ++ format_int n in
    let (only, _) = padded (mandatory_count picture - length (format_int n)) n in
    let read = clean-apply_integer_grouping z picture digits w h (all-digits_only digits only) in
    elim (Bool-cases (z == b'0')) [
      | inl e ↦
          (let ascii : z ≡ b'0' = ground (arith, e) in
            let plain =
              apply_digit_family_rune-ascii
                (apply_integer_grouping digits (group_infos picture).0) in
            let own =
              ap
                (λ y.
                  apply_digit_family_rune (apply_integer_grouping digits (group_infos picture).0) y)
                ascii in
            rw e (rw (own ∙ plain) at read))
      | inr e ↦ rw e read
    ]

pub digit_family_zero-parse_zero :
    (y z : ℕ) (has : Bool) (picture : Runes)
    → 0 < mandatory_count picture
    → digit_family_zero picture ≡ ok z
    → IsFamily z × (parse_zero y has picture ≡ (z, true))
unfolding digit_family_zero
digit_family_zero-parse_zero = family_zero_from-parse_zero

pub format-write_decimal :
    (n z : ℕ) (picture : Runes)
    → digit_family_zero picture ≡ ok z
    → 0 < mandatory_count picture
    → format_integer_decimal n picture ≡ ok (write_decimal n picture z)
unfolding format_integer_decimal
format-write_decimal n z picture f k =
    let some_digits : (total_digits picture == 0) ≡ false =
      ground (arith, total_digits-mandatory_count picture, k) in
    rw (f, some_digits, format_integer_decimal) refl
