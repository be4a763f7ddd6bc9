-- ===== src/Integer/Decimal.antt =====
-- functions/string_format_integer.go: decimal pictures, whose digits may come from any of Unicode's
-- decimal digit families, with their grouping separators. Numbers are int64 that are not negative.
pub mod Grouping
pub mod Digits
pub mod Family
pub mod Cleaning
pub mod RoundTrip
pub mod Signed
pub mod Whole
mod Tests
use gnata.Base.{
  ℕ, zero, suc, ◌+◌, ◌-◌, ◌*◌, ◌/◌, ◌%◌, ◌^◌, Bool, true, false, not, ◌&&◌, ◌||◌, List, [], ◌∷◌,
  ◌++◌, Option, none, some, ltb, leb, ◌==◌, if◌then◌else◌, within, length, lookup, insert, nat_eq,
  ℤ, pos, negsuc,
}
use gnata.Integer.{Runes, Result, ok, err, JsonataError}

abbrev pub d3131 : Runes
d3131 = b'D' ∷ b'3' ∷ b'1' ∷ b'3' ∷ b'1' ∷ []

abbrev pub d3130 : Runes
d3130 = b'D' ∷ b'3' ∷ b'1' ∷ b'3' ∷ b'0' ∷ []

abbrev pub fail : {A : Type 0} → Runes → Result A
fail c = err record { code = c; quoted = [] }

-- `unicodeZeros`
abbrev pub unicode_zeros : Runes
unicode_zeros =
    1632 ∷ 1776 ∷ 1984 ∷ 2406 ∷ 2534 ∷ 2662 ∷ 2790 ∷ 2918 ∷ 3046 ∷ 3174 ∷ 3302 ∷ 3430 ∷ 3558 ∷ 3664
    ∷ 3792 ∷ 3872 ∷ 4160 ∷ 4240 ∷ 6112 ∷ 6160 ∷ 6470 ∷ 6608 ∷ 6784 ∷ 6800 ∷ 6992 ∷ 7088 ∷ 7232
    ∷ 7248 ∷ 42528 ∷ 43216 ∷ 43264 ∷ 43472 ∷ 43504 ∷ 43600 ∷ 44016 ∷ 65296 ∷ []

-- The loop of `unicodeDigitZero`.
abbrev pub zero_in : Runes → ℕ → ℕ
zero_in [] c = 0
zero_in (z ∷ zs) c = if within z (z + 9) c then z else zero_in zs c

-- `unicodeDigitZero`
unfoldable pub unicode_digit_zero : ℕ → ℕ
unicode_digit_zero c = zero_in unicode_zeros c

abbrev pub is_ascii_digit : ℕ → Bool
is_ascii_digit c = within b'0' b'9' c

-- `isPictureDigit`
unfoldable pub is_picture_digit : ℕ → Bool
is_picture_digit c = is_ascii_digit c || not (unicode_digit_zero c == 0)

-- The zero of the family of a rune, 0 where it is no digit.
unfoldable pub family_of : ℕ → ℕ
family_of c = if is_ascii_digit c then b'0' else unicode_digit_zero c

-- The loop of `digitFamilyZero`, with the zero that is found so far.
unfoldable pub family_zero_from : ℕ → Runes → Result ℕ
family_zero_from z [] = ok (if z == 0 then b'0' else z)
family_zero_from z (c ∷ picture) =
    let skip = family_zero_from z picture in
    let set = family_zero_from (family_of c) picture in
    if family_of c == 0 || family_of c == z then skip else if not (z == 0) then fail d3131 else set

-- `digitFamilyZero`
unfoldable pub digit_family_zero : Runes → Result ℕ
digit_family_zero picture = family_zero_from 0 picture

-- `mandatoryCount`
unfoldable pub mandatory_count : Runes → ℕ
mandatory_count [] = 0
mandatory_count (c ∷ picture) =
    if is_picture_digit c then suc (mandatory_count picture) else mandatory_count picture

-- `totalDigits`
unfoldable pub total_digits : Runes → ℕ
total_digits [] = 0
total_digits (c ∷ picture) =
    if c == b'#' || is_picture_digit c then suc (total_digits picture) else total_digits picture

-- A separator with the number of digits to its right: `grpInfo`, `grpAnon`.
pub record Group : Type 0 where
  pub sep : ℕ
  pub pos_r : ℕ

-- The loop over the picture from its right end: `grpInfos` and `digitFromRight`.
unfoldable pub group_infos : Runes → List Group × ℕ
group_infos [] = ([], 0)
group_infos (c ∷ picture) =
    let (infos, digit_from_right) = group_infos picture in
    if c == b'#' || is_picture_digit c
    then (infos, suc digit_from_right)
    else if ltb 0 digit_from_right
    then (infos ++ record { sep = c; pos_r = digit_from_right } ∷ [], digit_from_right)
    else (infos, digit_from_right)

-- The decimal digits of a number before `text`. The fuel is more than the number.
unfoldable pub digits_from : ℕ → ℕ → Runes → Runes
digits_from zero n text = text
digits_from (suc fuel) n text =
    let more = digits_from fuel (n / 10) ((b'0' + n % 10) ∷ text) in
    if ltb n 10 then (b'0' + n) ∷ text else more

-- `strconv.FormatInt(n, 10)`
unfoldable pub format_int : ℕ → Runes
format_int n = digits_from (suc n) n []

-- `strings.Repeat("0", n)`
unfoldable pub zeros : ℕ → Runes
zeros zero = []
zeros (suc n) = b'0' ∷ zeros n
