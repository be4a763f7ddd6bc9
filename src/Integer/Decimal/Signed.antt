-- ===== src/Integer/Decimal/Signed.antt =====
-- functions/string_format_integer.go: `splitPictureModifier`, `ordinalSuffix`, and the branch of
-- `formatIntegerWithPicture` for decimal pictures. $formatInteger calls it with an int64 above the
-- least one, so that its magnitude is an int64.
use gnata.Base.{
  ℕ, suc, ◌%◌, Bool, true, false, [], ◌∷◌, ◌++◌, ◌==◌, ◌||◌, if◌then◌else◌, within, ℤ, pos, negsuc,
  bytes_eq, not,
}
use gnata.Integer.{Runes, Result, ok, err}
use gnata.Integer.Decimal.{d3130, fail, is_picture_digit}
use gnata.Integer.Decimal.Grouping.{format_integer_decimal}

-- `splitPictureModifier`
unfoldable pub split_picture_modifier : Runes → Runes × Runes
split_picture_modifier [] = ([], b'c' ∷ [])
split_picture_modifier (c ∷ picture) =
    let (token, modifier) = split_picture_modifier picture in
    if c == b';' then ([], picture) else (c ∷ token, modifier)

abbrev suffix_th : Runes
suffix_th = b't' ∷ b'h' ∷ []

-- `ordinalSuffix` of a magnitude
unfoldable pub ordinal_suffix : ℕ → Runes
ordinal_suffix n =
    if within 11 13 (n % 100)
    then suffix_th
    else if n % 10 == 1
    then b's' ∷ b't' ∷ []
    else if n % 10 == 2
    then b'n' ∷ b'd' ∷ []
    else if n % 10 == 3
    then b'r' ∷ b'd' ∷ []
    else suffix_th

-- `negative` and `absN`
abbrev pub is_negative : ℤ → Bool
is_negative (pos n) = false
is_negative (negsuc n) = true

abbrev pub magnitude : ℤ → ℕ
magnitude (pos n) = n
magnitude (negsuc n) = suc n

-- `slices.ContainsFunc(runes, isPictureDigit)`
unfoldable pub has_picture_digit : Runes → Bool
has_picture_digit [] = false
has_picture_digit (c ∷ s) = is_picture_digit c || has_picture_digit s

-- The default branch of `formatIntegerWithPicture`, for a token that is neither a nor A.
unfoldable pub format_decimal : ℤ → Runes → Result Runes
format_decimal n picture =
    let (token, modifier) = split_picture_modifier picture in
    if not (has_picture_digit token)
    then fail d3130
    else elim (format_integer_decimal (magnitude n) token) [
      | err e ↦ err e
      | ok digits ↦ ok (
          (if is_negative n then b'-' ∷ [] else [])
          ++ (digits
              ++ (if bytes_eq modifier (b'o' ∷ []) then ordinal_suffix (magnitude n) else [])))
    ]
