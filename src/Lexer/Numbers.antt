-- ===== src/Lexer/Numbers.antt =====
-- internal/lexer/lexer.go: `scanNumber`. Each function says how many bytes of `s` it takes.
use gnata.Base.{
  ℕ, suc, ◌+◌, Bool, false, ◌&&◌, ◌||◌, [], ◌∷◌, Option, none, some, Bytes, within, ◌==◌,
  if◌then◌else◌, take, drop, count_while,
}
use gnata.Lexer.Token.{TokenType, Outcome, token, fail, s0102}

abbrev pub is_digit : ℕ → Bool
is_digit c = within b'0' b'9' c

abbrev pub digit_next : Bytes → Bool
digit_next [] = false
digit_next (c ∷ s) = is_digit c

-- `0`, or a run of digits
unfoldable pub integer_len : Bytes → ℕ
integer_len [] = 0
integer_len (c ∷ s) = if c == b'0' then 1 else count_while is_digit (c ∷ s)

-- a dot and a run of digits, or nothing
unfoldable pub fraction_len : Bytes → ℕ
fraction_len [] = 0
fraction_len (c ∷ s) = if c == b'.' && digit_next s then suc (count_while is_digit s) else 0

abbrev pub sign_len : Bytes → ℕ
sign_len [] = 0
sign_len (c ∷ s) = if c == b'+' || c == b'-' then 1 else 0

-- an `e`, a sign that may be left out and a run of digits, or nothing
unfoldable pub exponent_len : Bytes → ℕ
exponent_len [] = 0
exponent_len (c ∷ s) =
    let sign = sign_len s in
    let digits = drop sign s in
    if (c == b'e' || c == b'E') && digit_next digits
    then suc (sign + count_while is_digit digits)
    else 0

unfoldable pub number_len : Bytes → ℕ
number_len s =
    let i = integer_len s in
    let f = fraction_len (drop i s) in i + f + exponent_len (drop (i + f) s)

-- `scanNumber`, with `s` the source from `p` on. `parse_float` is `strconv.ParseFloat`, `none` for
-- its error, an infinity or a NaN.
module _ {F : Type 0} (parse_float : Bytes → Option F) where
  unfoldable pub number_token : Bytes → ℕ → Outcome F
  number_token text p = elim (parse_float text) [
    | some f ↦ token (record {
      type = TokenType.number;
      value = text;
      num_val = some f;
      bool_val = false;
      is_null = false;
      regex_pat = [];
      regex_flg = [];
      pos = p;
    })
    | none ↦ fail s0102
  ]

  unfoldable pub scan_number : Bytes → ℕ → Outcome F × ℕ
  unfolding number_token
  scan_number s p = (number_token (take (number_len s) s) p, p + number_len s)
