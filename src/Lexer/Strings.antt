-- ===== src/Lexer/Strings.antt =====
-- internal/lexer/lexer.go: `scanString`. `s` is what is left of the source from `p` on.
use gnata.Base.{
  ℕ, zero, suc, ◌+◌, ◌-◌, ◌*◌, Bool, not, ◌&&◌, ◌||◌, [], ◌∷◌, ◌++◌, Option, none, some, Bytes, ltb,
  leb, within, ◌==◌, if◌then◌else◌, length, take, drop, all, starts_with, rune_size, encode_rune,
}
use gnata.Lexer.Token.{TokenType, plain, Outcome, token, fail, s0101, s0103, s0104, out_of_fuel}
use gnata.Lexer.Chars.{simple_escape}

abbrev is_hex : ℕ → Bool
is_hex c = within b'0' b'9' c || within b'a' b'f' c || within b'A' b'F' c

abbrev hex_digit : ℕ → ℕ
hex_digit c = if leb c b'9' then c - b'0' else if leb c b'F' then c - b'A' + 10 else c - b'a' + 10

-- the value of a run of hexadecimal digits
unfoldable pub hex_value : ℕ → Bytes → ℕ
hex_value acc [] = acc
hex_value acc (c ∷ s) = hex_value (acc * 16 + hex_digit c) s

-- `strconv.ParseInt(s, 16, 32)` on four bytes, where it gives a number that is not negative. It
-- takes a sign.
unfoldable pub parse_hex : Bytes → Option ℕ
unfolding hex_value
parse_hex [] = none
parse_hex (c ∷ s) =
    if c == b'+'
    then (if all is_hex s && ltb 0 (length s) then some (hex_value 0 s) else none)
    else if all is_hex (c ∷ s)
    then some (hex_value 0 (c ∷ s))
    else none

-- What one round of the loop does: it returns, or goes on behind the bytes that it took, with the
-- text so far.
pub data Round (F : Type 0) : Type 0 where
  stop : Outcome F → ℕ → Round F
  more : Bytes → ℕ → Bytes → Round F

-- the second escape of a surrogate pair, read behind its `\u`
unfoldable pub low_surrogate : Bytes → Option ℕ
unfolding parse_hex
low_surrogate s = elim (parse_hex (take 4 s)) [
  | some r2 ↦ if within 0xDC00 0xDFFF r2 then some r2 else none
  | none ↦ none
]

module _ {F : Type 0} where
  -- a code unit `r` read from `\uXXXX`, with `s` behind it at `p`
  unfoldable pub code_unit : ℕ → Bytes → ℕ → Bytes → Round F
  code_unit r s p sb =
      let alone = more s p (sb ++ encode_rune r) in
      if within 0xD800 0xDBFF r
        && (leb 6 (length s) && (starts_with b'\\' s && starts_with b'u' (drop 1 s)))
      then elim (low_surrogate (drop 2 s)) [
        | some r2 ↦
            more (drop 6 s) (p + 6)
              (sb ++ encode_rune (0x10000 + (r - 0xD800) * 0x400 + (r2 - 0xDC00)))
        | none ↦ alone
      ]
      else alone

  -- behind `\u`
  unfoldable pub unicode_escape : Bytes → ℕ → Bytes → Round F
  unicode_escape s p sb =
      let hex = take 4 s in
      if length hex == 0 || not (all is_hex hex)
      then stop (fail s0104) p
      else if ltb (length hex) 4
      then stop (fail s0101) p
      else code_unit (hex_value 0 hex) (drop 4 s) (p + 4) sb

  -- behind a backslash
  unfoldable pub escape : Bytes → ℕ → Bytes → Round F
  escape [] p sb = stop (fail s0103) p
  escape (esc ∷ s) p sb = elim (simple_escape esc) [
    | some b ↦ more s (p + 1) (sb ++ b ∷ [])
    | none ↦ if not (esc == b'u') then stop (fail s0103) (p + 1) else unicode_escape s (p + 1) sb
  ]

  -- one round of the loop of `scanString`
  unfoldable pub string_round : ℕ → ℕ → Bytes → ℕ → Bytes → Round F
  string_round quote start [] p sb = stop (fail s0101) p
  string_round quote start (c ∷ s) p sb =
      if c == quote
      then stop (token (plain TokenType.string sb start)) (p + 1)
      else if not (c == b'\\')
      then (let size = rune_size (c ∷ s) in
          more (drop size (c ∷ s)) (p + size) (sb ++ take size (c ∷ s)))
      else escape s (p + 1) sb

  unfoldable pub string_loop : ℕ → ℕ → ℕ → Bytes → ℕ → Bytes → Outcome F × ℕ
  string_loop zero quote start s p sb = (fail out_of_fuel, p)
  string_loop (suc n) quote start s p sb = elim (string_round quote start s p sb) [
    | stop o p' ↦ (o, p')
    | more s' p' sb' ↦ string_loop n quote start s' p' sb'
  ]

  -- `scanString`, with `s` behind the opening quote at `p`
  unfoldable pub scan_string : ℕ → ℕ → Bytes → ℕ → Outcome F × ℕ
  scan_string quote start s p = string_loop (suc (length s)) quote start s p []
