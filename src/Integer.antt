-- ===== src/Integer.antt =====
-- functions/string_format_integer.go: the Roman and alphabetic numerals of $formatInteger and
-- $parseInteger. A text is the list of its runes. An int64 is its two's complement below 2 ^ 64, and
-- the numbers that are formatted are positive.
pub mod Capitals
pub mod Roman
pub mod Alphabetic
pub mod Decimal
pub mod Words
mod Tests
use gnata.Base.{
  ℕ, zero, suc, ◌+◌, ◌-◌, ◌*◌, ◌/◌, ◌%◌, Bool, true, false, List, [], ◌∷◌, ◌++◌, Option, none, some,
  ltb, leb, if◌then◌else◌, within, map, lookup, nat_eq,
}

abbrev pub Runes : Type 0
Runes = List ℕ

-- `JSONataError`, with the part of its message that is not fixed
pub record JsonataError : Type 0 where
  pub code : Runes
  pub quoted : Runes

pub data Result (A : Type 0) : Type 0 where
  ok : A → Result A
  err : JsonataError → Result A

abbrev pub d3137 : Runes
d3137 = b'D' ∷ b'3' ∷ b'1' ∷ b'3' ∷ b'7' ∷ []

abbrev pub two_64 : ℕ
two_64 = 18446744073709551616

-- `vals` and `syms` of `toRoman`
abbrev pub Numerals : Type 0
Numerals = List (ℕ × Runes)

abbrev pub roman_table : Numerals
roman_table =
    (1000, b'M' ∷ [])
    ∷ (900, b'C' ∷ b'M' ∷ [])
    ∷ (500, b'D' ∷ [])
    ∷ (400, b'C' ∷ b'D' ∷ [])
    ∷ (100, b'C' ∷ [])
    ∷ (90, b'X' ∷ b'C' ∷ [])
    ∷ (50, b'L' ∷ [])
    ∷ (40, b'X' ∷ b'L' ∷ [])
    ∷ (10, b'X' ∷ [])
    ∷ (9, b'I' ∷ b'X' ∷ [])
    ∷ (5, b'V' ∷ [])
    ∷ (4, b'I' ∷ b'V' ∷ [])
    ∷ (1, b'I' ∷ [])
    ∷ []

-- The inner loop of `toRoman`: the text behind `sb`, and what is left of `n`. Its fuel is `n`.
unfoldable pub write_symbol : ℕ → ℕ → Runes → ℕ → Runes × ℕ
write_symbol zero v sym n = ([], n)
write_symbol (suc fuel) v sym n =
    let (text, rest) = write_symbol fuel v sym (n - v) in
    if leb v n then (sym ++ text, rest) else ([], n)

-- The outer loop of `toRoman`.
unfoldable pub write_roman : Numerals → ℕ → Runes
write_roman [] n = []
write_roman ((v, sym) ∷ table) n =
    let (text, rest) = write_symbol n v sym n in text ++ write_roman table rest

-- `strings.ToLower` of an ASCII letter
abbrev pub to_lower : ℕ → ℕ
to_lower c = if within b'A' b'Z' c then c + 32 else c

-- `strings.ToUpper` of an ASCII letter
abbrev pub to_upper : ℕ → ℕ
to_upper c = if within b'a' b'z' c then c - 32 else c

-- `toRoman` of a number that is not negative
unfoldable pub to_roman : ℕ → Bool → Runes
to_roman n upper =
    if upper then write_roman roman_table n else map to_lower (write_roman roman_table n)

-- `vals` of `fromRoman`
abbrev pub roman_values : List (ℕ × ℕ)
roman_values =
    (b'I', 1) ∷ (b'V', 5) ∷ (b'X', 10) ∷ (b'L', 50) ∷ (b'C', 100) ∷ (b'D', 500) ∷ (b'M', 1000) ∷ []

-- Whether the next rune has a value above `v`.
abbrev pub next_above : ℕ → Runes → Bool
next_above v [] = false
next_above v (c ∷ s) = elim (lookup c roman_values) [ some next ↦ ltb v next | none ↦ false ]

-- The loop of `fromRoman`.
unfoldable pub read_roman : ℕ → Runes → Result ℕ
read_roman total [] = ok total
read_roman total (c ∷ s) = elim (lookup c roman_values) [
  | none ↦ err record { code = d3137; quoted = c ∷ [] }
  | some v ↦
      read_roman (if next_above v s then (total + two_64 - v) % two_64 else (total + v) % two_64) s
]

-- `fromRoman`
unfoldable pub from_roman : Runes → Result ℕ
from_roman s = read_roman 0 s

-- The loop of `toAlphabetic`, with the runes that are already in `result`. Its fuel is `n`.
unfoldable pub write_letters : ℕ → ℕ → ℕ → Runes → Runes
write_letters fuel base zero result = result
write_letters zero base (suc n) result = result
write_letters (suc fuel) base (suc n) result =
    write_letters fuel base (n / 26) ((base + n % 26) ∷ result)

-- `toAlphabetic` of a number that is not negative
unfoldable pub to_alphabetic : ℕ → ℕ → Runes
to_alphabetic n base = write_letters n base n []

-- The loop of `fromAlphabetic`.
unfoldable pub read_letters : ℕ → Runes → Result ℕ
read_letters result [] = ok result
read_letters result (c ∷ s) =
    let rest = read_letters ((result * 26 + (c - b'a' + 1)) % two_64) s in
    if within b'a' b'z' c then rest else err record { code = d3137; quoted = c ∷ [] }

-- `fromAlphabetic`
unfoldable pub from_alphabetic : Runes → Result ℕ
from_alphabetic s = read_letters 0 s
