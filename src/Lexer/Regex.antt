-- ===== src/Lexer/Regex.antt =====
-- internal/lexer/lexer.go: where a regex literal ends.
use gnata.Base.{
  ℕ, zero, suc, ◌+◌, ◌-◌, ◌%◌, Bool, false, not, ◌&&◌, ◌||◌, [], ◌∷◌, Option, none, some, Bytes,
  ltb, ◌==◌, if◌then◌else◌, get_or, length, starts_with, tail_of, ℤ, pos, inc, dec, is_zero,
}

-- the run of backslashes that ends just before `start + n`, within `[start, start + n)`
unfoldable pub backslashes : Bytes → ℕ → ℕ → ℕ
backslashes src start zero = 0
backslashes src start (suc n) =
    if get_or src (start + n) 0 == b'\\' then suc (backslashes src start n) else 0

-- `isEscapedAt`
unfoldable pub is_escaped_at : Bytes → ℕ → ℕ → Bool
is_escaped_at src start p = backslashes src start (p - start) % 2 == 1

abbrev pub opens : ℕ → Bool
opens c = c == b'(' || c == b'[' || c == b'{'

abbrev pub closes : ℕ → Bool
closes c = c == b')' || c == b']' || c == b'}'

-- the depth after `src[p]`
abbrev pub next_depth : Bytes → ℕ → ℤ → ℤ
next_depth src p depth =
    let c = get_or src p 0 in
    if get_or src (p - 1) 0 == b'\\'
    then depth
    else if opens c
    then inc depth
    else if closes c
    then dec depth
    else depth

abbrev pub ends_at : Bytes → ℕ → ℕ → ℤ → Bool
ends_at src start p depth =
    get_or src p 0 == b'/' && (is_zero depth && not (is_escaped_at src start p))

-- the loop of `regexEnd` over the `n` positions from `p` on
unfoldable pub regex_end_from : Bytes → ℕ → ℕ → ℤ → ℕ → Option ℕ
regex_end_from src start p depth zero = none
regex_end_from src start p depth (suc n) =
    let rest = regex_end_from src start (p + 1) (next_depth src p depth) n in
    if ends_at src start p depth then some p else rest

unfoldable pub regex_end : Bytes → ℕ → Option ℕ
regex_end src start = regex_end_from src start start (pos 0) (length src - start)

-- The state of `lenientRegexEnd`; the innermost open bracket is first.
pub record Brackets : Type 0 where
  pub open_brackets : Bytes
  pub unmatched : ℕ
  pub in_class : Bool

-- The `switch` on a byte that is not escaped, `none` where it returns.
abbrev pub lenient_step : ℕ → Brackets → Option Brackets
lenient_step c b =
    if c == b'[' || c == b']'
    then some (record b { in_class = c == b'[' })
    else if b.in_class
    then some b
    else if c == b'(' && ltb 0 b.unmatched
    then some (record b { unmatched = b.unmatched - 1 })
    else if c == b'(' || c == b'{'
    then some (record b { open_brackets = c ∷ b.open_brackets })
    else if c == b')' && ltb 0 (length b.open_brackets)
    then some (record b { open_brackets = tail_of b.open_brackets })
    else if c == b')'
    then some (record b { unmatched = b.unmatched + 1 })
    else if c == b'}' && starts_with b'{' b.open_brackets
    then some (record b { open_brackets = tail_of b.open_brackets })
    else if c == b'/' && (length b.open_brackets == 0 && b.unmatched == 0)
    then none
    else some b

-- An escaped byte is passed over.
abbrev pub lenient_round : Bytes → ℕ → ℕ → Brackets → Option Brackets
lenient_round src start p b =
    if is_escaped_at src start p then some b else lenient_step (get_or src p 0) b

unfoldable pub lenient_from : Bytes → ℕ → ℕ → Brackets → ℕ → Option ℕ
lenient_from src start p b zero = none
lenient_from src start p b (suc n) = elim (lenient_round src start p b) [
  | none ↦ some p
  | some b' ↦ lenient_from src start (p + 1) b' n
]

unfoldable pub lenient_regex_end : Bytes → ℕ → Option ℕ
lenient_regex_end src start =
    lenient_from src start start (record { open_brackets = []; unmatched = 0; in_class = false })
      (length src - start)

-- The position that `Next` takes: `regexEnd`'s, or else `lenientRegexEnd`'s.
unfoldable pub closing_slash : Bytes → ℕ → Option ℕ
closing_slash src start = elim (regex_end src start) [
  | some e ↦ some e
  | none ↦ lenient_regex_end src start
]
