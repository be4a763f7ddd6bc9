-- ===== src/Lexer/Next.antt =====
-- internal/lexer/lexer.go: `Next`. The position that it leaves in the lexer stands beside what it
-- returns.
use gnata.Base.{
  ℕ, zero, suc, ◌+◌, Bool, true, false, not, ◌&&◌, ◌||◌, [], ◌∷◌, ◌++◌, Option, none, some, Bytes,
  codes, ◌==◌, if◌then◌else◌, bytes_eq, length, take, drop, slice, count_while, starts_with,
  rune_size,
}
use mathlib.Core.Option
use gnata.Lexer.Token.{
  eof, name, variable, value, regex, and_word, or_word, in_word, Token, plain, Outcome, token, fail,
  s0105, s0106, s0301, s0302, out_of_fuel,
}
use gnata.Lexer.Chars.{is_space, is_stop_char, single_char_op, two_char_op}
use gnata.Lexer.Regex.{closing_slash}
use gnata.Lexer.Strings.{scan_string}
use gnata.Lexer.Numbers.{is_digit, scan_number}

-- What the body of `Next` does from the label `start` on: it returns, leaving a position, or goes
-- back to `start` at a position.
pub data Step (F : Type 0) : Type 0 where
  done : Outcome F → ℕ → Step F
  restart : ℕ → Step F

abbrev pub comment_cons : ℕ → Bytes → Option ℕ → Option ℕ
comment_cons c s rest = if c == b'*' && starts_with b'/' s then some 2 else Option.map suc rest

-- how many bytes a comment takes behind its `/*`, the closing `*/` included
unfoldable pub comment_len : Bytes → Option ℕ
comment_len [] = none
comment_len (c ∷ s) = comment_cons c s (comment_len s)

-- what `s` holds before the next backtick
abbrev pub not_backtick : ℕ → Bool
not_backtick c = not (c == b'`')

abbrev pub is_flag : ℕ → Bool
is_flag c = c == b'i' || c == b'm'

abbrev pub in_word_char : ℕ → Bool
in_word_char c = not (is_stop_char c)

module _ {F : Type 0} where
  abbrev constant : Bytes → Bool → Bool → ℕ → Token F
  constant text b is_null p = record {
    type = value;
    value = text;
    num_val = none;
    bool_val = b;
    is_null = is_null;
    regex_pat = [];
    regex_flg = [];
    pos = p;
  }

  -- the token of an identifier, a variable or a word of the language
  unfoldable pub word_token : Bytes → ℕ → Token F
  word_token [] p = plain name [] p
  word_token (c ∷ rest) p =
      let id = c ∷ rest in
      if c == b'$'
      then plain variable rest p
      else if bytes_eq id (codes "or")
      then plain or_word id p
      else if bytes_eq id (codes "in")
      then plain in_word id p
      else if bytes_eq id (codes "and")
      then plain and_word id p
      else if bytes_eq id (codes "true")
      then constant id true false p
      else if bytes_eq id (codes "false")
      then constant id false false p
      else if bytes_eq id (codes "null")
      then constant id false true p
      else plain name id p

  -- `s` is the source from `p` on. With no identifier there the rune is skipped.
  unfoldable pub scan_word : Bytes → ℕ → Step F
  scan_word s p =
      let n = count_while in_word_char s in
      if n == 0 then restart (p + rune_size s) else done (token (word_token (take n s) p)) (p + n)

  -- behind the backtick at `p`
  unfoldable pub scan_quoted_name : Bytes → ℕ → Step F
  scan_quoted_name s p =
      let n = count_while not_backtick s in
      if n == length s
      then done (fail s0105) (p + 1 + n)
      else done (token (plain name (take n s) p)) (p + 1 + n + 1)

  -- behind the `/*` at `p`
  unfoldable pub scan_comment : Bytes → ℕ → Step F
  scan_comment s p = elim (comment_len s) [
    | some n ↦ restart (p + 2 + n)
    | none ↦ done (fail s0106) (p + 2 + length s)
  ]

  -- a regex literal whose `/` stands at `p`
  unfoldable pub regex_token : Bytes → ℕ → ℕ → Step F
  regex_token src p end =
      let pattern = slice src (p + 1) end in
      let flags = drop (end + 1) src in
      let n = count_while is_flag flags in
      if length pattern == 0
      then done (fail s0301) (p + 1)
      else done
          (token (record {
            type = regex;
            value = [];
            num_val = none;
            bool_val = false;
            is_null = false;
            regex_pat = pattern;
            regex_flg = take n flags ++ b'g' ∷ [];
            pos = p;
          }))
          (end + 1 + n)

  unfoldable pub scan_regex : Bytes → ℕ → Step F
  scan_regex src p = elim (closing_slash src (p + 1)) [
    | some end ↦ regex_token src p end
    | none ↦ done (fail s0302) (length src)
  ]

abbrev pub step_of : {F : Type 0} → Outcome F × ℕ → Step F
step_of (o, p) = done o p

module _ {F : Type 0} (parse_float : Bytes → Option F) where
  -- what stands behind the operators: strings, numbers, quoted names and words
  unfoldable pub scan_operand : ℕ → Bytes → ℕ → Step F
  scan_operand c s p =
      if c == b'"' || c == b'\''
      then step_of (scan_string c p s (p + 1))
      else if is_digit c
      then step_of (scan_number parse_float (c ∷ s) p)
      else if c == b'`'
      then scan_quoted_name s p
      else scan_word (c ∷ s) p

  unfoldable pub scan_operator : ℕ → Bytes → ℕ → Step F
  scan_operator c s p = elim (two_char_op c s) [
    | some t ↦ done (token (plain t (c ∷ take 1 s) p)) (p + 2)
    | none ↦ elim (single_char_op c) [
      | some t ↦ done (token (plain t (c ∷ []) p)) (p + 1)
      | none ↦ scan_operand c s p
    ]
  ]

  -- the body behind the skipped whitespace; the last argument is the source from `p` on
  unfoldable pub scan_at : Bool → Bytes → ℕ → Bytes → Step F
  scan_at infix_position src p [] = done (token (plain eof [] 0)) p
  scan_at infix_position src p (c ∷ s) =
      if c == b'/' && starts_with b'*' s
      then scan_comment (drop 1 s) p
      else if c == b'/' && not infix_position
      then scan_regex src p
      else scan_operator c s p

  -- the body of `Next` from the label `start` on
  unfoldable pub scan : Bool → Bytes → ℕ → Step F
  scan infix_position src p =
      let q = p + count_while is_space (drop p src) in scan_at infix_position src q (drop q src)

  -- the rounds of `goto start`
  unfoldable pub next_from : ℕ → Bool → Bytes → ℕ → Outcome F × ℕ
  next_from zero infix_position src p = (fail out_of_fuel, p)
  next_from (suc n) infix_position src p = elim (scan infix_position src p) [
    | done o q ↦ (o, q)
    | restart q ↦ next_from n infix_position src q
  ]

  -- `Next`
  unfoldable pub next : Bool → Bytes → ℕ → Outcome F × ℕ
  next infix_position src p = next_from (suc (length src)) infix_position src p
