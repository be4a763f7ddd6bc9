-- ===== src/Lexer/Progress/Branches.antt =====
-- How far the branches of `Next` read: words, names, comments, regexes and numbers.
use gnata.Base.{
  ℕ, suc, ◌+◌, ◌≤◌, ◌<◌, ◌≡◌, ◌≢◌, refl, inl, inr, true, [], ◌∷◌, Option, Bytes, arith, ◌==◌,
  length, take, drop, slice, length-drop, length-take, Option-cases, Bool-cases, count_while,
  count_while-le, nat_eq, bytes_keys,
}
use gnata.Lexer.Token.{
  eof, Outcome, token, fail, s0101, s0102, s0103, s0104, s0105, s0106, s0301, s0302, out_of_fuel,
}
use gnata.Lexer.Numbers.{is_digit, number_len, number_token, scan_number}
use gnata.Lexer.Regex.{closing_slash}
use gnata.Lexer.Next.{
  Step, done, restart, comment_len, is_flag, in_word_char, not_backtick, word_token, scan_word,
  scan_quoted_name, scan_comment, regex_token, scan_regex,
}
use gnata.Lexer.Progress.Parts.{
  rune_size_bounds, IsTokenAt, EndsWithin, comment_len-le, number_len-le, number_len-pos,
  closing_slash-lt,
}

IsTokenAt-le :
    {F : Type 0} (lo lo' hi q : ℕ) (o : Outcome F)
    → lo' ≤ lo
    → IsTokenAt lo hi q o
    → IsTokenAt lo' hi q o
IsTokenAt-le lo lo' hi q (token t) h (inl end) = inl end
IsTokenAt-le lo lo' hi q (token t) h (inr i) = inr (i.0, omega arith, i.2, i.3)
IsTokenAt-le lo lo' hi q (fail out_of_fuel) h t = t
IsTokenAt-le lo lo' hi q (fail s0101) h t = tt
IsTokenAt-le lo lo' hi q (fail s0102) h t = tt
IsTokenAt-le lo lo' hi q (fail s0103) h t = tt
IsTokenAt-le lo lo' hi q (fail s0104) h t = tt
IsTokenAt-le lo lo' hi q (fail s0105) h t = tt
IsTokenAt-le lo lo' hi q (fail s0106) h t = tt
IsTokenAt-le lo lo' hi q (fail s0301) h t = tt
IsTokenAt-le lo lo' hi q (fail s0302) h t = tt

pub EndsWithin-le :
    {F : Type 0} (lo lo' hi : ℕ) (r : Outcome F × ℕ)
    → lo' ≤ lo
    → EndsWithin lo hi r
    → EndsWithin lo' hi r
EndsWithin-le lo lo' hi (o, q) h e = (omega arith, e.1, IsTokenAt-le lo lo' hi q o h e.2)

-- A step ends within `lo` and `hi`, or goes back to the start behind `lo`.
abbrev pub IsStepOf : {F : Type 0} → ℕ → ℕ → Step F → Type 0
IsStepOf lo hi (done o q) = EndsWithin lo hi (o, q)
IsStepOf lo hi (restart q) = (lo < q) × (q ≤ hi)

module _ (F : Type 0) where
  word_token-IsWord :
      (id : Bytes) (p : ℕ)
      → ((word_token {F = F} id p).pos ≡ p)
        × ((word_token {F = F} id p).type ≢ eof)
        × (length (word_token {F = F} id p).value ≤ length id)
  unfolding word_token
  word_token-IsWord [] p = (refl, (λ e. cc), omega arith)
  word_token-IsWord (c ∷ id) p = (ground arith, (λ e. ground arith), ground arith)

  pub scan_word-IsStepOf :
      (c : ℕ) (s : Bytes) (p : ℕ) → IsStepOf p (p + suc (length s)) (scan_word {F = F} (c ∷ s) p)
  unfolding scan_word
  scan_word-IsStepOf c s p =
      let n = count_while in_word_char (c ∷ s) in
      let bound = count_while-le in_word_char (c ∷ s) in
      elim (Bool-cases (n == 0)) [
        | inl z ↦ rw z (let r = rune_size_bounds c s in (omega arith, omega arith))
        | inr nz ↦ rw nz (
            let w = word_token-IsWord (take n (c ∷ s)) p in
            let text = length-take n (c ∷ s) in
            (
              omega arith,
              omega arith,
              inr (w.1, omega (arith, w.0), ground (arith, w.0), omega (arith, w.0, w.2)),
            ))
      ]

  pub scan_quoted_name-IsStepOf :
      (s : Bytes) (p : ℕ) → IsStepOf p (p + suc (length s)) (scan_quoted_name {F = F} s p)
  unfolding scan_quoted_name
  scan_quoted_name-IsStepOf s p =
      let n = count_while not_backtick s in
      let bound = count_while-le not_backtick s in
      elim (Bool-cases (n == length s)) [
        | inl z ↦ rw z (omega arith, omega arith, tt)
        | inr nz ↦ rw nz (
          omega arith,
          ground arith,
          inr ((λ e. cc), omega arith, omega arith, omega (arith, length-take n s)),
        )
      ]

  pub scan_comment-IsStepOf :
      (s : Bytes) (p : ℕ) → IsStepOf p (p + 2 + length s) (scan_comment {F = F} s p)
  unfolding scan_comment
  scan_comment-IsStepOf s p = elim (Option-cases (comment_len s)) [
    | inl unclosed ↦ rw (unclosed, scan_comment) (omega arith, omega arith, tt)
    | inr (n, closed) ↦
        rw (closed, scan_comment) (let b = comment_len-le s n closed in (omega arith, omega arith))
  ]

  regex_token-IsStepOf :
      (src : Bytes) (p e : ℕ)
      → p < e
      → e < length src
      → IsStepOf p (length src) (regex_token {F = F} src p e)
  unfolding regex_token
  regex_token-IsStepOf src p e lo hi =
      let n = count_while is_flag (drop (e + 1) src) in
      let bound = count_while-le is_flag (drop (e + 1) src) in
      let left = length-drop (e + 1) src in
      elim (Bool-cases (length (slice src (p + 1) e) == 0)) [
        | inl z ↦ rw z (omega arith, omega arith, tt)
        | inr nz ↦
            rw nz (omega arith, omega arith, inr ((λ q. cc), omega arith, omega arith, omega arith))
      ]

  pub scan_regex-IsStepOf :
      (src : Bytes) (p : ℕ) → p < length src → IsStepOf p (length src) (scan_regex {F = F} src p)
  unfolding scan_regex
  scan_regex-IsStepOf src p h = elim (Option-cases (closing_slash src (p + 1))) [
    | inl unclosed ↦ rw (unclosed, scan_regex) (omega arith, omega arith, tt)
    | inr (e, closed) ↦
        rw (closed, scan_regex)
          (let c = closing_slash-lt src (p + 1) e closed in
            regex_token-IsStepOf src p e (omega arith) (omega arith))
  ]

module _ {F : Type 0} (parse_float : Bytes → Option F) where
  pub scan_number-EndsWithin :
      (c : ℕ) (s : Bytes) (p : ℕ)
      → is_digit c ≡ true
      → EndsWithin p (p + suc (length s)) (scan_number parse_float (c ∷ s) p)
  unfolding scan_number
  scan_number-EndsWithin c s p h =
      let lo = number_len-pos c s h in
      let hi = number_len-le (c ∷ s) in
      elim (Option-cases (parse_float (take (number_len (c ∷ s)) (c ∷ s)))) [
        | inl bad ↦ rw (bad, scan_number, number_token) (omega arith, omega arith, tt)
        | inr (f, good) ↦
            rw (good, scan_number, number_token)
              (
                omega arith,
                omega arith,
                inr (
                  (λ q. cc),
                  omega arith,
                  omega arith,
                  omega (arith, length-take (number_len (c ∷ s)) (c ∷ s)),
                ),
              )
      ]
