-- ===== src/Lexer/Progress/Total.antt =====
-- `Next` as a whole, with the fuel of the model.
use gnata.Base.{
  ℕ, zero, suc, ◌+◌, ◌-◌, ◌≤◌, ◌<◌, ◌≡◌, ◌≢◌, refl, sym, subst, inl, inr, Bool, true, false, not,
  ◌&&◌, ◌||◌, [], ◌∷◌, Option, some, Bytes, arith, ◌==◌, length, drop, starts_with, length-drop,
  length-take, none-ne-some, Option-cases, Bool-cases, count_while, count_while-le, lookup, nat_eq,
  bytes_keys, List, Eq,
}
use gnata.Lexer.Token.{TokenType, eof, Outcome}
use gnata.Lexer.Chars.{is_space, single_char_op, two_char_op, single_char_ops, two_char_ops}
use gnata.Lexer.Strings.{scan_string}
use gnata.Lexer.Numbers.{is_digit}
use gnata.Lexer.Next.{
  Step, done, restart, scan_comment, step_of, scan_operand, scan_operator, scan_at, scan, next_from,
  next,
}
use gnata.Lexer.Progress.Parts.{EndsWithin, scan_string-EndsWithin}
use gnata.Lexer.Progress.Branches.{
  EndsWithin-le, IsStepOf, scan_word-IsStepOf, scan_quoted_name-IsStepOf, scan_comment-IsStepOf,
  scan_regex-IsStepOf, scan_number-EndsWithin,
}

-- The operator tables hold no token for the end.
abbrev is_eof : TokenType → Bool
is_eof eof = true
is_eof _ = false

ne-eof : (t : TokenType) → is_eof t ≡ false → t ≢ eof
ne-eof t h e = cc (rw e at h)

abbrev has_no_eof {ℓ} : {K : Type ℓ} → List (K × TokenType) → Bool
has_no_eof [] = true
has_no_eof ((k, t) ∷ m) = not (is_eof t) && has_no_eof m

lookup-ne-eof {ℓ} :
    {K : Type ℓ} ⦃e : Eq K⦄ (k : K) (m : List (K × TokenType)) (t : TokenType)
    → has_no_eof m ≡ true
    → lookup k m ≡ some t
    → is_eof t ≡ false
lookup-ne-eof k [] t h q = cc
lookup-ne-eof k ((j, u) ∷ m) t h q = ground (arith, lookup-ne-eof k m t)

single_char_op-ne-eof : (c : ℕ) (t : TokenType) → single_char_op c ≡ some t → t ≢ eof
unfolding single_char_op
single_char_op-ne-eof c t h = ne-eof t (lookup-ne-eof c single_char_ops t refl h)

two_char_op-ne-eof :
    (c : ℕ) (s : Bytes) (t : TokenType) → two_char_op c s ≡ some t → (t ≢ eof) × (1 ≤ length s)
unfolding two_char_op
two_char_op-ne-eof c [] t h = absurd (none-ne-some (sym h))
two_char_op-ne-eof c (d ∷ s) t h =
    (ne-eof t (lookup-ne-eof (c ∷ d ∷ []) two_char_ops t refl h), omega arith)

module _ {F : Type 0} (parse_float : Bytes → Option F) where
  step_of-IsStepOf :
      (lo hi : ℕ) (r : Outcome F × ℕ) → EndsWithin lo hi r → IsStepOf lo hi (step_of r)
  step_of-IsStepOf lo hi (o, q) h = h

  scan_operand-IsStepOf :
      (c : ℕ) (s : Bytes) (p : ℕ) → IsStepOf p (p + suc (length s)) (scan_operand parse_float c s p)
  unfolding scan_operand
  scan_operand-IsStepOf c s p =
      let e : p + 1 + length s ≡ p + suc (length s) = omega arith in
      elim (Bool-cases (c == b'"' || c == b'\'')) [
        | inl q ↦ rw q (
            step_of-IsStepOf p _ _ (
              subst (λ hi. EndsWithin {F = F} p hi (scan_string c p s (p + 1))) e
                (scan_string-EndsWithin F c p s (p + 1) (omega arith))))
        | inr nq ↦ rw nq (elim (Bool-cases (is_digit c)) [
          | inl d ↦ rw d (step_of-IsStepOf p _ _ (scan_number-EndsWithin parse_float c s p d))
          | inr nd ↦ rw nd (elim (Bool-cases (c == b'`')) [
            | inl b ↦ rw b (scan_quoted_name-IsStepOf F s p)
            | inr nb ↦ rw nb (scan_word-IsStepOf F c s p)
          ])
        ])
      ]

  scan_operator-IsStepOf :
      (c : ℕ) (s : Bytes) (p : ℕ)
      → IsStepOf p (p + suc (length s)) (scan_operator parse_float c s p)
  unfolding scan_operator
  scan_operator-IsStepOf c s p = elim (Option-cases (two_char_op c s)) [
    | inr (t, two) ↦
        rw (two, scan_operator)
          (let (ne, l) = two_char_op-ne-eof c s t two in
            (
              omega arith,
              omega arith,
              inr (ne, omega arith, omega arith, omega (arith, length-take 1 s)),
            ))
    | inl not_two ↦
        rw (not_two, scan_operator)
          (elim (Option-cases (single_char_op c)) [
            | inr (t, single) ↦
                rw (single, scan_operator)
                  (
                    omega arith,
                    omega arith,
                    inr (single_char_op-ne-eof c t single, omega arith, omega arith, omega arith),
                  )
            | inl not_single ↦ rw (not_single, scan_operator) (scan_operand-IsStepOf c s p)
          ])
  ]

  scan_at-IsStepOf :
      (infix_position : Bool) (src : Bytes) (p : ℕ) (s : Bytes)
      → p + length s ≡ length src
      → IsStepOf p (length src) (scan_at parse_float infix_position src p s)
  unfolding scan_at
  scan_at-IsStepOf infix_position src p [] h = (omega arith, omega arith, inl (refl, omega arith))
  scan_at-IsStepOf infix_position src p (c ∷ s) h =
      elim (Bool-cases (c == b'/' && starts_with b'*' s)) [
        | inl comment ↦ rw comment (in_comment s comment h)
        | inr n ↦ rw n (elim (Bool-cases (c == b'/' && not infix_position)) [
          | inl r ↦ rw r (scan_regex-IsStepOf F src p (omega arith))
          | inr nr ↦ rw nr (
              subst (λ hi. IsStepOf p hi (scan_operator parse_float c s p)) h
                (scan_operator-IsStepOf c s p))
        ])
      ]
    where
      in_comment :
          (s : Bytes)
          → (c == b'/' && starts_with b'*' s) ≡ true
          → p + suc (length s) ≡ length src
          → IsStepOf {F = F} p (length src) (scan_comment (drop 1 s) p)
      in_comment [] t e = absurd (ground arith)
      in_comment (d ∷ s) t e =
          let f : p + 2 + length s ≡ length src = omega arith in
          subst (λ hi. IsStepOf {F = F} p hi (scan_comment s p)) f (scan_comment-IsStepOf F s p)

  IsStepOf-le : (lo lo' hi : ℕ) (r : Step F) → lo' ≤ lo → IsStepOf lo hi r → IsStepOf lo' hi r
  IsStepOf-le lo lo' hi (done o q) h t = EndsWithin-le lo lo' hi (o, q) h t
  IsStepOf-le lo lo' hi (restart q) h t = (omega arith, t.1)

  -- One round from the label `start`: it ends in the source, or starts again further on.
  pub scan-IsStepOf :
      (infix_position : Bool) (src : Bytes) (p : ℕ)
      → p ≤ length src
      → IsStepOf p (length src) (scan parse_float infix_position src p)
  unfolding scan
  scan-IsStepOf infix_position src p h =
      let n = count_while is_space (drop p src) in
      let bound = count_while-le is_space (drop p src) in
      let left = length-drop p src in
      let behind = length-drop (p + n) src in
      IsStepOf-le (p + n) p (length src)
        (scan_at parse_float infix_position src (p + n) (drop (p + n) src)) (omega arith)
        (scan_at-IsStepOf infix_position src (p + n) (drop (p + n) src) (omega arith))

  next_from-EndsWithin :
      (n : ℕ) (infix_position : Bool) (src : Bytes) (p : ℕ)
      → p ≤ length src
      → length src - p < n
      → EndsWithin p (length src) (next_from parse_float n infix_position src p)
  unfolding next_from
  next_from-EndsWithin zero infix_position src p h f = elim f [ ]
  next_from-EndsWithin (suc n) infix_position src p h f =
      go (scan parse_float infix_position src p) (scan-IsStepOf infix_position src p h)
        (λ q h' f'. next_from-EndsWithin n infix_position src q h' f')
    where
      go :
          (r : Step F)
          → IsStepOf p (length src) r
          → ((q : ℕ)
              → q ≤ length src
              → length src - q < n
              → EndsWithin q (length src) (next_from parse_float n infix_position src q))
          → EndsWithin {F = F} p (length src) (elim r [
            | done o q ↦ (o, q)
            | restart q ↦ next_from parse_float n infix_position src q
          ])
      go (done o q) t ih = t
      go (restart q) t ih = EndsWithin-le q p (length src) _ (omega arith) (ih q t.1 (omega arith))

  -- From any position in the source, `Next` returns (the model's fuel is enough for its
  -- restarts) and leaves a position in the source, not before the one it started at. What it
  -- returns is an error of the source, or the token for the end, at the end of the source, or
  -- another token, which begins at or behind the old position and before the new one, and whose
  -- text is no longer than the source from its beginning to the new position.
  pub next-EndsWithin :
      (infix_position : Bool) (src : Bytes) (p : ℕ)
      → p ≤ length src
      → EndsWithin p (length src) (next parse_float infix_position src p)
  unfolding next
  next-EndsWithin infix_position src p h =
      next_from-EndsWithin (suc (length src)) infix_position src p h (omega arith)
