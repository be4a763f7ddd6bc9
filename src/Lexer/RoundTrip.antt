-- ===== src/Lexer/RoundTrip.antt =====
-- Strings written with escapes: an independent printer against `scanString`.
use gnata.Base.{
  ℕ, zero, suc, ◌+◌, ◌-◌, ◌≤◌, ◌<◌, ◌≡◌, refl, sym, ap, ap₂, ◌∙◌, ◌⊎◌, inl, inr, Bool, true, false,
  ◌||◌, [], ◌∷◌, ◌++◌, some, Bytes, arith, leb, ◌==◌, if◌then◌else◌, length, take, drop, rune_size,
  append_assoc, append-nil, length-append, Bool-cases, all, take-append-drop, length-drop,
}
use gnata.Lexer.Token.{TokenType, plain, Outcome, token}
use gnata.Lexer.Chars.{simple_escape}
use gnata.Lexer.Strings.{stop, more, escape, string_round, string_loop, scan_string}
use gnata.Lexer.Progress.Parts.{rune_size_bounds}

-- A text between quotes `q`: a backslash stands before each `q` and each backslash.
abbrev pub quoted_byte : ℕ → ℕ → Bytes
quoted_byte q c = if c == q || c == b'\\' then b'\\' ∷ c ∷ [] else c ∷ []

abbrev pub quoted : ℕ → Bytes → Bytes
quoted q [] = []
quoted q (c ∷ s) = quoted_byte q c ++ quoted q s

length-quoted : (q : ℕ) (s : Bytes) → length s ≤ length (quoted q s)
length-quoted q [] = omega arith
length-quoted q (c ∷ s) = ground (arith, length-quoted q s)

abbrev IsQuote : ℕ → Type 0
IsQuote q = (q ≡ b'"') ⊎ (q ≡ b'\'')

abbrev is_high : ℕ → Bool
is_high b = leb 0x80 b

-- All bytes of a rune behind its first are high.
rune_tail-high : (c : ℕ) (s : Bytes) → all is_high (take (rune_size (c ∷ s) - 1) s) ≡ true
unfolding rune_size
rune_tail-high c [] = ground arith
rune_tail-high c (b ∷ []) = ground arith
rune_tail-high c (b ∷ d ∷ []) = ground arith
rune_tail-high c (b ∷ d ∷ e ∷ s) = ground arith

module _ (q : ℕ) (iq : IsQuote q) (rest : Bytes) where
  abbrev printed : Bytes → Bytes
  printed s = quoted q s ++ q ∷ rest

  printed_special :
      (c : ℕ) (s : Bytes) → (c == q || c == b'\\') ≡ true → printed (c ∷ s) ≡ b'\\' ∷ c ∷ printed s
  printed_special c s h = rw h

  printed_ordinary :
      (c : ℕ) (s : Bytes) → (c == q || c == b'\\') ≡ false → printed (c ∷ s) ≡ c ∷ printed s
  printed_ordinary c s h = rw h

  -- What the first `j` bytes of a printed text are, where they are high: the text's own.
  Copies : ℕ → Bytes → Bytes → Type 0
  Copies j s t = (take j t ≡ take j s) × (drop j t ≡ printed (drop j s)) × (j ≤ length s)

  high_run :
      (j : ℕ) (s : Bytes)
      → j ≤ length (printed s)
      → all is_high (take j (printed s)) ≡ true
      → Copies j s (printed s)
  unfolding Copies
  high_run zero s l h = (refl, refl, omega arith)
  high_run (suc j) [] l h = absurd (ground arith)
  high_run (suc j) (c ∷ s) l h = elim (Bool-cases (c == q || c == b'\\')) [
    | inl special ↦
        absurd (cc (ap (λ t. all is_high (take (suc j) t)) (sym (printed_special c s special)) ∙ h))
    | inr ordinary ↦
        let e = printed_ordinary c s ordinary in
        let (a, b, d) =
          high_run j s (omega (arith, ap length e))
            (ground (arith, ap (λ t. all is_high (take (suc j) t)) e)) in
        (ap (take (suc j)) e ∙ ap (λ r. c ∷ r) a, ap (drop (suc j)) e ∙ b, omega arith)
  ]

  special-cases : (c : ℕ) → (c == q || c == b'\\') ≡ true → (c ≡ b'"') ⊎ ((c ≡ b'\'') ⊎ (c ≡ b'\\'))
  special-cases c h = ground arith

  simple_escape-special :
      (c : ℕ) → (c ≡ b'"') ⊎ ((c ≡ b'\'') ⊎ (c ≡ b'\\')) → simple_escape c ≡ some c
  unfolding simple_escape
  simple_escape-special c (inl e) = rw e
  simple_escape-special c (inr (inl e)) = rw e
  simple_escape-special c (inr (inr e)) = rw e

  module _ (F : Type 0) (start : ℕ) where
    -- An escaped byte takes one round, and gives the byte.
    round_special :
        (c : ℕ) (t : Bytes) (p : ℕ) (sb : Bytes)
        → (c == q || c == b'\\') ≡ true
        → string_round {F = F} q start (b'\\' ∷ c ∷ t) p sb ≡ more t (p + 2) (sb ++ c ∷ [])
    unfolding string_round escape
    round_special c t p sb h = ground (arith, simple_escape-special c (special-cases c h))

    -- An ordinary byte takes its rune.
    round_ordinary :
        (c : ℕ) (t : Bytes) (p : ℕ) (sb : Bytes)
        → (c == q || c == b'\\') ≡ false
        → let size = rune_size (c ∷ t) in
          string_round {F = F} q start (c ∷ t) p sb
          ≡ more (drop size (c ∷ t)) (p + size) (sb ++ take size (c ∷ t))
    unfolding string_round
    round_ordinary c t p sb h = ground arith

    round_end :
        (p : ℕ) (sb : Bytes)
        → string_round {F = F} q start (q ∷ rest) p sb
          ≡ stop (token (plain TokenType.string sb start)) (p + 1)
    unfolding string_round
    round_end p sb = ground arith

    abbrev reads_as : Bytes → ℕ → Outcome F × ℕ
    reads_as text p = (token (plain TokenType.string text start), p)

    loop_more :
        (n : ℕ) (t : Bytes) (p : ℕ) (sb : Bytes) {t' : Bytes} {p' : ℕ} {sb' : Bytes}
        → string_round {F = F} q start t p sb ≡ more t' p' sb'
        → string_loop {F = F} (suc n) q start t p sb ≡ string_loop n q start t' p' sb'
    unfolding string_loop
    loop_more n t p sb h = rw (h, string_loop)

    loop_stop :
        (n : ℕ) (p : ℕ) (sb : Bytes)
        → string_loop {F = F} (suc n) q start (q ∷ rest) p sb ≡ reads_as sb (p + 1)
    unfolding string_loop
    loop_stop n p sb = rw (round_end p sb, string_loop)

    rune_copied :
        (c k j : ℕ) (s t : Bytes)
        → k ≡ suc j
        → Copies j s t
        → (take k (c ∷ t) ≡ c ∷ take j s) × (drop k (c ∷ t) ≡ printed (drop j s))
    unfolding Copies
    rune_copied c k j s t e (a, b, l) =
        (ap (λ (n : ℕ). take n (c ∷ t)) e ∙ ap (λ r. c ∷ r) a, ap (λ (n : ℕ). drop n (c ∷ t)) e ∙ b)

    -- The loop reads a printed text to its end.
    loop_printed :
        (n : ℕ) (s : Bytes) (p : ℕ) (sb : Bytes)
        → length s < n
        → string_loop {F = F} n q start (printed s) p sb
          ≡ reads_as (sb ++ s) (p + length (printed s) - length rest)
    loop_printed zero s p sb h = elim h [ ]
    loop_printed (suc n) [] p sb h =
        loop_stop n p sb ∙ ap₂ reads_as (sym (append-nil sb)) (omega arith)
    loop_printed (suc n) (c ∷ s) p sb h = elim (Bool-cases (c == q || c == b'\\')) [
      | inl special ↦
          let e = printed_special c s special in
          ap (λ t. string_loop (suc n) q start t p sb) e
          ∙ loop_more n _ p sb (round_special c (printed s) p sb special)
          ∙ loop_printed n s (p + 2) (sb ++ c ∷ []) (omega arith)
          ∙ ap₂ reads_as (append_assoc sb (c ∷ []) s) (omega (arith, ap length e))
      | inr ordinary ↦
          let e = printed_ordinary c s ordinary in
          let k = rune_size (c ∷ printed s) in
          let bounds = rune_size_bounds c (printed s) in
          let j = k - 1 in
          let copies = high_run j s (omega arith) (rune_tail-high c (printed s)) in
          let (taken, dropped) = rune_copied c k j s (printed s) (omega arith) copies in
          ap (λ t. string_loop (suc n) q start t p sb) e
          ∙ loop_more n _ p sb (round_ordinary c (printed s) p sb ordinary)
          ∙ ap₂ (λ t text. string_loop n q start t (p + k) (sb ++ text)) dropped taken
          ∙ loop_printed n (drop j s) (p + k) (sb ++ c ∷ take j s) (omega (arith, length-drop j s))
          ∙ ap₂ reads_as
              (append_assoc sb (c ∷ take j s) (drop j s)
                ∙ ap (λ r. sb ++ c ∷ r) (take-append-drop j s))
              (omega (arith, ap length e, ap length dropped, length-drop k (c ∷ printed s)))
    ]

-- `scanString` reads back any text, whatever its bytes, from the printed form between either kind
-- of quotes, with anything behind it; the token stands at `start` and the position left is behind
-- the closing quote.
pub scan_string-quoted :
    {F : Type 0} (q start : ℕ) (s rest : Bytes) (p : ℕ)
    → (q ≡ b'"') ⊎ (q ≡ b'\'')
    → scan_string {F = F} q start (quoted q s ++ q ∷ rest) p
      ≡ (token (plain TokenType.string s start), p + length (quoted q s) + 1)
unfolding scan_string
scan_string-quoted {F} q start s rest p iq =
    loop_printed q iq rest F start (suc (length (printed q iq rest s))) s p []
      (omega (arith, length-quoted q s, length-append (quoted q s) (q ∷ rest)))
    ∙ ap (λ (n : ℕ). (token (plain TokenType.string s start), n))
        (omega (arith, length-append (quoted q s) (q ∷ rest)))
