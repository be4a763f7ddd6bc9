-- ===== src/Lexer/Skipping.antt =====
-- What `Next` passes over before it starts over.
use gnata.Base.{
  ℕ, zero, suc, ◌+◌, ◌≡◌, refl, sym, ap, subst, ◌∙◌, inl, inr, Bool, true, false, not, ◌&&◌, ◌||◌,
  [], ◌∷◌, Option, none, some, Bytes, arith, ◌==◌, drop, starts_with, Option-cases, Bool-cases,
  count_while, elem, all, all-elem,
}
use gnata.Lexer.Token.{Outcome}
use gnata.Lexer.Chars.{is_space, is_stop_char, single_char_op, two_char_op, stop_chars}
use gnata.Lexer.Numbers.{scan_number}
use gnata.Lexer.Strings.{scan_string}
use gnata.Lexer.Next.{
  Step, done, restart, comment_len, scan_word, scan_quoted_name, scan_comment, regex_token,
  scan_regex, step_of, scan_operand, scan_operator, scan_at, scan,
}

-- A byte that stops an identifier is whitespace or an operator.
is_some : {A : Type 0} → Option A → Bool
is_some none = false
is_some (some a) = true

operator_or_space : ℕ → Bool
operator_or_space c = is_space c || is_some (single_char_op c)

stop_chars-table : all operator_or_space stop_chars ≡ true
unfolding operator_or_space is_some single_char_op
stop_chars-table = refl

stop_char-operator : (c : ℕ) → is_space c ≡ false → single_char_op c ≡ none → is_stop_char c ≡ false
unfolding is_stop_char operator_or_space is_some
stop_char-operator c sp op = elim (Bool-cases (elem c stop_chars)) [
  | inl m ↦ absurd (ground (arith, all-elem operator_or_space stop_chars c stop_chars-table m))
  | inr m ↦ m
]

-- The byte at which a run ends does not continue it.
count_while_end :
    (p : ℕ → Bool) (s : Bytes) {c : ℕ} {t : Bytes} → drop (count_while p s) s ≡ c ∷ t → p c ≡ false
count_while_end p [] h = cc
count_while_end p (d ∷ s) h = elim (Bool-cases (p d)) [
  | inl t ↦ count_while_end p s (rw t at h)
  | inr f ↦ cc (f, rw f at h)
]

drop-nil : (n : ℕ) → drop {A = ℕ} n [] ≡ []
drop-nil zero = refl
drop-nil (suc n) = refl

drop-add : (m n : ℕ) (s : Bytes) → drop (m + n) s ≡ drop n (drop m s)
drop-add zero n s = let e : 0 + n ≡ n = omega arith in rw e
drop-add (suc m) n [] = drop-nil (suc m + n) ∙ sym (drop-nil n)
drop-add (suc m) n (c ∷ s) = let e : suc m + n ≡ suc (m + n) = omega arith in rw e (drop-add m n s)

-- A step that returns.
abbrev Returns : {F : Type 0} → Step F → Type 0
Returns (done o q) = Unit
Returns (restart q) = ⊥

module _ (F : Type 0) where
  scan_word-Returns :
      (c : ℕ) (s : Bytes) (p : ℕ) → is_stop_char c ≡ false → Returns (scan_word {F = F} (c ∷ s) p)
  unfolding scan_word
  scan_word-Returns c s p h = rw h (ground arith)

  scan_regex-Returns : (src : Bytes) (p : ℕ) → Returns (scan_regex {F = F} src p)
  unfolding scan_regex regex_token
  scan_regex-Returns src p = ground arith

-- A comment stands at `p`, with `body` behind its opening, and `q` is behind its end.
pub record CommentAt (p : ℕ) (s : Bytes) (q : ℕ) : Type 0 where
  pub body : Bytes
  pub size : ℕ
  pub opening : s ≡ b'/' ∷ b'*' ∷ body
  pub closing : comment_len body ≡ some size
  pub behind : q ≡ p + 2 + size

opens-comment :
    (c : ℕ) (s : Bytes)
    → (c == b'/' && starts_with b'*' s) ≡ true
    → (t : Bytes) × (b'*' ∷ t ≡ s) × (b'/' ≡ c)
opens-comment c [] h = absurd (ground arith)
opens-comment c (d ∷ s) h = (s, ground arith, ground arith)

module _ (F : Type 0) where
  scan_comment-CommentAt :
      (body : Bytes) (p q : ℕ)
      → scan_comment {F = F} body p ≡ restart q
      → CommentAt p (b'/' ∷ b'*' ∷ body) q
  unfolding scan_comment
  scan_comment-CommentAt body p q h = elim (Option-cases (comment_len body)) [
    | inl unclosed ↦ cc (rw (unclosed, scan_comment) at h)
    | inr (n, closed) ↦ record {
      body = body;
      size = n;
      opening = refl;
      closing = closed;
      behind = cc (rw (closed, scan_comment) at h);
    }
  ]

module _ {F : Type 0} (parse_float : Bytes → Option F) where
  step_of-Returns : (r : Outcome F × ℕ) → Returns (step_of r)
  step_of-Returns (o, q) = tt

  scan_operand-Returns :
      (c : ℕ) (s : Bytes) (p : ℕ)
      → is_stop_char c ≡ false
      → Returns (scan_operand parse_float c s p)
  unfolding scan_operand scan_quoted_name
  scan_operand-Returns c s p h = ground (
    arith,
    scan_word-Returns F c s p h,
    step_of-Returns (scan_string c p s (p + 1)),
    step_of-Returns (scan_number parse_float (c ∷ s) p),
  )

  scan_operator-Returns :
      (c : ℕ) (s : Bytes) (p : ℕ) → is_space c ≡ false → Returns (scan_operator parse_float c s p)
  unfolding scan_operator
  scan_operator-Returns c s p h = elim (Option-cases (two_char_op c s)) [
    | inr (t, two) ↦ rw (two, scan_operator) tt
    | inl not_two ↦
        rw (not_two, scan_operator)
          (elim (Option-cases (single_char_op c)) [
            | inr (t, single) ↦ rw (single, scan_operator) tt
            | inl not_single ↦
                rw (not_single, scan_operator)
                  (scan_operand-Returns c s p (stop_char-operator c h not_single))
          ])
  ]

  scan_at-CommentAt :
      (infix_position : Bool) (src : Bytes) (p : ℕ) (s : Bytes) (q : ℕ)
      → ((c : ℕ) (t : Bytes) → s ≡ c ∷ t → is_space c ≡ false)
      → scan_at parse_float infix_position src p s ≡ restart q
      → CommentAt p s q
  unfolding scan_at
  scan_at-CommentAt infix_position src p [] q sp h = cc
  scan_at-CommentAt infix_position src p (c ∷ s) q sp h =
      elim (Bool-cases (c == b'/' && starts_with b'*' s)) [
        | inl comment ↦
            let (t, es, ec) = opens-comment c s comment in
            let o : CommentAt p (b'/' ∷ b'*' ∷ t) q =
              scan_comment-CommentAt F t p q
                (ap (λ r. scan_comment (drop 1 r) p) es ∙ (rw comment at h)) in
            subst (λ r. CommentAt p r q) (λ i. ec i ∷ es i) o
        | inr n ↦ absurd (
            subst Returns (rw n at h) (elim (Bool-cases (c == b'/' && not infix_position)) [
              | inl r ↦ rw r (scan_regex-Returns F src p)
              | inr nr ↦ rw nr (scan_operator-Returns c s p (sp c s refl))
            ]))
      ]

  -- `Next` goes back to its label `start` only behind a comment that whitespace alone separates
  -- from the position: no byte of the source is skipped as an unrecognised character.
  pub scan-CommentAt :
      (infix_position : Bool) (src : Bytes) (p q : ℕ)
      → scan parse_float infix_position src p ≡ restart q
      → let start = p + count_while is_space (drop p src) in CommentAt start (drop start src) q
  unfolding scan
  scan-CommentAt infix_position src p q h =
      let n = count_while is_space (drop p src) in
      scan_at-CommentAt infix_position src (p + n) (drop (p + n) src) q
        (λ c t e. count_while_end is_space (drop p src) (sym (drop-add p n src) ∙ e)) h
