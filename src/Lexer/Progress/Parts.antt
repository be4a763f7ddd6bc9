-- ===== src/Lexer/Progress/Parts.antt =====
-- How far the parts of `Next` read: strings, numbers, comments and regexes.
use gnata.Base.{
  ℕ, zero, suc, ◌+◌, ◌-◌, ◌≤◌, ◌<◌, ◌≡◌, ◌≢◌, refl, sym, ap, subst, ◌∙◌, ◌⊎◌, inl, inr, true, false,
  [], ◌∷◌, Option, none, some, Bytes, arith, ltb, length, take, drop, rune_size, length-drop,
  length-take, length-append, encode_rune, leb, starts_with, within, ◌&&◌, ◌++◌, ◌*◌, Bool, not,
  ◌==◌, none-ne-some, eq_of_some-eq-some, Option-cases, Bool-cases, ℤ, pos, count_while-le, get_or,
}
use gnata.Lexer.Token.{eof, Outcome, token, fail, out_of_fuel}
use gnata.Lexer.Strings.{
  hex_value, low_surrogate, Round, stop, more, escape, code_unit, unicode_escape, string_round,
  string_loop, scan_string,
}
use gnata.Lexer.Numbers.{is_digit, integer_len, fraction_len, exponent_len, number_len}
use gnata.Lexer.Regex.{
  ends_at, regex_end_from, regex_end, lenient_from, lenient_regex_end, closing_slash, lenient_round,
  Brackets, is_escaped_at, next_depth,
}
use gnata.Lexer.Chars.{simple_escape}
use gnata.Lexer.Next.{comment_cons, comment_len}

pub rune_size_bounds :
    (c : ℕ) (s : Bytes) → (1 ≤ rune_size (c ∷ s)) × (rune_size (c ∷ s) ≤ suc (length s))
unfolding rune_size
rune_size_bounds c [] = ground arith
rune_size_bounds c (b ∷ []) = ground arith
rune_size_bounds c (b ∷ d ∷ []) = ground arith
rune_size_bounds c (b ∷ d ∷ e ∷ s) = ground arith

module _ {F : Type 0} where
  -- What `Next` may return from `lo` on in a source that ends at `hi`: a token that begins at or
  -- behind `lo` and before the position left, and whose text is no longer than what lies between
  -- the two, the token for the end, or an error of the source.
  abbrev pub IsTokenAt : ℕ → ℕ → ℕ → Outcome F → Type 0
  IsTokenAt lo hi q (token t) =
      ((t.type ≡ eof) × (q ≡ hi))
      ⊎ ((t.type ≢ eof) × (lo ≤ t.pos) × (t.pos < q) × (t.pos + length t.value ≤ q))
  IsTokenAt lo hi q (fail out_of_fuel) = ⊥
  IsTokenAt lo hi q (fail _) = Unit

  abbrev pub EndsWithin : ℕ → ℕ → Outcome F × ℕ → Type 0
  EndsWithin lo hi (o, q) = (lo ≤ q) × (q ≤ hi) × IsTokenAt lo hi q o

  -- A round of `scanString` returns within the source, or leaves the rest of it, with a text that
  -- fits behind the quote at `start`.
  abbrev Leaves : ℕ → ℕ → ℕ → Round F → Type 0
  Leaves start lo hi (stop o q) = (lo ≤ q) × (q ≤ hi) × IsTokenAt start hi q o
  Leaves start lo hi (more s q sb) = (lo ≤ q) × (q + length s ≡ hi) × (start + length sb < q)

length-encode_rune : (r : ℕ) → length (encode_rune r) ≤ 4
unfolding encode_rune
length-encode_rune r = ground arith

length_encoded : (sb : Bytes) (k : ℕ) → length (sb ++ encode_rune k) ≤ length sb + 4
length_encoded sb k = omega (arith, length-append sb (encode_rune k), length-encode_rune k)

module _ (F : Type 0) where
  code_unit-Leaves :
      (start r : ℕ) (s : Bytes) (p : ℕ) (sb : Bytes)
      → start + length sb + 4 < p
      → Leaves start p (p + length s) (code_unit {F = F} r s p sb)
  unfolding code_unit
  code_unit-Leaves start r s p sb h =
      elim (Bool-cases
        (is_high && (leb 6 (length s) && (starts_with b'\\' s && starts_with b'u' (drop 1 s))))) [
          | inr n ↦ rw n (alone r)
          | inl y ↦ rw y (elim (Option-cases (low_surrogate (drop 2 s))) [
            | inl z ↦ rw (z, code_unit) (alone r)
            | inr (l, z) ↦
                rw (z, code_unit)
                  (
                    omega arith,
                    ground (arith, length-drop 6 s),
                    omega
                        (arith, length_encoded sb (0x10000 + (r - 0xD800) * 0x400 + (l - 0xDC00))),
                  )
          ])
        ]
    where
      is_high : Bool
      is_high = within 0xD800 0xDBFF r

      alone :
          (k : ℕ)
          → (p ≤ p) × (p + length s ≡ p + length s) × (start + length (sb ++ encode_rune k) < p)
      alone k = (omega arith, refl, omega (arith, length_encoded sb k))

  Leaves-le :
      (start lo lo' hi : ℕ) (r : Round F) → lo' ≤ lo → Leaves start lo hi r → Leaves start lo' hi r
  Leaves-le start lo lo' hi (stop o q) h l = (omega arith, l.1, l.2)
  Leaves-le start lo lo' hi (more s q sb) h l = (omega arith, l.1, l.2)

  unicode_escape-Leaves :
      (start : ℕ) (s : Bytes) (p : ℕ) (sb : Bytes)
      → start + length sb < p
      → Leaves start p (p + length s) (unicode_escape {F = F} s p sb)
  unfolding unicode_escape
  unicode_escape-Leaves start s p sb h =
      let r : Round F = code_unit (hex_value 0 (take 4 s)) (drop 4 s) (p + 4) sb in
      let long = length-take 4 s in
      let left = length-drop 4 s in
      elim (Bool-cases (ltb (length (take 4 s)) 4)) [
        | inl short ↦ rw short (ground arith)
        | inr full ↦
            let e : p + 4 + length (drop 4 s) ≡ p + length s = ground arith in
            let unit =
              subst (λ hi. Leaves start (p + 4) hi r) e
                (code_unit-Leaves start (hex_value 0 (take 4 s)) (drop 4 s) (p + 4) sb
                  (omega arith)) in
            rw full (ground (arith, Leaves-le start (p + 4) p (p + length s) r (omega arith) unit))
      ]

  escape-Leaves :
      (start : ℕ) (s : Bytes) (p : ℕ) (sb : Bytes)
      → start + length sb < p
      → Leaves start p (p + length s) (escape {F = F} s p sb)
  unfolding escape
  escape-Leaves start [] p sb h = ground arith
  escape-Leaves start (c ∷ s) p sb h = elim (Option-cases (simple_escape c)) [
    | inr (b, e) ↦
        rw (e, escape) (omega arith, omega arith, omega (arith, length-append sb (b ∷ [])))
    | inl e ↦
        rw (e, escape)
          (elim (Bool-cases (not (c == b'u'))) [
            | inl n ↦ rw n (omega arith, omega arith, tt)
            | inr u ↦ rw u (
                let q : p + 1 + length s ≡ p + suc (length s) = omega arith in
                Leaves-le start (p + 1) p (p + suc (length s)) _ (omega arith) (
                  subst (λ hi. Leaves {F = F} start (p + 1) hi (unicode_escape s (p + 1) sb)) q
                    (unicode_escape-Leaves start s (p + 1) sb (omega arith))))
          ])
  ]

  string_round-Leaves :
      (quote start c : ℕ) (s : Bytes) (p : ℕ) (sb : Bytes)
      → start + length sb < p
      → Leaves start (suc p) (p + suc (length s)) (string_round {F = F} quote start (c ∷ s) p sb)
  unfolding string_round
  string_round-Leaves quote start c s p sb h = elim (Bool-cases (c == quote)) [
    | inl e ↦
        rw e (omega arith, omega arith, inr ((λ q. cc), omega arith, omega arith, omega arith))
    | inr e ↦ rw e (elim (Bool-cases (not (c == b'\\'))) [
      | inl n ↦ rw n (
          let size = rune_size (c ∷ s) in
          let b = rune_size_bounds c s in
          let left = length-drop size (c ∷ s) in
          let taken = length-take size (c ∷ s) in
          let text = length-append sb (take size (c ∷ s)) in
          (omega arith, omega arith, omega arith))
      | inr n ↦ rw n (
          let q : p + 1 + length s ≡ p + suc (length s) = omega arith in
          Leaves-le start (p + 1) (suc p) (p + suc (length s)) _ (omega arith) (
            subst (λ hi. Leaves {F = F} start (p + 1) hi (escape s (p + 1) sb)) q
              (escape-Leaves start s (p + 1) sb (omega arith))))
    ])
  ]

  string_loop-EndsWithin :
      (n quote start : ℕ) (s : Bytes) (p : ℕ) (sb : Bytes)
      → length s < n
      → start + length sb < p
      → EndsWithin start (p + length s) (string_loop {F = F} n quote start s p sb)
  unfolding string_loop
  string_loop-EndsWithin zero quote start s p sb h b = elim h [ ]
  string_loop-EndsWithin (suc n) quote start [] p sb h b =
      unfold string_round in (omega arith, omega arith, tt)
  string_loop-EndsWithin (suc n) quote start (c ∷ s) p sb h b =
      go (string_round quote start (c ∷ s) p sb) (string_round-Leaves quote start c s p sb b)
        (λ s' p' sb' h' b'. string_loop-EndsWithin n quote start s' p' sb' h' b')
    where
      go :
          (r : Round F)
          → Leaves start (suc p) (p + suc (length s)) r
          → ((s' : Bytes) (p' : ℕ) (sb' : Bytes)
              → length s' < n
              → start + length sb' < p'
              → EndsWithin {F = F} start
                  (p' + length s')
                  (string_loop {F = F} n quote start s' p' sb'))
          → EndsWithin {F = F} start (p + suc (length s)) (elim r [
            | stop o p' ↦ (o, p')
            | more s' p' sb' ↦ string_loop {F = F} n quote start s' p' sb'
          ])
      go (stop o q) l ih = (omega arith, l.1, l.2)
      go (more s' q sb') l ih =
          subst (λ hi. EndsWithin {F = F} start hi (string_loop n quote start s' q sb')) l.1
            (ih s' q sb' (omega arith) (omega arith))

  pub scan_string-EndsWithin :
      (quote start : ℕ) (s : Bytes) (p : ℕ)
      → start < p
      → EndsWithin start (p + length s) (scan_string {F = F} quote start s p)
  unfolding scan_string
  scan_string-EndsWithin quote start s p h =
      string_loop-EndsWithin (suc (length s)) quote start s p [] (omega arith) (omega arith)

comment_cons-le :
    (c : ℕ) (s : Bytes) (o : Option ℕ) (n : ℕ)
    → ((m : ℕ) → o ≡ some m → m ≤ length s)
    → comment_cons c s o ≡ some n
    → n ≤ suc (length s)
comment_cons-le c [] none n ih h = ground arith
comment_cons-le c [] (some m) n ih h = ground (arith, ih m refl)
comment_cons-le c (d ∷ s) none n ih h = ground arith
comment_cons-le c (d ∷ s) (some m) n ih h = ground (arith, ih m refl)

pub comment_len-le : (s : Bytes) (n : ℕ) → comment_len s ≡ some n → n ≤ length s
unfolding comment_len
comment_len-le [] n h = absurd (none-ne-some (sym h))
comment_len-le (c ∷ s) n h = comment_cons-le c s (comment_len s) n (comment_len-le s) h

pub integer_len-le : (s : Bytes) → integer_len s ≤ length s
unfolding integer_len
integer_len-le [] = omega arith
integer_len-le (c ∷ s) = ground (arith, count_while-le is_digit (c ∷ s))

pub fraction_len-le : (s : Bytes) → fraction_len s ≤ length s
unfolding fraction_len
fraction_len-le [] = omega arith
fraction_len-le (c ∷ s) = ground (arith, count_while-le is_digit s)

pub exponent_len-le : (s : Bytes) → exponent_len s ≤ length s
unfolding exponent_len
exponent_len-le [] = omega arith
exponent_len-le (c ∷ []) = ground arith
exponent_len-le (c ∷ d ∷ s) =
    ground (arith, count_while-le is_digit s, count_while-le is_digit (d ∷ s))

pub number_len-le : (s : Bytes) → number_len s ≤ length s
unfolding number_len
number_len-le s =
    let i = integer_len s in
    let f = fraction_len (drop i s) in
    omega (
      arith,
      integer_len-le s,
      fraction_len-le (drop i s),
      exponent_len-le (drop (i + f) s),
      length-drop i s,
      length-drop (i + f) s,
    )

integer_len-pos : (c : ℕ) (s : Bytes) → is_digit c ≡ true → 0 < integer_len (c ∷ s)
unfolding integer_len
integer_len-pos c s h = ground arith

pub number_len-pos : (c : ℕ) (s : Bytes) → is_digit c ≡ true → 0 < number_len (c ∷ s)
unfolding number_len
number_len-pos c s h = omega (arith, integer_len-pos c s h)

pub regex_end_from-lt :
    (src : Bytes) (start p : ℕ) (depth : ℤ) (n e : ℕ)
    → regex_end_from src start p depth n ≡ some e
    → (p ≤ e) × (e < p + n) × (get_or src e 0 ≡ b'/') × (is_escaped_at src start e ≡ false)
unfolding regex_end_from
regex_end_from-lt src start p depth zero e h = absurd (none-ne-some (sym h))
regex_end_from-lt src start p depth (suc n) e h = elim (Bool-cases (ends_at src start p depth)) [
  | inl here ↦ ground arith
  | inr on ↦
      let (a, b, q, r) =
        regex_end_from-lt src start (p + 1) (next_depth src p depth) n e (rw on at h) in
      (omega arith, omega arith, q, r)
]

lenient_round-none :
    (src : Bytes) (start p : ℕ) (b : Brackets)
    → lenient_round src start p b ≡ none
    → (is_escaped_at src start p ≡ false) × (get_or src p 0 ≡ b'/')
lenient_round-none src start p b h = (ground arith, ground arith)

lenient_from-lt :
    (src : Bytes) (start p : ℕ) (b : Brackets) (n e : ℕ)
    → lenient_from src start p b n ≡ some e
    → (p ≤ e) × (e < p + n) × (get_or src e 0 ≡ b'/') × (is_escaped_at src start e ≡ false)
unfolding lenient_from
lenient_from-lt src start p b zero e h = absurd (none-ne-some (sym h))
lenient_from-lt src start p b (suc n) e h = elim (Option-cases (lenient_round src start p b)) [
  | inl here ↦
      let (unescaped, slash) = lenient_round-none src start p b here in
      let q : p ≡ e = eq_of_some-eq-some (rw (here, lenient_from) at h) in
      (
        omega arith,
        omega arith,
        ap (λ (k : ℕ). get_or src k 0) (sym q) ∙ slash,
        ap (is_escaped_at src start) (sym q) ∙ unescaped,
      )
  | inr (b', on) ↦
      let (a, c, q, r) = lenient_from-lt src start (p + 1) b' n e (rw (on, lenient_from) at h) in
      (omega arith, omega arith, q, r)
]

-- What is said of the `/` that ends a regex.
abbrev IsClosing : Bytes → ℕ → ℕ → Type 0
IsClosing src start e =
    (start ≤ e) × (e < length src) × (get_or src e 0 ≡ b'/') × (is_escaped_at src start e ≡ false)

lenient_regex_end-lt :
    (src : Bytes) (start e : ℕ) → lenient_regex_end src start ≡ some e → IsClosing src start e
unfolding lenient_regex_end
lenient_regex_end-lt src start e h =
    let (a, b, q, r) = lenient_from-lt src start start _ (length src - start) e h in
    (a, omega arith, q, r)

regex_end-lt : (src : Bytes) (start e : ℕ) → regex_end src start ≡ some e → IsClosing src start e
unfolding regex_end
regex_end-lt src start e h =
    let (a, b, q, r) = regex_end_from-lt src start start (pos 0) (length src - start) e h in
    (a, omega arith, q, r)

pub closing_slash-lt :
    (src : Bytes) (start e : ℕ) → closing_slash src start ≡ some e → IsClosing src start e
unfolding closing_slash
closing_slash-lt src start e h = elim (Option-cases (regex_end src start)) [
  | inl unclosed ↦ lenient_regex_end-lt src start e (rw (unclosed, closing_slash) at h)
  | inr (e', closed) ↦ regex_end-lt src start e (closed ∙ rw (closed, closing_slash) at h)
]
