-- ===== src/Integer/Decimal/Digits.antt =====
-- The digits that `strconv.FormatInt` writes and the zeros before them.
use gnata.Base.{
  ℕ, zero, suc, ◌+◌, ◌-◌, ◌*◌, ◌/◌, ◌%◌, ◌^◌, ◌<◌, ◌≡◌, refl, ap, ◌∙◌, inl, inr, true, [], ◌∷◌,
  ◌++◌, arith, ltb, all, Bool-cases, pos, some,
}
use gnata.Integer.{Runes}
use gnata.Integer.Decimal.{is_ascii_digit, digits_from, format_int, zeros}
use gnata.Integer.Decimal.Grouping.{digits_value, digits_only, parse_int}

-- Written before `text`, the digits add the number in front of it.
value-digits_from :
    (fuel n : ℕ) (text : Runes)
    → n < fuel
    → digits_value 0 (digits_from fuel n text) ≡ digits_value n text
unfolding digits_from digits_value
value-digits_from zero n text h = omega arith
value-digits_from (suc fuel) n text h = elim (Bool-cases (ltb n 10)) [
  | inl e ↦
      (let digit : 0 * 10 + (b'0' + n - b'0') ≡ n = omega arith in
        rw e (ap (λ m. digits_value m text) digit))
  | inr e ↦
      (let big : 10 - 1 < n = ground (arith, e) in
        let digit : n / 10 * 10 + (b'0' + n % 10 - b'0') ≡ n = omega arith in
        rw e (
          value-digits_from fuel (n / 10) ((b'0' + n % 10) ∷ text) (omega arith)
          ∙ ap (λ m. digits_value m text) digit))
]

pub value-format_int : (n : ℕ) → digits_value 0 (format_int n) ≡ n
unfolding format_int digits_value
value-format_int n = value-digits_from (suc n) n [] (omega arith)

digits_from-digits :
    (fuel n : ℕ) (text : Runes)
    → n < fuel
    → all is_ascii_digit text ≡ true
    → digits_only (digits_from fuel n text) ≡ true
unfolding digits_from
digits_from-digits zero n text h k = absurd (omega arith)
digits_from-digits (suc fuel) n text h k = elim (Bool-cases (ltb n 10)) [
  | inl e ↦ rw e (ground (arith, e, k))
  | inr e ↦
      (let big : 10 - 1 < n = ground (arith, e) in
        rw e (
          digits_from-digits fuel (n / 10) ((b'0' + n % 10) ∷ text) (omega arith)
            (ground (arith, k))))
]

digits_only-cons : (s : Runes) → digits_only s ≡ true → digits_only (b'0' ∷ s) ≡ true
digits_only-cons [] h = refl
digits_only-cons (c ∷ s) h = h

zeros-digits : (k : ℕ) (s : Runes) → digits_only s ≡ true → digits_only (zeros k ++ s) ≡ true
unfolding zeros
zeros-digits zero s h = h
zeros-digits (suc k) s h = digits_only-cons (zeros k ++ s) (zeros-digits k s h)

value-zeros : (k : ℕ) (s : Runes) → digits_value 0 (zeros k ++ s) ≡ digits_value 0 s
unfolding zeros digits_value
value-zeros zero s = refl
value-zeros (suc k) s = value-zeros k s

-- Padding keeps the value, and what is written is a number.
pub padded :
    (k n : ℕ)
    → (digits_only (zeros k ++ format_int n) ≡ true)
      × (digits_value 0 (zeros k ++ format_int n) ≡ n)
unfolding format_int
padded k n = (
  zeros-digits k (format_int n) (digits_from-digits (suc n) n [] (omega arith) refl),
  value-zeros k (format_int n) ∙ value-format_int n,
)

pub parse_int-digits :
    (s : Runes)
    → digits_only s ≡ true
    → digits_value 0 s < 2 ^ 63
    → parse_int s ≡ some (pos (digits_value 0 s))
unfolding parse_int
parse_int-digits [] h k = cc
parse_int-digits (c ∷ s) h k = ground (arith, h, k)
