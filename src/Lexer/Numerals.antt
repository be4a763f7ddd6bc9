-- ===== src/Lexer/Numerals.antt =====
-- The text of a number token against the form of a JSON number.
use gnata.Base.{
  ℕ, zero, suc, ◌+◌, ◌<◌, ◌≡◌, ◌≢◌, refl, sym, ap, subst, ◌∙◌, ◌⊎◌, inl, inr, true, ◌&&◌, ◌||◌, [],
  ◌∷◌, ◌++◌, Bytes, arith, ◌==◌, ==_iff, length, take, drop, append_assoc, Bool-cases, count_while,
  all, all-take-count_while,
}
use gnata.Lexer.Numbers.{
  is_digit, digit_next, integer_len, fraction_len, sign_len, exponent_len, number_len,
}

-- At least one digit, and digits alone.
abbrev IsDigits : Bytes → Type 0
IsDigits s = (all is_digit s ≡ true) × (0 < length s)

-- `0`, or digits that do not begin with a zero.
pub data IsInteger : Bytes → Type 0 where
  zero_digit : IsInteger (b'0' ∷ [])
  leading : {c : ℕ} {s : Bytes} → c ≢ b'0' → IsDigits (c ∷ s) → IsInteger (c ∷ s)

pub data IsFraction : Bytes → Type 0 where
  no_fraction : IsFraction []
  decimals : {s : Bytes} → IsDigits s → IsFraction (b'.' ∷ s)

pub data IsExponent : Bytes → Type 0 where
  no_exponent : IsExponent []
  unsigned : {e : ℕ} {s : Bytes} → (e ≡ b'e') ⊎ (e ≡ b'E') → IsDigits s → IsExponent (e ∷ s)
  signed :
      {e c : ℕ} {s : Bytes}
      → (e ≡ b'e') ⊎ (e ≡ b'E')
      → (c ≡ b'+') ⊎ (c ≡ b'-')
      → IsDigits s
      → IsExponent (e ∷ c ∷ s)

pub record IsNumeral (text : Bytes) : Type 0 where
  pub integer : Bytes
  pub fraction : Bytes
  pub exponent : Bytes
  pub splits : text ≡ integer ++ (fraction ++ exponent)
  pub integer_part : IsInteger integer
  pub fraction_part : IsFraction fraction
  pub exponent_part : IsExponent exponent

take-add : (m n : ℕ) (s : Bytes) → take (m + n) s ≡ take m s ++ take n (drop m s)
take-add zero n s = let e : 0 + n ≡ n = omega arith in rw e
take-add (suc m) n [] = let e : suc m + n ≡ suc (m + n) = omega arith in rw e (take-nil n)
  where
    take-nil : (n : ℕ) → [] ≡ take {A = ℕ} n []
    take-nil zero = refl
    take-nil (suc n) = refl
take-add (suc m) n (c ∷ s) =
    let e : suc m + n ≡ suc (m + n) = omega arith in rw e (ap (λ r. c ∷ r) (take-add m n s))

digit_run : (c : ℕ) (s : Bytes) → is_digit c ≡ true → IsDigits (c ∷ take (count_while is_digit s) s)
digit_run c s h = (ground (arith, all-take-count_while is_digit s), omega arith)

-- The digits counted at a digit.
take-IsDigits : (s : Bytes) → digit_next s ≡ true → IsDigits (take (count_while is_digit s) s)
take-IsDigits [] h = cc
take-IsDigits (c ∷ s) h = rw h (digit_run c s h)

integer_len-IsInteger :
    (c : ℕ) (s : Bytes) → is_digit c ≡ true → IsInteger (take (integer_len (c ∷ s)) (c ∷ s))
unfolding integer_len
integer_len-IsInteger c s h = elim (Bool-cases (c == b'0')) [
  | inl z ↦ rw z (subst (λ d. IsInteger (d ∷ [])) (sym ((==_iff c b'0').0 z)) zero_digit)
  | inr nz ↦ rw nz (rw h (leading (λ e. ground arith) (digit_run c s h)))
]

fraction_len-IsFraction : (s : Bytes) → IsFraction (take (fraction_len s) s)
unfolding fraction_len
fraction_len-IsFraction [] = no_fraction
fraction_len-IsFraction (c ∷ s) = elim (Bool-cases (c == b'.' && digit_next s)) [
  | inl y ↦
      let dot : b'.' ≡ c = ground arith in
      rw y (
        subst (λ d. IsFraction (d ∷ take (count_while is_digit s) s)) dot
          (decimals (take-IsDigits s (ground arith))))
  | inr n ↦ rw n no_fraction
]

-- What an exponent takes behind its letter.
abbrev behind_letter : Bytes → Bytes
behind_letter s = take (sign_len s + count_while is_digit (drop (sign_len s) s)) s

unsigned-IsExponent :
    (c : ℕ) (s : Bytes)
    → sign_len s ≡ 0
    → (c ≡ b'e') ⊎ (c ≡ b'E')
    → digit_next (drop (sign_len s) s) ≡ true
    → IsExponent (c ∷ behind_letter s)
unsigned-IsExponent c s z letter h =
    let n = count_while is_digit s in
    let e : 0 + n ≡ n = omega arith in
    subst (λ t. IsExponent (c ∷ t))
      (sym (ap (λ k. take (k + count_while is_digit (drop k s)) s) z ∙ ap (λ (k : ℕ). take k s) e))
      (unsigned letter (take-IsDigits s (rw z at h)))

signed-IsExponent :
    (c d : ℕ) (r : Bytes)
    → sign_len (d ∷ r) ≡ 1
    → (d ≡ b'+') ⊎ (d ≡ b'-')
    → (c ≡ b'e') ⊎ (c ≡ b'E')
    → digit_next (drop (sign_len (d ∷ r)) (d ∷ r)) ≡ true
    → IsExponent (c ∷ behind_letter (d ∷ r))
signed-IsExponent c d r one sign letter h =
    let n = count_while is_digit r in
    let e : 1 + n ≡ suc n = omega arith in
    subst (λ t. IsExponent (c ∷ t))
      (sym (
        ap (λ k. take (k + count_while is_digit (drop k (d ∷ r))) (d ∷ r)) one
        ∙ ap (λ (k : ℕ). take k (d ∷ r)) e))
      (signed letter sign (take-IsDigits r (ap (λ k. digit_next (drop k (d ∷ r))) (sym one) ∙ h)))

behind_letter-IsExponent :
    (c : ℕ) (s : Bytes)
    → (c ≡ b'e') ⊎ (c ≡ b'E')
    → digit_next (drop (sign_len s) s) ≡ true
    → IsExponent (c ∷ behind_letter s)
behind_letter-IsExponent c [] letter h = cc
behind_letter-IsExponent c (d ∷ r) letter h = elim (Bool-cases (d == b'+' || d == b'-')) [
  | inl y ↦ signed-IsExponent c d r (rw y) (ground arith) letter h
  | inr n ↦ unsigned-IsExponent c (d ∷ r) (rw n) letter h
]

exponent_len-IsExponent : (s : Bytes) → IsExponent (take (exponent_len s) s)
unfolding exponent_len
exponent_len-IsExponent [] = no_exponent
exponent_len-IsExponent (c ∷ s) =
    elim (Bool-cases ((c == b'e' || c == b'E') && digit_next (drop (sign_len s) s))) [
      | inl y ↦ rw y (behind_letter-IsExponent c s (ground arith) (ground arith))
      | inr n ↦ rw n no_exponent
    ]

-- The bytes that `scanNumber` takes at a digit are a number in JSON's form without a sign: `0` or
-- digits with no leading zero, then perhaps a dot with digits, then perhaps an exponent with
-- digits.
pub number_len-IsNumeral :
    (c : ℕ) (s : Bytes) → is_digit c ≡ true → IsNumeral (take (number_len (c ∷ s)) (c ∷ s))
unfolding number_len
number_len-IsNumeral c s h =
    let t = c ∷ s in
    let i = integer_len t in
    let f = fraction_len (drop i t) in
    let x = exponent_len (drop (i + f) t) in
    record {
      integer = take i t;
      fraction = take f (drop i t);
      exponent = take x (drop (i + f) t);
      splits =
          take-add (i + f) x t
          ∙ ap (λ r. r ++ take x (drop (i + f) t)) (take-add i f t)
          ∙ append_assoc (take i t) (take f (drop i t)) (take x (drop (i + f) t));
      integer_part = integer_len-IsInteger c s h;
      fraction_part = fraction_len-IsFraction (drop i t);
      exponent_part = exponent_len-IsExponent (drop (i + f) t);
    }
