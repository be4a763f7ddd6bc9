-- ===== src/Integer/Decimal/Whole.antt =====
-- $formatInteger and $parseInteger with a decimal picture, its sign and its ordinal suffix.
use gnata.Base.{
  ℕ, suc, ◌-◌, ◌<◌, ◌^◌, ◌%◌, ◌≡◌, refl, ap, ◌∙◌, inl, inr, Bool, true, false, [], ◌∷◌, ◌++◌, some,
  arith, ◌==◌, leb, if◌then◌else◌, within, elem, length, Bool-cases, bytes_eq, pos, negsuc, ℤ,
}
use gnata.Integer.{Runes, ok}
use gnata.Integer.Decimal.{
  is_picture_digit, unicode_digit_zero, family_of, digit_family_zero, mandatory_count, format_int,
  zeros,
}
use gnata.Integer.Decimal.Grouping.{
  write_decimal, parse_zero, parse_int, parse_integer_decimal, digits_value, digits_only, clean,
  keep,
}
use gnata.Integer.Decimal.Digits.{padded, parse_int-digits}
use gnata.Integer.Decimal.Family.{IsFamily, parse_zero-family}
use gnata.Integer.Decimal.Cleaning.{IsSeparator, keep-separator}
use gnata.Integer.Decimal.RoundTrip.{
  clean-write_decimal, digit_family_zero-parse_zero, format-write_decimal,
}
use gnata.Integer.Decimal.Signed.{
  split_picture_modifier, ordinal_suffix, is_negative, magnitude, has_picture_digit, format_decimal,
}

abbrev Dropped : Runes → Type 0
Dropped [] = Unit
Dropped (c ∷ s) = IsSeparator c × Dropped s

clean-append-Dropped : (z : ℕ) (s t : Runes) → IsFamily z → Dropped t → clean z (s ++ t) ≡ clean z s
unfolding clean
clean-append-Dropped z [] [] w h = refl
clean-append-Dropped z [] (c ∷ t) w (h, hs) =
    rw (keep-separator z c w h) (clean-append-Dropped z [] t w hs)
clean-append-Dropped z (c ∷ s) t w h = ap (λ r. keep z c ++ r) (clean-append-Dropped z s t w h)

Dropped-if : (b : Bool) (s t : Runes) → Dropped s → Dropped t → Dropped (if b then s else t)
Dropped-if true s t h k = h
Dropped-if false s t h k = k

two-Dropped : (c d : ℕ) → IsSeparator c → IsSeparator d → Dropped (c ∷ d ∷ [])
two-Dropped c d h k = (h, (k, tt))

ordinal_suffix-Dropped : (n : ℕ) → Dropped (ordinal_suffix n)
unfolding ordinal_suffix is_picture_digit unicode_digit_zero
ordinal_suffix-Dropped n =
    let th = two-Dropped b't' b'h' (refl, refl) (refl, refl) in
    let st = two-Dropped b's' b't' (refl, refl) (refl, refl) in
    let nd = two-Dropped b'n' b'd' (refl, refl) (refl, refl) in
    let rd = two-Dropped b'r' b'd' (refl, refl) (refl, refl) in
    Dropped-if (within 11 13 (n % 100)) _ _ th (
      Dropped-if (n % 10 == 1) _ _ st
        (Dropped-if (n % 10 == 2) _ _ nd (Dropped-if (n % 10 == 3) _ _ rd th)))

-- A picture: its token, and the modifier o or none.
abbrev pub picture_of : Runes → Bool → Runes
picture_of token ordinal = token ++ (if ordinal then b';' ∷ b'o' ∷ [] else [])

split-picture_of :
    (token : Runes) (ordinal : Bool)
    → elem b';' token ≡ false
    → split_picture_modifier (picture_of token ordinal)
      ≡ (token, if ordinal then b'o' ∷ [] else b'c' ∷ [])
unfolding split_picture_modifier
split-picture_of [] true h = refl
split-picture_of [] false h = refl
split-picture_of (c ∷ token) ordinal h =
    let other : (c == b';') ≡ false = ground (arith, h) in
    let rest = split-picture_of token ordinal (ground (arith, h)) in rw (other, rest) refl

parse_zero-append :
    (y : ℕ) (has : Bool) (s t : Runes)
    → parse_zero y has (s ++ t) ≡ parse_zero (parse_zero y has s).0 (parse_zero y has s).1 t
unfolding parse_zero
parse_zero-append y has [] t = refl
parse_zero-append y has (c ∷ s) t =
    let whole = parse_zero-family y c has (s ++ t) in
    let start = parse_zero-family y c has s in
    elim (Bool-cases (family_of c == 0)) [
      | inl e ↦ whole ∙ rw (start, e) (parse_zero-append y has s t)
      | inr e ↦ whole ∙ rw (start, e) (parse_zero-append (family_of c) true s t)
    ]

-- The modifier has no digit.
parse_zero-modifier :
    (z : ℕ) (has ordinal : Bool)
    → parse_zero z has (if ordinal then b';' ∷ b'o' ∷ [] else []) ≡ (z, has)
unfolding parse_zero unicode_digit_zero
parse_zero-modifier z has true = refl
parse_zero-modifier z has false = refl

parse_zero-picture_of :
    (y z : ℕ) (has : Bool) (token : Runes) (ordinal : Bool)
    → parse_zero y has token ≡ (z, true)
    → parse_zero y has (picture_of token ordinal) ≡ (z, true)
parse_zero-picture_of y z has token ordinal h =
    parse_zero-append y has token (if ordinal then b';' ∷ b'o' ∷ [] else [])
    ∙ rw h (parse_zero-modifier z true ordinal)

has_picture_digit-count :
    (token : Runes) → 0 < mandatory_count token → has_picture_digit token ≡ true
unfolding has_picture_digit mandatory_count
has_picture_digit-count [] h = absurd (omega arith)
has_picture_digit-count (c ∷ token) h = elim (Bool-cases (is_picture_digit c)) [
  | inl e ↦ rw e refl
  | inr e ↦ rw e (has_picture_digit-count token (rw (e, mandatory_count) at h))
]

-- What the parser makes of a sign and the digits of a magnitude.
parse_int-signed :
    (n : ℤ) (digits : Runes)
    → digits_only digits ≡ true
    → digits_value 0 digits ≡ magnitude n
    → magnitude n < 2 ^ 63
    → parse_int ((if is_negative n then b'-' ∷ [] else []) ++ digits) ≡ some n
unfolding parse_int
parse_int-signed (pos n) digits h v k =
    parse_int-digits digits h (rw v k) ∙ ap (λ m. some (pos m)) v
parse_int-signed (negsuc n) digits h v k =
    let fits : leb (suc n) (2 ^ 63) ≡ true = ground (arith, k) in rw (h, v, fits) refl

clean-sign :
    (z : ℕ) (n : ℤ) (s : Runes)
    → clean z ((if is_negative n then b'-' ∷ [] else []) ++ s)
      ≡ (if is_negative n then b'-' ∷ [] else []) ++ clean z s
unfolding clean keep
clean-sign z (pos n) s = refl
clean-sign z (negsuc n) s = refl

suffix-Dropped : (n : ℕ) (ordinal : Bool) → Dropped (if ordinal then ordinal_suffix n else [])
suffix-Dropped n ordinal = Dropped-if ordinal (ordinal_suffix n) [] (ordinal_suffix-Dropped n) tt

abbrev written : ℤ → Runes → ℕ → Bool → Runes
written n token z ordinal =
    (if is_negative n then b'-' ∷ [] else [])
    ++ (write_decimal (magnitude n) token z
        ++ (if ordinal then ordinal_suffix (magnitude n) else []))

modifier_ordinal :
    (ordinal : Bool) → bytes_eq (if ordinal then b'o' ∷ [] else b'c' ∷ []) (b'o' ∷ []) ≡ ordinal
modifier_ordinal true = refl
modifier_ordinal false = refl

format_decimal-written :
    (n : ℤ) (z : ℕ) (token : Runes) (ordinal : Bool)
    → elem b';' token ≡ false
    → digit_family_zero token ≡ ok z
    → 0 < mandatory_count token
    → format_decimal n (picture_of token ordinal) ≡ ok (written n token z ordinal)
unfolding format_decimal
format_decimal-written n z token ordinal h f k =
    let split = split-picture_of token ordinal h in
    let some_digit = has_picture_digit-count token k in
    let digits = format-write_decimal (magnitude n) z token f k in
    let token_of = ap (λ p. p.0) split in
    let modifier = ap (λ p. bytes_eq p.1 (b'o' ∷ [])) split ∙ modifier_ordinal ordinal in
    rw (token_of, some_digit, digits, modifier, format_decimal) refl

-- An integer whose magnitude is below 2 ^ 63, a token that has digits of one family only and a
-- mandatory one, no ; and no minus sign, with or without the modifier o: formatIntegerWithPicture
-- writes a text, and parseIntegerWithPicture with the same picture reads the same integer from it,
-- whatever the grouping separators.
pub parse_integer_decimal-format_decimal :
    (n : ℤ) (z : ℕ) (token : Runes) (ordinal : Bool)
    → magnitude n < 2 ^ 63
    → elem b';' token ≡ false
    → elem b'-' token ≡ false
    → digit_family_zero token ≡ ok z
    → 0 < mandatory_count token
    → (text : Runes) × (format_decimal n (picture_of token ordinal) ≡ ok text)
      × (parse_integer_decimal text (picture_of token ordinal) ≡ ok n)
unfolding parse_integer_decimal
parse_integer_decimal-format_decimal n z token ordinal small h e f k =
    (let m = magnitude n in
      let (family, zero_read) = digit_family_zero-parse_zero b'0' z false token k f in
      let read_zero = parse_zero-picture_of b'0' z false token ordinal zero_read in
      let pad = mandatory_count token - length (format_int m) in
      let sign : Runes = if is_negative n then b'-' ∷ [] else [] in
      let cleaned : clean z (written n token z ordinal) ≡ sign ++ (zeros pad ++ format_int m) =
        clean-sign z n (write_decimal m token z ++ (if ordinal then ordinal_suffix m else []))
        ∙ ap (λ s. sign ++ s)
            (clean-append-Dropped z (write_decimal m token z)
                (if ordinal then ordinal_suffix m else []) family (suffix-Dropped m ordinal)
              ∙ clean-write_decimal m token z family e) in
      let (only, value) = padded pad m in
      let parsed = parse_int-signed n (zeros pad ++ format_int m) only value small in
      (
        written n token z ordinal,
        format_decimal-written n z token ordinal h f k,
        rw (read_zero, cleaned, parsed, parse_integer_decimal) refl,
      ))
