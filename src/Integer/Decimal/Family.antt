-- ===== src/Integer/Decimal/Family.antt =====
-- The digit families of a picture: the zeros that the formatter and the parser look for.
use gnata.Base.{
  ℕ, ◌+◌, ◌≤◌, ◌<◌, ◌≡◌, ◌⊎◌, refl, sym, subst, ◌∙◌, inl, inr, Bool, true, false, not, [], ◌∷◌,
  arith, leb, ◌==◌, if◌then◌else◌, within, all, elem, Bool-cases,
}
use gnata.Integer.{Runes, ok, err, JsonataError}
use gnata.Integer.Decimal.{
  unicode_zeros, zero_in, unicode_digit_zero, is_ascii_digit, is_picture_digit, family_of,
  family_zero_from, mandatory_count,
}
use gnata.Integer.Decimal.Grouping.{parse_zero}

-- A zero of the table, all of which lie above ASCII.
pub IsZero : Runes → ℕ → Type 0
IsZero zs z = (elem z zs ≡ true) × (1632 ≤ z)

abbrev pub IsFamily : ℕ → Type 0
IsFamily z = (z ≡ b'0') ⊎ IsZero unicode_zeros z

pub IsFamily-cases : (z : ℕ) → IsFamily z → (z ≡ b'0') ⊎ (1632 ≤ z)
unfolding IsZero
IsFamily-cases z (inl e) = inl e
IsFamily-cases z (inr w) = inr w.1

abbrev above_ascii : ℕ → Bool
above_ascii z = leb 1632 z

zero_in-cases :
    (zs : Runes) (c : ℕ) → all above_ascii zs ≡ true → (zero_in zs c ≡ 0) ⊎ IsZero zs (zero_in zs c)
unfolding IsZero
zero_in-cases [] c h = inl refl
zero_in-cases (z ∷ zs) c h = ground (arith, zero_in-cases zs c)

-- A rune in the range of some family is a digit.
zero_in-elem :
    (zs : Runes) (z c : ℕ)
    → all above_ascii zs ≡ true
    → IsZero zs z
    → within z (z + 9) c ≡ true
    → 1632 ≤ zero_in zs c
unfolding IsZero
zero_in-elem [] z c h (e, _) w = absurd (ground (arith, e))
zero_in-elem (y ∷ zs) z c h (e, le) w = ground (arith, zero_in-elem zs z c)

unicode-cases : (c : ℕ) → (unicode_digit_zero c ≡ 0) ⊎ IsZero unicode_zeros (unicode_digit_zero c)
unfolding unicode_digit_zero
unicode-cases c = zero_in-cases unicode_zeros c refl

unicode-IsZero :
    (z c : ℕ) → IsZero unicode_zeros z → within z (z + 9) c ≡ true → 1632 ≤ unicode_digit_zero c
unfolding unicode_digit_zero
unicode-IsZero z c = zero_in-elem unicode_zeros z c refl

family_of-cases : (c : ℕ) → (family_of c ≡ 0) ⊎ IsFamily (family_of c)
unfolding family_of
family_of-cases c = elim (Bool-cases (is_ascii_digit c)) [
  | inl e ↦ rw e (inr (inl refl))
  | inr e ↦ elim (unicode-cases c) [ inl u ↦ rw e (inl u) | inr u ↦ rw e (inr (inr u)) ]
]

pub out_of_family : (z c : ℕ) → IsFamily z → is_picture_digit c ≡ false → within z (z + 9) c ≡ false
unfolding is_picture_digit
out_of_family z c (inl e) h = ground (arith, e, h)
out_of_family z c (inr w) h = elim (Bool-cases (within z (z + 9) c)) [
  | inr q ↦ q
  | inl q ↦ (let digit = unicode-IsZero z c w q in absurd (ground (arith, digit, h)))
]

-- The parser's state behind a rune, by its family.
pub parse_zero-family :
    (z c : ℕ) (has : Bool) (picture : Runes)
    → parse_zero z has (c ∷ picture) ≡ (
        if family_of c == 0
        then parse_zero z has picture
        else parse_zero (family_of c) true picture)
unfolding parse_zero family_of
parse_zero-family z c has picture = elim (Bool-cases (is_ascii_digit c)) [
  | inl e ↦ rw e refl
  | inr e ↦ elim (Bool-cases (unicode_digit_zero c == 0)) [
    | inl u ↦ rw (e, u) refl
    | inr u ↦ rw (e, u) refl
  ]
]

digit-family : (c : ℕ) → is_picture_digit c ≡ not (family_of c == 0)
unfolding is_picture_digit family_of
digit-family c = elim (Bool-cases (is_ascii_digit c)) [ inl e ↦ rw e refl | inr e ↦ rw e refl ]

ok-ne-fail : {A : Type 0} {e : JsonataError} {a : A} → err e ≡ ok a → ⊥
ok-ne-fail h = cc

eq_of_ok-eq-ok : {A : Type 0} {a b : A} → ok a ≡ ok b → a ≡ b
eq_of_ok-eq-ok h = cc

-- Once a family is found, no other follows.
family_zero_from-set :
    (y z : ℕ) (picture : Runes)
    → 0 < y
    → family_zero_from y picture ≡ ok z
    → (z ≡ y) × (parse_zero y true picture ≡ (y, true))
unfolding family_zero_from parse_zero
family_zero_from-set y z [] h k = let found = eq_of_ok-eq-ok k in (ground (arith, h, found), refl)
family_zero_from-set y z (c ∷ picture) h k = elim (Bool-cases (family_of c == 0)) [
  | inl e ↦
      (let (same, read) = family_zero_from-set y z picture h (rw (e, family_zero_from) at k) in
        (same, parse_zero-family y c true picture ∙ rw e read))
  | inr e ↦ elim (Bool-cases (family_of c == y)) [
    | inl q ↦
        (let (same, read) = family_zero_from-set y z picture h (rw (e, q, family_zero_from) at k) in
          let own : family_of c ≡ y = ground (arith, q) in
          (same, parse_zero-family y c true picture ∙ rw (e, own) read))
    | inr q ↦
        (let nonzero : (y == 0) ≡ false = ground (arith, h) in
          absurd (ok-ne-fail (rw (e, q, nonzero, family_zero_from) at k)))
  ]
]

-- The parser takes the digits of the formatter's family.
pub family_zero_from-parse_zero :
    (y z : ℕ) (has : Bool) (picture : Runes)
    → 0 < mandatory_count picture
    → family_zero_from 0 picture ≡ ok z
    → IsFamily z × (parse_zero y has picture ≡ (z, true))
unfolding family_zero_from mandatory_count
family_zero_from-parse_zero y z has [] h k = absurd (omega arith)
family_zero_from-parse_zero y z has (c ∷ picture) h k = elim (Bool-cases (family_of c == 0)) [
  | inl e ↦
      (let other : is_picture_digit c ≡ false = digit-family c ∙ rw e refl in
        let (family, read) =
          family_zero_from-parse_zero y z has picture (rw (other, mandatory_count) at h)
            (rw (e, family_zero_from) at k) in
        (family, parse_zero-family y c has picture ∙ rw e read))
  | inr e ↦
      (let positive : 0 < family_of c = ground (arith, e) in
        let (same, read) =
          family_zero_from-set (family_of c) z picture positive (rw (e, family_zero_from) at k) in
        elim (family_of-cases c) [
          | inl q ↦ absurd (ground (arith, e, q))
          | inr w ↦
              (subst IsFamily (sym same) w, parse_zero-family y c has picture ∙ rw (e, same) read)
        ])
]
