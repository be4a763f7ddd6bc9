-- ===== src/Integer/Alphabetic.antt =====
-- $formatInteger and $parseInteger with the picture a: `toAlphabetic` and `fromAlphabetic`.
use gnata.Base.{
  ℕ, zero, suc, ◌+◌, ◌-◌, ◌*◌, ◌/◌, ◌%◌, ◌^◌, ◌≤◌, ◌<◌, ◌≡◌, refl, ap, ◌∙◌, Bool, true, false, [],
  ◌∷◌, arith, within, if◌then◌else◌, map,
}
use gnata.Integer.{
  Runes, ok, two_64, to_lower, write_letters, to_alphabetic, read_letters, from_alphabetic,
}

-- What letters are worth, on numbers without a bound, read behind a prefix worth `r`.
abbrev worth : ℕ → Runes → ℕ
worth r [] = r
worth r (c ∷ s) = worth (r * 26 + (c - b'a' + 1)) s

abbrev AreLetters : Runes → Type 0
AreLetters [] = Unit
AreLetters (c ∷ s) = (within b'a' b'z' c ≡ true) × AreLetters s

-- The loop on an int64 has the unbounded result modulo 2 ^ 64.
read_letters-worth :
    (r : ℕ) (s : Runes) → AreLetters s → read_letters (r % two_64) s ≡ ok (worth r s % two_64)
unfolding read_letters
read_letters-worth r [] h = refl
read_letters-worth r (c ∷ s) (h, hs) =
    (let e : ((r % two_64) * 26 + (c - b'a' + 1)) % two_64 ≡ (r * 26 + (c - b'a' + 1)) % two_64 =
        omega arith in
      rw (h, e) (read_letters-worth (r * 26 + (c - b'a' + 1)) s hs))

-- Written before `result`, the letters add the number in front of it.
worth-write_letters :
    (fuel n : ℕ) (result : Runes)
    → n ≤ fuel
    → worth 0 (write_letters fuel b'a' n result) ≡ worth n result
unfolding write_letters
worth-write_letters fuel zero result h = refl
worth-write_letters zero (suc n) result h = omega arith
worth-write_letters (suc fuel) (suc n) result h =
    (let e : n / 26 * 26 + (b'a' + n % 26 - b'a' + 1) ≡ suc n = omega arith in
      worth-write_letters fuel (n / 26) ((b'a' + n % 26) ∷ result) (omega arith)
      ∙ ap (λ m. worth m result) e)

write_letters-AreLetters :
    (fuel n : ℕ) (result : Runes)
    → AreLetters result
    → AreLetters (write_letters fuel b'a' n result)
unfolding write_letters
write_letters-AreLetters fuel zero result h = h
write_letters-AreLetters zero (suc n) result h = h
write_letters-AreLetters (suc fuel) (suc n) result h =
    write_letters-AreLetters fuel (n / 26) ((b'a' + n % 26) ∷ result) (ground arith, h)

-- `base` of `toAlphabetic`, the rune of the picture.
abbrev pub letter_base : Bool → ℕ
letter_base upper = if upper then b'A' else b'a'

lower_letter : (upper : Bool) (k : ℕ) → k < 26 → to_lower (letter_base upper + k) ≡ b'a' + k
lower_letter true k h = ground arith
lower_letter false k h = ground arith

lower-write_letters :
    (upper : Bool) (fuel n : ℕ) (result : Runes)
    → map to_lower (write_letters fuel (letter_base upper) n result)
      ≡ write_letters fuel b'a' n (map to_lower result)
unfolding write_letters
lower-write_letters upper fuel zero result = refl
lower-write_letters upper zero (suc n) result = refl
lower-write_letters upper (suc fuel) (suc n) result =
    lower-write_letters upper fuel (n / 26) ((letter_base upper + n % 26) ∷ result)
    ∙ ap (λ c. write_letters fuel b'a' (n / 26) (c ∷ map to_lower result))
        (lower_letter upper (n % 26) (omega arith))

-- Any int64 that is not negative is read back from its letters, of either case, once they are
-- brought to lower case.
pub from_alphabetic-to_alphabetic :
    (upper : Bool) (n : ℕ)
    → n < 2 ^ 63
    → from_alphabetic (map to_lower (to_alphabetic n (letter_base upper))) ≡ ok n
unfolding from_alphabetic to_alphabetic
from_alphabetic-to_alphabetic upper n h =
    (let letters = write_letters n b'a' n [] in
      let lower = lower-write_letters upper n n [] in
      let read = read_letters-worth 0 letters (write_letters-AreLetters n n [] tt) in
      let value = worth-write_letters n n [] (omega arith) in
      let small : n % two_64 ≡ n = omega arith in
      ap (λ s. read_letters 0 s) lower ∙ read ∙ ap ok (ap (λ m. m % two_64) value ∙ small))
