-- ===== src/Integer/Tests.antt =====
-- Runs of the numerals, and their round trips at concrete numbers.
use gnata.Base.{◌≡◌, refl, [], ◌∷◌, true, false, map, arith}
use gnata.Integer.{
  to_roman, from_roman, to_alphabetic, from_alphabetic, to_upper, to_lower, Runes, ok, write_symbol,
  write_roman, write_letters, read_roman,
}
use gnata.Integer.Roman.{from_roman-to_roman}
use gnata.Integer.Alphabetic.{from_alphabetic-to_alphabetic}

abbrev mcmxciv : Runes
mcmxciv = b'M' ∷ b'C' ∷ b'M' ∷ b'X' ∷ b'C' ∷ b'I' ∷ b'V' ∷ []

roman_1994 : to_roman 1994 true ≡ mcmxciv
unfolding to_roman write_roman write_symbol
roman_1994 = refl

-- a text that `toRoman` never writes
roman_iic : from_roman (b'I' ∷ b'I' ∷ b'C' ∷ []) ≡ ok 100
unfolding from_roman read_roman
roman_iic = refl

letters_703 : to_alphabetic 703 b'A' ≡ b'A' ∷ b'A' ∷ b'A' ∷ []
unfolding to_alphabetic write_letters
letters_703 = refl

from_roman-to_roman_example : from_roman (map to_upper (to_roman 1994 false)) ≡ ok 1994
from_roman-to_roman_example = from_roman-to_roman false 1994 (omega arith)

from_alphabetic-to_alphabetic_example :
    from_alphabetic (map to_lower (to_alphabetic 703 b'A')) ≡ ok 703
from_alphabetic-to_alphabetic_example = from_alphabetic-to_alphabetic true 703 (omega arith)
