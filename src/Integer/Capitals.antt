-- ===== src/Integer/Capitals.antt =====
-- The letters that `toRoman` writes, and their cases.
use gnata.Base.{
  ℕ, zero, suc, ◌-◌, ◌≡◌, refl, inl, inr, Bool, true, false, [], ◌∷◌, arith, within, if◌then◌else◌,
  map, leb, nat_eq, Bool-cases, all, all-append,
}
use gnata.Integer.{Runes, Numerals, write_symbol, write_roman, to_lower, to_upper}

abbrev pub is_capital : ℕ → Bool
is_capital c = within b'A' b'Z' c

abbrev pub AreCapitals : Numerals → Type 0
AreCapitals [] = Unit
AreCapitals ((v, symbol) ∷ table) = (all is_capital symbol ≡ true) × AreCapitals table

capitals-write_symbol :
    (fuel v n : ℕ) (symbol : Runes)
    → all is_capital symbol ≡ true
    → all is_capital (write_symbol fuel v symbol n).0 ≡ true
unfolding write_symbol
capitals-write_symbol zero v n symbol h = refl
capitals-write_symbol (suc fuel) v n symbol h =
    let rest = capitals-write_symbol fuel v (n - v) symbol h in
    elim (Bool-cases (leb v n)) [
      | inl e ↦ rw (e, all-append is_capital symbol (write_symbol fuel v symbol (n - v)).0, h) rest
      | inr e ↦ rw e refl
    ]

pub capitals-write_roman :
    (table : Numerals) (n : ℕ) → AreCapitals table → all is_capital (write_roman table n) ≡ true
unfolding write_roman
capitals-write_roman [] n w = refl
capitals-write_roman ((v, symbol) ∷ table) n (h, w) =
    let rest = (write_symbol n v symbol n).1 in
    rw
      (
        all-append is_capital (write_symbol n v symbol n).0 (write_roman table rest),
        capitals-write_symbol n v n symbol h,
      )
      (capitals-write_roman table rest w)

pub upper-capitals :
    (upper : Bool) (s : Runes)
    → all is_capital s ≡ true
    → map to_upper (if upper then s else map to_lower s) ≡ s
upper-capitals true [] h = refl
upper-capitals false [] h = refl
upper-capitals true (c ∷ s) h = ground (arith, upper-capitals true s)
upper-capitals false (c ∷ s) h = ground (arith, upper-capitals false s)
