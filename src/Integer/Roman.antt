-- ===== src/Integer/Roman.antt =====
-- $formatInteger and $parseInteger with the pictures i and I: `toRoman` and `fromRoman`.
use gnata.Base.{
  ℕ, zero, suc, ◌+◌, ◌-◌, ◌%◌, ◌^◌, ◌≤◌, ◌<◌, ◌≡◌, refl, sym, ap, ◌∙◌, inl, inr, Bool, true, false,
  List, [], ◌∷◌, ◌++◌, some, arith, append_assoc, map, ltb, leb, lookup, nat_eq, Bool-cases,
}
use gnata.Integer.{
  Runes, ok, two_64, Numerals, roman_table, write_symbol, write_roman, to_upper, to_roman,
  roman_values, next_above, read_roman, from_roman,
}
use gnata.Integer.Capitals.{capitals-write_roman, upper-capitals}

-- `sym` is read as `v` wherever no rune worth more than `l` follows.
abbrev ReadsAs : ℕ → Runes → ℕ → Type 0
ReadsAs v sym l =
    (t : ℕ) (s : Runes)
    → t < two_64
    → next_above l s ≡ false
    → read_roman t (sym ++ s) ≡ read_roman ((t + v) % two_64) s

-- No text that begins with `sym` begins with a rune worth more than `b`.
abbrev Below : ℕ → Runes → Type 0
Below b sym = (s : Runes) → next_above b (sym ++ s) ≡ false

-- An entry is read as its value before all that may follow it.
abbrev IsEntry : ℕ → ℕ → Runes → ℕ → Type 0
IsEntry b v sym l = (0 < v) × Below b sym × Below l sym × ReadsAs v sym l × (l ≤ b)

-- `b` bounds the runes with which the symbols begin.
abbrev IsTable : ℕ → Numerals → List ℕ → Type 0
IsTable b [] ls = Unit
IsTable b ((v, sym) ∷ table) [] = ⊥
IsTable b ((v, sym) ∷ table) (l ∷ ls) = IsEntry b v sym l × IsTable l table ls

-- The last value is 1.
abbrev Ends : ℕ → Numerals → Type 0
Ends w [] = w ≡ 1
Ends w ((v, sym) ∷ table) = Ends v table

next_above_le : (b c : ℕ) (s : Runes) → b ≤ c → next_above b s ≡ false → next_above c s ≡ false
next_above_le b c [] h q = refl
next_above_le b c (r ∷ s) h q = ground (arith, q)

-- What the inner loop writes begins with the symbol.
next_above-write_symbol :
    (fuel v n b : ℕ) (symbol s : Runes)
    → Below b symbol
    → next_above b s ≡ false
    → next_above b ((write_symbol fuel v symbol n).0 ++ s) ≡ false
unfolding write_symbol
next_above-write_symbol zero v n b symbol s below q = q
next_above-write_symbol (suc fuel) v n b symbol s below q = elim (Bool-cases (leb v n)) [
  | inl e ↦
      (let text = (write_symbol fuel v symbol (n - v)).0 in
        rw (e, append_assoc symbol text s) (below (text ++ s)))
  | inr e ↦ rw e q
]

-- The inner loop takes the value of what it writes from the number.
read-write_symbol :
    (fuel v n t b l : ℕ) (symbol s : Runes)
    → n ≤ fuel
    → t < two_64
    → IsEntry b v symbol l
    → next_above l s ≡ false
    → ((write_symbol fuel v symbol n).1 ≤ n)
      × ((write_symbol fuel v symbol n).1 < v)
      × (read_roman t ((write_symbol fuel v symbol n).0 ++ s)
          ≡ read_roman ((t + (n - (write_symbol fuel v symbol n).1)) % two_64) s)
unfolding write_symbol
read-write_symbol zero v n t b l symbol s h ht w q =
    let same_total : (t + (n - n)) % two_64 ≡ t = omega arith in
    (omega arith, ground (arith, h, w.0), ap (λ m. read_roman m s) (sym same_total))
read-write_symbol (suc fuel) v n t b l symbol s h ht w q = elim (Bool-cases (leb v n)) [
  | inl e ↦
      (let (v0, _, below, reads, _) = w in
        let fits : v ≤ n = ground (arith, e) in
        let m = (t + v) % two_64 in
        let (smaller, under, read) =
          read-write_symbol fuel v (n - v) m b l symbol s (omega arith) (omega arith) w q in
        let text = (write_symbol fuel v symbol (n - v)).0 in
        let rest = (write_symbol fuel v symbol (n - v)).1 in
        let total : (m + (n - v - rest)) % two_64 ≡ (t + (n - rest)) % two_64 = omega arith in
        let above = next_above-write_symbol fuel v (n - v) l symbol s below q in
        rw (e, append_assoc symbol text s)
          (
            omega arith,
            under,
            reads t (text ++ s) ht above ∙ read ∙ ap (λ k. read_roman k s) total,
          ))
  | inr e ↦
      (let same_total : (t + (n - n)) % two_64 ≡ t = omega arith in
        rw e (omega arith, ground (arith, e), ap (λ m. read_roman m s) (sym same_total)))
]

next_above-write_roman :
    (b : ℕ) (table : Numerals) (ls : List ℕ) (n : ℕ)
    → IsTable b table ls
    → next_above b (write_roman table n) ≡ false
unfolding write_roman
next_above-write_roman b [] ls n w = refl
next_above-write_roman b ((v, symbol) ∷ table) [] n w = absurd w
next_above-write_roman b ((v, symbol) ∷ table) (l ∷ ls) n ((_, below, _, _, le), w) =
    let tail = write_roman table (write_symbol n v symbol n).1 in
    let after = next_above-write_roman l table ls (write_symbol n v symbol n).1 w in
    next_above-write_symbol n v n b symbol tail below (next_above_le l b tail le after)

read-write_roman :
    (b : ℕ) (table : Numerals) (ls : List ℕ) (n t w : ℕ)
    → IsTable b table ls
    → Ends w table
    → n < w
    → t < two_64
    → read_roman t (write_roman table n) ≡ ok ((t + n) % two_64)
unfolding write_roman read_roman
read-write_roman b [] ls n t w i e h ht =
    let same_total : t ≡ (t + n) % two_64 = omega arith in ap ok same_total
read-write_roman b ((v, symbol) ∷ table) [] n t w i e h ht = absurd i
read-write_roman b ((v, symbol) ∷ table) (l ∷ ls) n t w (i, is) e h ht =
    (let rest = (write_symbol n v symbol n).1 in
      let after = next_above-write_roman l table ls rest is in
      let (smaller, under, read) =
        read-write_symbol n v n t b l symbol (write_roman table rest) (omega arith) ht i after in
      let taken = (t + (n - rest)) % two_64 in
      let total : (taken + rest) % two_64 ≡ (t + n) % two_64 = omega arith in
      read ∙ read-write_roman l table ls rest taken v is e under (omega arith) ∙ ap ok total)

not_above : (b v : ℕ) → v ≤ b → ltb b v ≡ false
not_above b v h = ground arith

above : (v u : ℕ) → v < u → ltb v u ≡ true
above v u h = ground arith

-- A rune before a greater one is subtracted.
two_runes :
    (v u t : ℕ)
    → v < u
    → u < two_64
    → t < two_64
    → ((t + two_64 - v) % two_64 + u) % two_64 ≡ (t + (u - v)) % two_64
two_runes v u t h k ht = omega arith

one_rune-IsEntry :
    (b c v : ℕ) → 0 < v → v ≤ b → lookup c roman_values ≡ some v → IsEntry b v (c ∷ []) v
unfolding read_roman
one_rune-IsEntry b c v h le k = (
  h,
  λ s. rw (k, next_above) (not_above b v le),
  λ s. rw (k, next_above) (not_above v v (omega arith)),
  λ t s ht q. rw (k, q, read_roman) refl,
  le,
)

two_runes-IsEntry :
    (b c d v u : ℕ)
    → v < u
    → u ≤ b
    → u < two_64
    → lookup c roman_values ≡ some v
    → lookup d roman_values ≡ some u
    → IsEntry b (u - v) (c ∷ d ∷ []) u
unfolding read_roman
two_runes-IsEntry b c d v u h le small k j = (
  omega arith,
  λ s. rw (k, next_above) (not_above b v (omega arith)),
  λ s. rw (k, next_above) (not_above u v (omega arith)),
  λ t s ht q.
      let seen : next_above v (d ∷ s) ≡ true = rw (j, next_above) (above v u h) in
      rw (k, j, seen, q, read_roman) (ap (λ m. read_roman m s) (two_runes v u t h small ht)),
  le,
)

-- The values of the symbols' last runes.
roman_lasts : List ℕ
roman_lasts = 1000 ∷ 1000 ∷ 500 ∷ 500 ∷ 100 ∷ 100 ∷ 50 ∷ 50 ∷ 10 ∷ 10 ∷ 5 ∷ 5 ∷ 1 ∷ []

roman_table-IsTable : IsTable 1000 roman_table roman_lasts
unfolding roman_lasts
roman_table-IsTable = (
  one_rune-IsEntry 1000 b'M' 1000 (omega arith) (omega arith) refl,
  (
    two_runes-IsEntry 1000 b'C' b'M' 100 1000 (omega arith) (omega arith) (omega arith) refl refl,
    (
      one_rune-IsEntry 1000 b'D' 500 (omega arith) (omega arith) refl,
      (
        two_runes-IsEntry 500 b'C' b'D' 100 500 (omega arith) (omega arith) (omega arith) refl refl,
        (
          one_rune-IsEntry 500 b'C' 100 (omega arith) (omega arith) refl,
          (
            two_runes-IsEntry 100 b'X' b'C' 10 100 (omega arith) (omega arith) (omega arith) refl
                refl,
            (
              one_rune-IsEntry 100 b'L' 50 (omega arith) (omega arith) refl,
              (
                two_runes-IsEntry 50 b'X' b'L' 10 50 (omega arith) (omega arith) (omega arith) refl
                    refl,
                (
                  one_rune-IsEntry 50 b'X' 10 (omega arith) (omega arith) refl,
                  (
                    two_runes-IsEntry 10 b'I' b'X' 1 10 (omega arith) (omega arith) (omega arith)
                        refl refl,
                    (
                      one_rune-IsEntry 10 b'V' 5 (omega arith) (omega arith) refl,
                      (
                        two_runes-IsEntry 5 b'I' b'V' 1 5 (omega arith) (omega arith) (omega arith)
                            refl refl,
                        (one_rune-IsEntry 5 b'I' 1 (omega arith) (omega arith) refl, tt),
                      ),
                    ),
                  ),
                ),
              ),
            ),
          ),
        ),
      ),
    ),
  ),
)

-- Any int64 that is not negative is read back from its Roman numeral, of either case, once it is
-- brought to upper case.
pub from_roman-to_roman :
    (upper : Bool) (n : ℕ) → n < 2 ^ 63 → from_roman (map to_upper (to_roman n upper)) ≡ ok n
unfolding from_roman to_roman
from_roman-to_roman upper n h =
    (let text = write_roman roman_table n in
      let capitals = capitals-write_roman roman_table n (
        refl,
        (
          refl,
          (
            refl,
            (refl, (refl, (refl, (refl, (refl, (refl, (refl, (refl, (refl, (refl, tt)))))))))),
          ),
        ),
      ) in
      let read =
        read-write_roman 1000 roman_table roman_lasts n 0 (suc n) roman_table-IsTable refl
          (omega arith) (omega arith) in
      let small : (0 + n) % two_64 ≡ n = omega arith in
      ap (λ s. read_roman 0 s) (upper-capitals upper text capitals) ∙ read ∙ ap ok small)
