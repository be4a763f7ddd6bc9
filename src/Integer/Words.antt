-- ===== src/Integer/Words.antt =====
-- functions/string_format_integer.go: numbers in words, with ordinals and letter cases, and back.
-- A float64 is the natural number that it holds, which is exact below 2 ^ 53.
pub mod Phrase
pub mod Fields
pub mod Ordinals
pub mod Counting
pub mod Small
pub mod Scales
pub mod RoundTrip
pub mod Cases
mod Tests
use gnata.Base.{
  ℕ, zero, suc, ◌+◌, ◌-◌, ◌*◌, ◌/◌, ◌%◌, Bool, true, false, not, ◌&&◌, ◌||◌, List, [], ◌∷◌, ◌++◌,
  Option, none, some, ltb, leb, ◌==◌, if◌then◌else◌, within, elem, lookup, bytes_keys, bytes_eq,
  codes, get_or, starts_with, map,
}
use gnata.Integer.{to_upper, to_lower, Runes, Result, ok, err, JsonataError, d3137}

-- `ones` and `tens`
unfoldable pub ones : List Runes
ones =
    []
    ∷ codes "one"
    ∷ codes "two"
    ∷ codes "three"
    ∷ codes "four"
    ∷ codes "five"
    ∷ codes "six"
    ∷ codes "seven"
    ∷ codes "eight"
    ∷ codes "nine"
    ∷ codes "ten"
    ∷ codes "eleven"
    ∷ codes "twelve"
    ∷ codes "thirteen"
    ∷ codes "fourteen"
    ∷ codes "fifteen"
    ∷ codes "sixteen"
    ∷ codes "seventeen"
    ∷ codes "eighteen"
    ∷ codes "nineteen"
    ∷ []

unfoldable pub tens : List Runes
tens =
    []
    ∷ []
    ∷ codes "twenty"
    ∷ codes "thirty"
    ∷ codes "forty"
    ∷ codes "fifty"
    ∷ codes "sixty"
    ∷ codes "seventy"
    ∷ codes "eighty"
    ∷ codes "ninety"
    ∷ []

abbrev pub one_word : ℕ → Runes
one_word n = get_or ones n []

abbrev pub ten_word : ℕ → Runes
ten_word n = get_or tens n []

abbrev pub hundred : Runes
hundred = codes "hundred"

-- `belowThousand` on a number below a hundred
unfoldable pub below_hundred : ℕ → Runes
below_hundred n =
    if n == 0
    then []
    else if ltb n 20
    then one_word n
    else if n % 10 == 0
    then ten_word (n / 10)
    else ten_word (n / 10) ++ (b'-' ∷ one_word (n % 10))

-- `belowThousand`
unfoldable pub below_thousand : ℕ → Runes
below_thousand n =
    if ltb n 100
    then below_hundred n
    else if n % 100 == 0
    then one_word (n / 100) ++ (b' ' ∷ hundred)
    else one_word (n / 100) ++ (b' ' ∷ (hundred ++ (codes " and " ++ below_hundred (n % 100))))

-- `baseScales`
abbrev pub scales : List (Runes × ℕ)
scales =
    (codes "trillion", 1000000000000)
    ∷ (codes "billion", 1000000000)
    ∷ (codes "million", 1000000)
    ∷ (codes "thousand", 1000)
    ∷ []

-- The first scale that is no greater than `n`.
abbrev pub scale_of : ℕ → List (Runes × ℕ) → Option (Runes × ℕ)
scale_of n [] = none
scale_of n ((name, v) ∷ ss) = if ltb n v then scale_of n ss else some (name, v)

-- What follows a scale: the words of the remainder.
abbrev pub joined : ℕ → Runes → Runes
joined rem text =
    if rem == 0 then [] else if ltb rem 100 then codes " and " ++ text else codes ", " ++ text

-- `toWords`. The fuel exceeds the number.
unfoldable pub to_words : ℕ → ℕ → Runes
to_words zero n = []
to_words (suc fuel) n = elim (scale_of n scales) [
  | none ↦ below_thousand n
  | some (name, v) ↦
      to_words fuel (n / v) ++ (b' ' ∷ (name ++ joined (n % v) (to_words fuel (n % v))))
]

-- `intToWords` on a number that is not negative
unfoldable pub int_to_words : ℕ → Runes
int_to_words n = if n == 0 then codes "zero" else to_words (suc n) n

-- `ordinals`
unfoldable pub ordinals : List (Runes × Runes)
ordinals =
    (codes "one", codes "first")
    ∷ (codes "two", codes "second")
    ∷ (codes "three", codes "third")
    ∷ (codes "four", codes "fourth")
    ∷ (codes "five", codes "fifth")
    ∷ (codes "six", codes "sixth")
    ∷ (codes "seven", codes "seventh")
    ∷ (codes "eight", codes "eighth")
    ∷ (codes "nine", codes "ninth")
    ∷ (codes "ten", codes "tenth")
    ∷ (codes "eleven", codes "eleventh")
    ∷ (codes "twelve", codes "twelfth")
    ∷ (codes "thirteen", codes "thirteenth")
    ∷ (codes "fourteen", codes "fourteenth")
    ∷ (codes "fifteen", codes "fifteenth")
    ∷ (codes "sixteen", codes "sixteenth")
    ∷ (codes "seventeen", codes "seventeenth")
    ∷ (codes "eighteen", codes "eighteenth")
    ∷ (codes "nineteen", codes "nineteenth")
    ∷ (codes "twenty", codes "twentieth")
    ∷ (codes "thirty", codes "thirtieth")
    ∷ (codes "forty", codes "fortieth")
    ∷ (codes "fifty", codes "fiftieth")
    ∷ (codes "sixty", codes "sixtieth")
    ∷ (codes "seventy", codes "seventieth")
    ∷ (codes "eighty", codes "eightieth")
    ∷ (codes "ninety", codes "ninetieth")
    ∷ (hundred, codes "hundredth")
    ∷ (codes "thousand", codes "thousandth")
    ∷ (codes "million", codes "millionth")
    ∷ (codes "billion", codes "billionth")
    ∷ (codes "trillion", codes "trillionth")
    ∷ []

-- `irregulars`: the same pairs, turned around, and one more
abbrev turned : List (Runes × Runes) → List (Runes × Runes)
turned [] = (codes "zeroth", codes "zero") ∷ []
turned ((c, o) ∷ ps) = (o, c) ∷ turned ps

unfoldable pub irregulars : List (Runes × Runes)
unfolding ordinals
irregulars = turned ordinals

abbrev pub is_gap : ℕ → Bool
is_gap c = c == b' ' || c == b'-'

abbrev pub add_front : ℕ → Runes × Runes → Runes × Runes
add_front c ([], last) = if is_gap c then (c ∷ [], last) else ([], c ∷ last)
add_front c (p ∷ ps, last) = (c ∷ p ∷ ps, last)

-- The loops from the end to the last space or dash: the text up to it, with it, and the last word.
unfoldable pub split_last : Runes → Runes × Runes
split_last [] = ([], [])
split_last (c ∷ s) = add_front c (split_last s)

-- `strings.HasSuffix(last, "y")` and what comes before it
abbrev pub before_y : Runes → Option Runes
before_y [] = none
before_y (c ∷ []) = if c == b'y' then some [] else none
before_y (c ∷ d ∷ s) = elim (before_y (d ∷ s)) [ none ↦ none | some r ↦ some (c ∷ r) ]

-- An ordinal that is not in the table.
abbrev pub regular_ordinal : Runes → Runes
regular_ordinal last = elim (before_y last) [
  | some r ↦ r ++ codes "ieth"
  | none ↦ last ++ codes "th"
]

abbrev pub or_else : Option Runes → Runes → Runes
or_else none w = w
or_else (some o) w = o

-- `applyOrdinalWord`
unfoldable pub apply_ordinal_word : Runes → Runes
apply_ordinal_word s =
    let (prefix, last) = split_last s in
    prefix ++ or_else (lookup last ordinals) (regular_ordinal last)

-- `deOrdinalise`
unfoldable pub de_ordinalise : Runes → Runes
de_ordinalise s =
    let (prefix, last) = split_last s in prefix ++ or_else (lookup last irregulars) last

-- `wordVals`
unfoldable pub word_vals : List (Runes × ℕ)
word_vals =
    (codes "zero", 0)
    ∷ (codes "one", 1)
    ∷ (codes "two", 2)
    ∷ (codes "three", 3)
    ∷ (codes "four", 4)
    ∷ (codes "five", 5)
    ∷ (codes "six", 6)
    ∷ (codes "seven", 7)
    ∷ (codes "eight", 8)
    ∷ (codes "nine", 9)
    ∷ (codes "ten", 10)
    ∷ (codes "eleven", 11)
    ∷ (codes "twelve", 12)
    ∷ (codes "thirteen", 13)
    ∷ (codes "fourteen", 14)
    ∷ (codes "fifteen", 15)
    ∷ (codes "sixteen", 16)
    ∷ (codes "seventeen", 17)
    ∷ (codes "eighteen", 18)
    ∷ (codes "nineteen", 19)
    ∷ (codes "twenty", 20)
    ∷ (codes "thirty", 30)
    ∷ (codes "forty", 40)
    ∷ (codes "fifty", 50)
    ∷ (codes "sixty", 60)
    ∷ (codes "seventy", 70)
    ∷ (codes "eighty", 80)
    ∷ (codes "ninety", 90)
    ∷ (hundred, 100)
    ∷ (codes "thousand", 1000)
    ∷ (codes "million", 1000000)
    ∷ (codes "billion", 1000000000)
    ∷ (codes "trillion", 1000000000000)
    ∷ []

-- `unicode.IsSpace`
abbrev pub is_white : ℕ → Bool
is_white c =
    within 9 13 c
    || elem c (0x20 ∷ 0x85 ∷ 0xA0 ∷ 0x1680 ∷ 0x2028 ∷ 0x2029 ∷ 0x202F ∷ 0x205F ∷ 0x3000 ∷ [])
    || within 0x2000 0x200A c

-- The field that ends, if it has begun.
abbrev pub closed : Runes → List Runes → List Runes
closed [] rest = rest
closed (d ∷ ds) rest = (d ∷ ds) ∷ rest

-- `strings.Fields`, with the field read so far
unfoldable pub fields : Runes → Runes → List Runes
fields acc [] = closed acc []
fields acc (c ∷ s) = elim (is_white c) [
  | false ↦ fields (acc ++ (c ∷ [])) s
  | true ↦ closed acc (fields [] s)
]

-- `strings.ReplaceAll` of dashes and commas by spaces
abbrev pub to_space : ℕ → ℕ
to_space c = if c == b'-' || c == b',' then b' ' else c

-- The `switch` on the value of a word.
abbrev pub add_value : ℕ → ℕ → ℕ → ℕ × ℕ
add_value v total current =
    if v == 100
    then (total, (if current == 0 then 1 else current) * 100)
    else if leb 1000 v
    then (if current == 0
        then ((if total == 0 then 1 else total) * v, 0)
        else (total + current * v, 0))
    else (total, current + v)

-- The loop of `wordsToFloat`.
unfoldable pub count : List Runes → ℕ × ℕ → Result ℕ
count [] (total, current) = ok (total + current)
count (w ∷ ws) (total, current) = elim (bytes_eq w (codes "and")) [
  | true ↦ count ws (total, current)
  | false ↦ elim (lookup w word_vals) [
    | none ↦ err (record { code = d3137; quoted = w })
    | some v ↦ count ws (add_value v total current)
  ]
]

-- `wordsToFloat`
unfoldable pub words_to_float : Runes → Result ℕ
words_to_float s = count (fields [] (map to_space (de_ordinalise s))) (0, 0)

-- The text of the float64 in the message of the error is left out.
abbrev pub checked_int : Result ℕ → Result ℕ
checked_int (err e) = err e
checked_int (ok f) =
    if ltb 9223372036854774784 f
    then err (record { code = codes "D3137_FLOAT"; quoted = [] })
    else ok f

-- `wordsToInt`
unfoldable pub words_to_int : Runes → Result ℕ
words_to_int s = checked_int (words_to_float s)

-- The pictures `w`, `W` and `Ww`
pub data WordCase : Type 0 where
  small capital title : WordCase

-- `lowercase` of `toTitleCase`
abbrev pub is_minor : Runes → Bool
is_minor w =
    bytes_eq w (codes "and")
    || (bytes_eq w (codes "or") || (bytes_eq w (codes "of") || bytes_eq w (codes "the")))

abbrev capitalized : Runes → Runes
capitalized [] = []
capitalized (c ∷ w) = to_upper c ∷ w

-- `flush`, on a word of ASCII letters
abbrev pub flush : Bool → Runes → Runes
flush next w =
    let lower = map to_lower w in if next || not (is_minor lower) then capitalized lower else lower

abbrev pub ends_word : ℕ → Bool
ends_word c = c == b' ' || (c == b',' || c == b'-')

-- The loop of `toTitleCase`: whether the next word is capitalized, and the word read so far.
unfoldable pub title_from : Bool → Runes → Runes → Runes
title_from next w [] = flush next w
title_from next w (c ∷ s) = elim (ends_word c) [
  | false ↦ title_from next (w ++ (c ∷ [])) s
  | true ↦ flush next w ++ (c ∷ title_from (c == b'-') [] s)
]

-- `toTitleCase`
abbrev pub to_title_case : Runes → Runes
to_title_case s = title_from true [] s

abbrev pub in_case : WordCase → Runes → Runes
in_case small s = s
in_case capital s = map to_upper s
in_case title s = to_title_case s

-- `formatIntegerWithPicture` of a number that is not negative, with one of the pictures in words
-- and whether the modifier is `o`
abbrev pub format_words : WordCase → Bool → ℕ → Runes
format_words picture ordinal n =
    in_case picture (if ordinal then apply_ordinal_word (int_to_words n) else int_to_words n)

-- `parseIntegerWithPicture` with one of the pictures in words
abbrev pub parse_words : Runes → Result ℕ
parse_words s = words_to_int (map to_lower s)
