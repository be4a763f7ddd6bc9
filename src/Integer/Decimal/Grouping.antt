-- ===== src/Integer/Decimal/Grouping.antt =====
-- functions/string_format_integer.go: `applyIntegerGrouping`, `applyDigitFamilyRune`,
-- `formatIntegerDecimal`, and the decimal branch of `parseIntegerWithPicture`.
use gnata.Base.{
  ℕ, zero, suc, ◌+◌, ◌-◌, ◌*◌, ◌^◌, Bool, true, false, not, ◌&&◌, List, [], ◌∷◌, ◌++◌, Option, none,
  some, ltb, leb, ◌==◌, if◌then◌else◌, within, length, map, all, lookup, insert, nat_eq, ℤ, pos,
  negsuc,
}
use gnata.Integer.{Runes, Result, ok, err, d3137}
use gnata.Integer.Decimal.{
  d3130, d3131, fail, unicode_digit_zero, is_ascii_digit, digit_family_zero, mandatory_count,
  total_digits, Group, group_infos, format_int, zeros,
}

-- A Go map from positions to separators.
abbrev pub Positions : Type 0
Positions = List (ℕ × ℕ)

-- The loop that fills `posSet` from the groups.
unfoldable pub position_set : List Group → Positions → Positions
position_set [] m = m
position_set (g ∷ grps) m = position_set grps (insert g.pos_r g.sep m)

-- `allSameSep`, from the second group on
unfoldable pub same_sep : ℕ → List Group → Bool
same_sep s [] = true
same_sep s (g ∷ grps) = g.sep == s && same_sep s grps

-- `isRegular`, from the second group on, behind a group at `previous`
unfoldable pub regular : ℕ → ℕ → List Group → Bool
regular gap previous [] = true
regular gap previous (g ∷ grps) = g.pos_r - previous == gap && regular gap g.pos_r grps

-- The loop that repeats a regular separator. The fuel is more than `maxLen`.
unfoldable pub repeat_sep : ℕ → ℕ → ℕ → ℕ → ℕ → Positions → Positions
repeat_sep zero at interval max_len s m = m
repeat_sep (suc fuel) at interval max_len s m =
    let held : Positions = elim (lookup at m) [ some _ ↦ m | none ↦ insert at s m ] in
    let more = repeat_sep fuel (at + interval) interval max_len s held in
    if leb at max_len then more else m

-- The last loop of `applyIntegerGrouping`; `first` is `i == 0`.
unfoldable pub place_seps : Bool → Positions → Runes → Runes
place_seps first m [] = []
place_seps first m (c ∷ s) =
    let rest = place_seps false m s in
    elim (lookup (length (c ∷ s)) m) [
      | some sep ↦ if first then c ∷ rest else sep ∷ c ∷ rest
      | none ↦ c ∷ rest
    ]

-- The separators of the groups, repeated if they are regular.
unfoldable pub separators : ℕ → List Group → Positions
separators len [] = []
separators len (g ∷ grps) =
    let m = position_set (g ∷ grps) [] in
    if same_sep g.sep grps && regular g.pos_r g.pos_r grps
    then repeat_sep (suc (suc len)) g.pos_r g.pos_r (suc len) g.sep m
    else m

-- `applyIntegerGrouping`
unfoldable pub apply_integer_grouping : Runes → List Group → Runes
apply_integer_grouping digits grps = place_seps true (separators (length digits) grps) digits

-- `applyDigitFamilyRune`
unfoldable pub apply_digit_family_rune : Runes → ℕ → Runes
apply_digit_family_rune s z = map (λ c. if is_ascii_digit c then z + (c - b'0') else c) s

-- The digits of a number, padded and grouped, in a family.
unfoldable pub write_decimal : ℕ → Runes → ℕ → Runes
write_decimal n picture z =
    let digits = zeros (mandatory_count picture - length (format_int n)) ++ format_int n in
    let grouped = apply_integer_grouping digits (group_infos picture).0 in
    if z == b'0' then grouped else apply_digit_family_rune grouped z

-- `formatIntegerDecimal`
unfoldable pub format_integer_decimal : ℕ → Runes → Result Runes
format_integer_decimal n picture = elim (digit_family_zero picture) [
  | err e ↦ err e
  | ok z ↦ if total_digits picture == 0 then fail d3131 else ok (write_decimal n picture z)
]

-- `zeroRune` and `hasMandatory` of `parseIntegerWithPicture`
unfoldable pub parse_zero : ℕ → Bool → Runes → ℕ × Bool
parse_zero z has [] = (z, has)
parse_zero z has (c ∷ picture) =
    let family = not (unicode_digit_zero c == 0) in
    parse_zero (if is_ascii_digit c then b'0' else if family then unicode_digit_zero c else z)
      (if is_ascii_digit c then true else if family then true else has) picture

-- What a rune adds to `digits`.
unfoldable pub keep : ℕ → ℕ → Runes
keep z c =
    if c == b'-'
    then c ∷ []
    else if is_ascii_digit c
    then c ∷ []
    else if not (z == b'0') && within z (z + 9) c
    then (b'0' + (c - z)) ∷ []
    else []

-- The loop that fills `digits`. It writes no space, so that `strings.TrimSpace` keeps the text.
unfoldable pub clean : ℕ → Runes → Runes
clean z [] = []
clean z (c ∷ s) = keep z c ++ clean z s

-- The value of decimal digits behind a prefix worth `r`.
unfoldable pub digits_value : ℕ → Runes → ℕ
digits_value r [] = r
digits_value r (c ∷ s) = digits_value (r * 10 + (c - b'0')) s

abbrev pub digits_only : Runes → Bool
digits_only [] = false
digits_only (c ∷ s) = all is_ascii_digit (c ∷ s)

abbrev pub minus : ℕ → ℤ
minus zero = pos 0
minus (suc n) = negsuc n

-- `strconv.ParseInt(s, 10, 64)` of digits and minus signs
unfoldable pub parse_int : Runes → Option ℤ
parse_int [] = none
parse_int (c ∷ s) =
    if c == b'-'
    then (if digits_only s && leb (digits_value 0 s) (2 ^ 63)
        then some (minus (digits_value 0 s))
        else none)
    else if digits_only (c ∷ s) && ltb (digits_value 0 (c ∷ s)) (2 ^ 63)
    then some (pos (digits_value 0 (c ∷ s)))
    else none

-- The decimal branch of `parseIntegerWithPicture`.
unfoldable pub parse_integer_decimal : Runes → Runes → Result ℤ
parse_integer_decimal s picture =
    let (z, has) = parse_zero b'0' false picture in
    if has
    then elim (parse_int (clean z s)) [
      | some n ↦ ok n
      | none ↦ err record { code = d3137; quoted = s }
    ]
    else fail d3130
