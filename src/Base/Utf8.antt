-- ===== src/Base/Utf8.antt =====
-- What the code uses of Go's unicode/utf8: the size of the rune at the head of a byte string, and
-- the bytes of a rune.
use Prim.Native.Nat.{ℕ, ◌+◌, ◌/◌, ◌%◌}
use mathlib.Core.Bool.{Bool, ◌&&◌, ◌||◌}
use mathlib.Core.List.{[], ◌∷◌}
use gnata.Base.Tests.{ltb, within, ◌==◌, if◌then◌else◌}
use gnata.Base.Lists.{Bytes}

abbrev continues : ℕ → Bool
continues b = within 0x80 0xBF b

-- whether the byte `b` may stand second, behind the first byte `c`
abbrev accepts : ℕ → ℕ → Bool
accepts c b =
    if c == 0xE0
    then within 0xA0 0xBF b
    else if c == 0xED
    then within 0x80 0x9F b
    else if c == 0xF0
    then within 0x90 0xBF b
    else if c == 0xF4
    then within 0x80 0x8F b
    else continues b

abbrev two_bytes : ℕ → Bytes → ℕ
two_bytes c (b ∷ _) = if accepts c b then 2 else 1
two_bytes c [] = 1

abbrev three_bytes : ℕ → Bytes → ℕ
three_bytes c (b ∷ d ∷ _) = if accepts c b && continues d then 3 else 1
three_bytes c _ = 1

abbrev four_bytes : ℕ → Bytes → ℕ
four_bytes c (b ∷ d ∷ e ∷ _) = if accepts c b && (continues d && continues e) then 4 else 1
four_bytes c _ = 1

-- The size that `utf8.DecodeRuneInString` returns; 1 for a byte that begins no rune.
unfoldable pub rune_size : Bytes → ℕ
rune_size [] = 0
rune_size (c ∷ s) =
    if within 0xC2 0xDF c
    then two_bytes c s
    else if within 0xE0 0xEF c
    then three_bytes c s
    else if within 0xF0 0xF4 c
    then four_bytes c s
    else 1

abbrev tail_byte : ℕ → ℕ
tail_byte n = 0x80 + n % 0x40

-- The bytes that `utf8.AppendRune` appends; U+FFFD for a surrogate or what is out of range.
unfoldable pub encode_rune : ℕ → Bytes
encode_rune r =
    if ltb r 0x80
    then r ∷ []
    else if ltb r 0x800
    then (0xC0 + r / 0x40) ∷ tail_byte r ∷ []
    else if within 0xD800 0xDFFF r || ltb 0x10FFFF r
    then 0xEF ∷ 0xBF ∷ 0xBD ∷ []
    else if ltb r 0x10000
    then (0xE0 + r / 0x1000) ∷ tail_byte (r / 0x40) ∷ tail_byte r ∷ []
    else (0xF0 + r / 0x40000) ∷ tail_byte (r / 0x1000) ∷ tail_byte (r / 0x40) ∷ tail_byte r ∷ []
