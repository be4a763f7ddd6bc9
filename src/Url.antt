-- ===== src/Url.antt =====
-- functions/string_encoding.go: $encodeUrl, $encodeUrlComponent and their decoders, once their
-- argument is a string. The string that is encoded is the list of the runes that `range` yields, in
-- which a byte that begins no rune is U+FFFD; the string that is decoded is the list of its bytes.
pub mod Valid
pub mod Escapes
pub mod Runs
pub mod RoundTrip
pub mod Fuel
mod Tests
use gnata.Base.{
  ℕ, zero, suc, ◌+◌, ◌-◌, ◌*◌, ◌/◌, ◌%◌, Bool, true, false, ◌&&◌, ◌||◌, [], ◌∷◌, ◌++◌, Bytes,
  Option, none, some, ltb, leb, ◌==◌, if◌then◌else◌, within, elem, codes, length, rune_size,
  encode_rune,
}
use gnata.Integer.{Runes, Result, ok, err, JsonataError}

-- `uriReserved`
unfoldable pub uri_reserved : Bytes
uri_reserved = codes ";/?:@&=+$,#"

-- `encodeURIComponentSafe`
unfoldable pub encode_uri_component_safe : Bytes
encode_uri_component_safe =
    codes "ABCDEFGHIJKLMNOPQRSTUVWXYZabcdefghijklmnopqrstuvwxyz0123456789-_.!~*'()"

-- `encodeURISafe`
unfoldable pub encode_uri_safe : Bytes
unfolding encode_uri_component_safe uri_reserved
encode_uri_safe = encode_uri_component_safe ++ uri_reserved

-- `hasLoneSurrogate`
unfoldable pub has_lone_surrogate : Runes → Bool
has_lone_surrogate [] = false
has_lone_surrogate (r ∷ s) = (within 0xD800 0xDFFF r || r == 0xFFFD) || has_lone_surrogate s

abbrev pub upper_hex : ℕ → ℕ
upper_hex n = if ltb n 10 then b'0' + n else b'A' + (n - 10)

-- `url.QueryEscape` of bytes none of which it leaves as they are, with `%20` for the `+` that it
-- writes for a space.
unfoldable pub escape_bytes : Bytes → Bytes
escape_bytes [] = []
escape_bytes (c ∷ s) = b'%' ∷ upper_hex (c / 16) ∷ upper_hex (c % 16) ∷ escape_bytes s

-- What `encodeWithSafeChars` writes for a rune.
abbrev pub encode_with : Bytes → ℕ → Bytes
encode_with safe r = if elem r safe then encode_rune r else escape_bytes (encode_rune r)

-- `encodeWithSafeChars`
unfoldable pub encode_with_safe_chars : Bytes → Runes → Bytes
encode_with_safe_chars safe [] = []
encode_with_safe_chars safe (r ∷ s) = encode_with safe r ++ encode_with_safe_chars safe s

-- The code of a string that cannot be encoded or decoded.
abbrev pub d3140 : JsonataError
d3140 = record { code = codes "D3140"; quoted = [] }

-- `fnEncodeURL`
unfoldable pub encode_url : Runes → Result Bytes
unfolding encode_uri_safe
encode_url s =
    if has_lone_surrogate s then err d3140 else ok (encode_with_safe_chars encode_uri_safe s)

-- `fnEncodeURLComponent`
unfoldable pub encode_url_component : Runes → Result Bytes
encode_url_component s =
    if has_lone_surrogate s
    then err d3140
    else ok (encode_with_safe_chars encode_uri_component_safe s)

-- The value of a hexadecimal digit.
abbrev pub digit_value : ℕ → Option ℕ
digit_value c =
    if within b'0' b'9' c
    then some (c - b'0')
    else if within b'a' b'f' c
    then some (c - b'a' + 10)
    else if within b'A' b'F' c
    then some (c - b'A' + 10)
    else none

abbrev pub hex_pair : Option ℕ → Option ℕ → Option ℕ
hex_pair (some high) (some low) = some (high * 16 + low)
hex_pair _ _ = none

-- `strconv.ParseUint` of two bytes, base 16
abbrev pub parse_byte : ℕ → ℕ → Option ℕ
parse_byte a b = hex_pair (digit_value a) (digit_value b)

abbrev pub is_kept : Bytes → ℕ → Bool
is_kept reserved c = ltb c 0x80 && elem c reserved

abbrev pub add_byte : ℕ → Option (Bytes × Bytes) → Option (Bytes × Bytes)
add_byte c none = none
add_byte c (some (run, rest)) = some (c ∷ run, rest)

-- A byte that is kept ends the run before its escape.
abbrev pub take_byte : Bytes → Option ℕ → Bytes → Option (Bytes × Bytes) → Option (Bytes × Bytes)
take_byte reserved none s run = none
take_byte reserved (some c) s run = if is_kept reserved c then some ([], s) else add_byte c run

-- The inner loop of `decodeURI`: the bytes of a run of escapes, and what is behind them.
unfoldable pub take_run : Bytes → Bytes → Option (Bytes × Bytes)
take_run reserved [] = some ([], [])
take_run reserved (p ∷ []) = if p == b'%' then none else some ([], p ∷ [])
take_run reserved (p ∷ a ∷ []) = if p == b'%' then none else some ([], p ∷ a ∷ [])
take_run reserved (p ∷ a ∷ b ∷ s) =
    let run = take_run reserved s in
    if p == b'%'
    then take_byte reserved (parse_byte a b) (p ∷ a ∷ b ∷ s) run
    else some ([], p ∷ a ∷ b ∷ s)

-- `utf8.ValidString`, once so many bytes have been passed over
unfoldable pub valid_from : ℕ → Bytes → Bool
valid_from skip [] = true
valid_from (suc skip) (c ∷ s) = valid_from skip s
valid_from zero (c ∷ s) = elim (ltb c 0x80) [
  | true ↦ valid_from zero s
  | false ↦ leb 2 (rune_size (c ∷ s)) && valid_from (rune_size (c ∷ s) - 1) s
]

-- What `decodeURI` yields: nothing for a malformed text, or a text. The model's fuel may also run
-- out, which is neither.
pub data Decoded : Type 0 where
  malformed ran_out : Decoded
  yields : Bytes → Decoded

abbrev pub put_front : Bytes → Decoded → Decoded
put_front front malformed = malformed
put_front front ran_out = ran_out
put_front front (yields rest) = yields (front ++ rest)

-- What follows a run: a reserved character's escape is kept as written.
abbrev pub behind_run : (Bytes → Decoded) → Bytes → Decoded
behind_run decode (p ∷ a ∷ b ∷ s) =
    if p == b'%' then put_front (p ∷ a ∷ b ∷ []) (decode s) else decode (p ∷ a ∷ b ∷ s)
behind_run decode s = decode s

-- A run is valid UTF-8, or the text is malformed.
abbrev pub decode_run : (Bytes → Decoded) → Option (Bytes × Bytes) → Decoded
decode_run decode none = malformed
decode_run decode (some (run, rest)) = elim (valid_from 0 run) [
  | false ↦ malformed
  | true ↦ put_front run (behind_run decode rest)
]

-- The loop of `decodeURI`. Each round takes a byte at least, so that the fuel need not exceed the
-- length.
unfoldable pub decode_from : ℕ → Bytes → Bytes → Decoded
decode_from fuel reserved [] = yields []
decode_from zero reserved (c ∷ s) = ran_out
decode_from (suc fuel) reserved (c ∷ s) = elim (c == b'%') [
  | false ↦ put_front (c ∷ []) (decode_from fuel reserved s)
  | true ↦ decode_run (decode_from fuel reserved) (take_run reserved (c ∷ s))
]

-- `decodeURI`
unfoldable pub decode_uri : Bytes → Bytes → Decoded
decode_uri reserved s = decode_from (length s) reserved s

-- The fuel does not run out, by the theorem on it; its case has an error of the model's own.
abbrev pub decoded : Decoded → Result Bytes
decoded malformed = err d3140
decoded ran_out = err record { code = codes "fuel"; quoted = [] }
decoded (yields s) = ok s

-- `fnDecodeURL`
unfoldable pub decode_url : Bytes → Result Bytes
unfolding uri_reserved
decode_url s = decoded (decode_uri uri_reserved s)

-- `fnDecodeURLComponent`
unfoldable pub decode_url_component : Bytes → Result Bytes
decode_url_component s = decoded (decode_uri [] s)

-- The bytes of a string of runes.
unfoldable pub bytes_of : Runes → Bytes
bytes_of [] = []
bytes_of (r ∷ s) = encode_rune r ++ bytes_of s
