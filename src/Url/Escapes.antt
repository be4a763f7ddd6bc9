-- ===== src/Url/Escapes.antt =====
-- Reading a run of escapes.
use gnata.Base.{
  ℕ, ◌+◌, ◌-◌, ◌/◌, ◌%◌, ◌≡◌, ◌<◌, refl, ap, Bool, true, false, not, ◌&&◌, ◌||◌, [], ◌∷◌, ◌++◌,
  Bytes, Option, some, ltb, ◌==◌, within, elem, all, encode_rune, arith, Bool-cases, inl, inr,
}
use gnata.Url.{upper_hex, escape_bytes, digit_value, parse_byte, is_kept, add_byte, take_run}
use gnata.Url.Valid.{is_scalar}

digit_value-upper_hex : (n : ℕ) → n < 16 → digit_value (upper_hex n) ≡ some n
digit_value-upper_hex n h = elim (Bool-cases (ltb n 10)) [
  | inl a ↦
      rw a
        (let x : within b'0' b'9' (b'0' + n) ≡ true = ground arith in rw x (ap some (omega arith)))
  | inr a ↦ rw a (
      let x : within b'0' b'9' (b'A' + (n - 10)) ≡ false = ground arith in
      let y : within b'a' b'f' (b'A' + (n - 10)) ≡ false = ground arith in
      let z : within b'A' b'F' (b'A' + (n - 10)) ≡ true = ground arith in
      rw (x, y, z) (ap some (ground arith)))
]

-- The escape of a byte is read as the byte.
parse_byte-upper_hex :
    (c : ℕ) → c < 256 → parse_byte (upper_hex (c / 16)) (upper_hex (c % 16)) ≡ some c
parse_byte-upper_hex c h =
    rw (digit_value-upper_hex (c / 16) (omega arith), digit_value-upper_hex (c % 16) (omega arith))
      (ap some (omega arith))

-- A byte whose escape is not kept.
abbrev pub is_decoded : Bytes → ℕ → Bool
is_decoded reserved c = ltb c 256 && not (is_kept reserved c)

abbrev pub add_bytes : Bytes → Option (Bytes × Bytes) → Option (Bytes × Bytes)
add_bytes [] run = run
add_bytes (c ∷ s) run = add_byte c (add_bytes s run)

pub take_run-escape_bytes :
    (reserved s t : Bytes)
    → all (is_decoded reserved) s ≡ true
    → take_run reserved (escape_bytes s ++ t) ≡ add_bytes s (take_run reserved t)
unfolding take_run escape_bytes
take_run-escape_bytes reserved [] t h = refl
take_run-escape_bytes reserved (c ∷ s) t h =
    let (a, b, d) : (ltb c 256 ≡ true)
        × (is_kept reserved c ≡ false)
        × (all (is_decoded reserved) s ≡ true) =
      ground arith in
    let e = parse_byte-upper_hex c (ground arith) in
    rw (e, b) (ap (add_byte c) (take_run-escape_bytes reserved s t d))

-- A run ends before anything but an escape.
pub take_run-stop :
    (reserved : Bytes) (c : ℕ) (s : Bytes)
    → (c == b'%') ≡ false
    → take_run reserved (c ∷ s) ≡ some ([], c ∷ s)
unfolding take_run
take_run-stop reserved c [] h = rw h refl
take_run-stop reserved c (a ∷ []) h = rw h refl
take_run-stop reserved c (a ∷ b ∷ s) h = rw h refl

high-is_decoded :
    (reserved : Bytes) (c : ℕ) → within 0x80 0xFF c ≡ true → is_decoded reserved c ≡ true
high-is_decoded reserved c h =
    let a : ltb c 0x80 ≡ false = ground arith in
    let b : ltb c 256 ≡ true = ground arith in rw (a, b) refl

-- The bytes of a rune that is not reserved are decoded.
pub all_decoded :
    (reserved : Bytes) (r : ℕ)
    → is_scalar r ≡ true
    → elem r reserved ≡ false
    → all (is_decoded reserved) (encode_rune r) ≡ true
unfolding encode_rune
all_decoded reserved r h k = elim (Bool-cases (ltb r 0x80)) [
  | inl a ↦ rw (a) (let b : ltb r 256 ≡ true = ground arith in rw (a, b, k) refl)
  | inr a ↦ rw a (elim (Bool-cases (ltb r 0x800)) [
    | inl b ↦
        rw b
          (rw (high (0xC0 + r / 0x40) (ground arith), high (0x80 + r % 0x40) (ground arith)) refl)
    | inr b ↦ rw b (
        let s : (within 0xD800 0xDFFF r || ltb 0x10FFFF r) ≡ false = ground arith in
        rw s (elim (Bool-cases (ltb r 0x10000)) [
          | inl c ↦ rw c (
              rw
                (
                  high (0xE0 + r / 0x1000) (ground arith),
                  high (0x80 + (r / 0x40) % 0x40) (ground arith),
                  high (0x80 + r % 0x40) (ground arith),
                )
                refl)
          | inr c ↦ rw c (
              rw
                (
                  high (0xF0 + r / 0x40000) (ground arith),
                  high (0x80 + (r / 0x1000) % 0x40) (ground arith),
                  high (0x80 + (r / 0x40) % 0x40) (ground arith),
                  high (0x80 + r % 0x40) (ground arith),
                )
                refl)
        ]))
  ])
]
  where
    high : (c : ℕ) → within 0x80 0xFF c ≡ true → is_decoded reserved c ≡ true
    high c h = high-is_decoded reserved c h
