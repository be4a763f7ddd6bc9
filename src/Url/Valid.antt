-- ===== src/Url/Valid.antt =====
-- The UTF-8 encoding of runes is valid.
use gnata.Base.{
  ℕ, ◌+◌, ◌/◌, ◌%◌, ◌≡◌, refl, Bool, true, false, not, ◌&&◌, ◌||◌, ◌∷◌, ◌++◌, Bytes, ltb, leb, ◌==◌,
  if◌then◌else◌, within, rune_size, encode_rune, arith, Bool-cases, inl, inr,
}
use gnata.Url.{valid_from}

-- A rune that is no surrogate.
abbrev pub is_scalar : ℕ → Bool
is_scalar r = not (within 0xD800 0xDFFF r) && ltb r 0x110000

valid-two :
    (c d : ℕ) (t : Bytes)
    → within 0xC2 0xDF c ≡ true
    → within 0x80 0xBF d ≡ true
    → valid_from 0 (c ∷ d ∷ t) ≡ valid_from 0 t
unfolding valid_from rune_size
valid-two c d t h k =
    let a : ltb c 0x80 ≡ false = ground arith in
    let x : (c == 0xE0) ≡ false = ground arith in
    let y : (c == 0xED) ≡ false = ground arith in
    let z : (c == 0xF0) ≡ false = ground arith in
    let w : (c == 0xF4) ≡ false = ground arith in rw (a, valid_from) (rw (h, x, y, z, w, k) refl)

valid-three :
    (c d e : ℕ) (t : Bytes)
    → within 0xE0 0xEF c ≡ true
    → within 0x80 0xBF d ≡ true
    → within 0x80 0xBF e ≡ true
    → (if c == 0xE0 then leb 0xA0 d else true) ≡ true
    → (if c == 0xED then leb d 0x9F else true) ≡ true
    → valid_from 0 (c ∷ d ∷ e ∷ t) ≡ valid_from 0 t
unfolding valid_from rune_size
valid-three c d e t h k l m n =
    let a : ltb c 0x80 ≡ false = ground arith in
    let x : within 0xC2 0xDF c ≡ false = ground arith in
    let y : (if c == 0xE0
          then within 0xA0 0xBF d
          else if c == 0xED
          then within 0x80 0x9F d
          else if c == 0xF0
          then within 0x90 0xBF d
          else if c == 0xF4
          then within 0x80 0x8F d
          else within 0x80 0xBF d)
        ≡ true =
      ground arith in
    rw (a, valid_from) (rw (h, x, y, l) refl)

valid-four :
    (c d e f : ℕ) (t : Bytes)
    → within 0xF0 0xF4 c ≡ true
    → within 0x80 0xBF d ≡ true
    → within 0x80 0xBF e ≡ true
    → within 0x80 0xBF f ≡ true
    → (if c == 0xF0 then leb 0x90 d else true) ≡ true
    → (if c == 0xF4 then leb d 0x8F else true) ≡ true
    → valid_from 0 (c ∷ d ∷ e ∷ f ∷ t) ≡ valid_from 0 t
unfolding valid_from rune_size
valid-four c d e f t h k l o m n =
    let a : ltb c 0x80 ≡ false = ground arith in
    let x : within 0xC2 0xDF c ≡ false = ground arith in
    let w : within 0xE0 0xEF c ≡ false = ground arith in
    let y : (if c == 0xE0
          then within 0xA0 0xBF d
          else if c == 0xED
          then within 0x80 0x9F d
          else if c == 0xF0
          then within 0x90 0xBF d
          else if c == 0xF4
          then within 0x80 0x8F d
          else within 0x80 0xBF d)
        ≡ true =
      ground arith in
    rw (a, valid_from) (rw (h, x, w, y, l, o) refl)

-- The encoding of a rune is passed over.
pub valid_from-encode_rune :
    (r : ℕ) (t : Bytes) → is_scalar r ≡ true → valid_from 0 (encode_rune r ++ t) ≡ valid_from 0 t
unfolding encode_rune valid_from
valid_from-encode_rune r t h = elim (Bool-cases (ltb r 0x80)) [
  | inl a ↦ rw (a, valid_from) (rw (a, valid_from) refl)
  | inr a ↦ rw a (elim (Bool-cases (ltb r 0x800)) [
    | inl b ↦ rw b (valid-two (0xC0 + r / 0x40) (0x80 + r % 0x40) t (ground arith) (ground arith))
    | inr b ↦ rw b (
        let s : (within 0xD800 0xDFFF r || ltb 0x10FFFF r) ≡ false = ground arith in
        rw s (elim (Bool-cases (ltb r 0x10000)) [
          | inl c ↦ rw c (
              valid-three (0xE0 + r / 0x1000) (0x80 + (r / 0x40) % 0x40) (0x80 + r % 0x40) t
                (ground arith) (ground arith) (ground arith) (ground arith) (ground arith))
          | inr c ↦ rw c (
              valid-four (0xF0 + r / 0x40000) (0x80 + (r / 0x1000) % 0x40)
                (0x80 + (r / 0x40) % 0x40) (0x80 + r % 0x40) t (ground arith) (ground arith)
                (ground arith) (ground arith) (ground arith) (ground arith))
        ]))
  ])
]
