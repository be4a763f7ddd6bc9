-- ===== src/Url/Runs.antt =====
-- The runs of runes that the encoder escapes, and the text it writes for them.
use gnata.Base.{
  ℕ, ◌≡◌, ◌≤◌, refl, ap, sym, ◌∙◌, append_assoc, Bool, true, false, not, ◌&&◌, ◌||◌, [], ◌∷◌, ◌++◌,
  Bytes, some, ltb, ◌==◌, if◌then◌else◌, within, elem, all, length, length-append, encode_rune,
  arith, Bool-cases, inl, inr,
}
use gnata.Integer.{Runes}
use gnata.Url.{escape_bytes, encode_with_safe_chars, valid_from, bytes_of}
use gnata.Url.Valid.{is_scalar, valid_from-encode_rune}
use gnata.Url.Escapes.{add_bytes}

abbrev pub is_plain : ℕ → Bool
is_plain c = ltb c 0x80 && not (c == b'%')

module _ (safe : Bytes) where
  -- The runes before the first that is safe, and those from it on.
  unfoldable pub unsafe_run : Runes → Runes
  unsafe_run [] = []
  unsafe_run (r ∷ s) = if elem r safe then [] else r ∷ unsafe_run s

  unfoldable pub after_run : Runes → Runes
  after_run [] = []
  after_run (r ∷ s) = if elem r safe then r ∷ s else after_run s

abbrev pub encode : Bytes → Runes → Bytes
encode safe s = encode_with_safe_chars safe s

pub bytes_of-run :
    (safe : Bytes) (s : Runes)
    → bytes_of s ≡ bytes_of (unsafe_run safe s) ++ bytes_of (after_run safe s)
unfolding unsafe_run after_run bytes_of
bytes_of-run safe [] = refl
bytes_of-run safe (r ∷ s) = elim (Bool-cases (elem r safe)) [
  | inl e ↦ rw (e, bytes_of) refl
  | inr e ↦
      rw (e, bytes_of)
        (ap (λ t. encode_rune r ++ t) (bytes_of-run safe s)
          ∙ sym (
              append_assoc (encode_rune r) (bytes_of (unsafe_run safe s))
                (bytes_of (after_run safe s))))
]

pub scalars-after_run :
    (safe : Bytes) (s : Runes) → all is_scalar s ≡ true → all is_scalar (after_run safe s) ≡ true
unfolding after_run
scalars-after_run safe [] h = refl
scalars-after_run safe (r ∷ s) h = elim (Bool-cases (elem r safe)) [
  | inl e ↦ rw e h
  | inr e ↦ rw e (scalars-after_run safe s (ground arith))
]

pub valid_from-unsafe_run :
    (safe : Bytes) (s : Runes)
    → all is_scalar s ≡ true
    → valid_from 0 (bytes_of (unsafe_run safe s)) ≡ true
unfolding unsafe_run bytes_of valid_from
valid_from-unsafe_run safe [] h = refl
valid_from-unsafe_run safe (r ∷ s) h = elim (Bool-cases (elem r safe)) [
  | inl e ↦ rw e refl
  | inr e ↦ rw e (
      valid_from-encode_rune r (bytes_of (unsafe_run safe s)) (ground arith)
      ∙ valid_from-unsafe_run safe s (ground arith))
]

pub encode-plain :
    (safe : Bytes) (r : ℕ) (s : Runes)
    → elem r safe ≡ true
    → is_plain r ≡ true
    → encode safe (r ∷ s) ≡ r ∷ encode safe s
unfolding encode_with_safe_chars encode_rune
encode-plain safe r s e p = let a : ltb r 0x80 ≡ true = ground arith in rw (e, a) refl

pub encode-escaped :
    (safe : Bytes) (r : ℕ) (s : Runes)
    → elem r safe ≡ false
    → encode safe (r ∷ s) ≡ escape_bytes (encode_rune r) ++ encode safe s
unfolding encode_with_safe_chars
encode-escaped safe r s e = rw e refl

-- What is escaped begins with a percent sign, and is longer than what follows it.
abbrev pub Escaped : Bytes → Bytes → Type 0
Escaped text rest = (t : Bytes) × (text ≡ b'%' ∷ t) × (length rest ≤ length t)

pub longer : (s t : Bytes) → length t ≤ length (s ++ t)
longer s t = omega (arith, length-append s t)

pub Escaped-rune : (r : ℕ) (t : Bytes) → Escaped (escape_bytes (encode_rune r) ++ t) t
unfolding encode_rune escape_bytes
Escaped-rune r t = elim (Bool-cases (ltb r 0x80)) [
  | inl a ↦ rw a (_, refl, omega arith)
  | inr a ↦ rw a (elim (Bool-cases (ltb r 0x800)) [
    | inl b ↦ rw b (_, refl, omega arith)
    | inr b ↦ rw b (elim (Bool-cases (within 0xD800 0xDFFF r || ltb 0x10FFFF r)) [
      | inl s ↦ rw s (_, refl, omega arith)
      | inr s ↦ rw s (elim (Bool-cases (ltb r 0x10000)) [
        | inl c ↦ rw c (_, refl, omega arith)
        | inr c ↦ rw c (_, refl, omega arith)
      ])
    ])
  ])
]

pub length-after_run :
    (safe : Bytes) (s : Runes) → length (encode safe (after_run safe s)) ≤ length (encode safe s)
unfolding after_run
length-after_run safe [] = omega arith
length-after_run safe (r ∷ s) = elim (Bool-cases (elem r safe)) [
  | inl e ↦ rw e (omega arith)
  | inr e ↦
      rw (e, encode-escaped safe r s e)
        (omega
          (arith, length-after_run safe s, longer (escape_bytes (encode_rune r)) (encode safe s)))
]

pub bytes_of-plain : (r : ℕ) (s : Runes) → is_plain r ≡ true → bytes_of (r ∷ s) ≡ r ∷ bytes_of s
unfolding bytes_of encode_rune
bytes_of-plain r s p = let b : ltb r 0x80 ≡ true = ground arith in rw b refl

pub add_bytes-some : (s t u : Bytes) → add_bytes s (some (t, u)) ≡ some (s ++ t, u)
add_bytes-some [] t u = refl
add_bytes-some (c ∷ s) t u = rw (add_bytes-some s t u) refl
