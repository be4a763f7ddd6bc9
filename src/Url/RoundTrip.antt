-- ===== src/Url/RoundTrip.antt =====
-- Decoding what the encoder has written.
use gnata.Base.{
  ℕ, zero, suc, ◌≡◌, ◌⊎◌, ◌≤◌, refl, ap, sym, subst, ◌∙◌, Bool, true, false, [], ◌∷◌, ◌++◌, Bytes,
  some, ltb, ◌==◌, elem, all, all-elem, length, encode_rune, arith, Bool-cases, inl, inr,
}
use gnata.Integer.{Runes, ok}
use gnata.Url.{
  Decoded, yields, uri_reserved, encode_uri_component_safe, encode_uri_safe, has_lone_surrogate,
  encode_with_safe_chars, encode_url, encode_url_component, take_run, decode_run, valid_from,
  behind_run, decode_from, decode_uri, decode_url, decode_url_component, bytes_of,
}
use gnata.Url.Valid.{is_scalar}
use gnata.Url.Escapes.{take_run-escape_bytes, take_run-stop, all_decoded}
use gnata.Url.Runs.{
  is_plain, unsafe_run, after_run, encode, bytes_of-run, scalars-after_run, valid_from-unsafe_run,
  encode-plain, encode-escaped, Escaped-rune, length-after_run, bytes_of-plain, add_bytes-some,
}

take_run-nil :
    (safe reserved : Bytes) → take_run reserved (encode safe []) ≡ some ([], encode safe [])
unfolding take_run encode_with_safe_chars
take_run-nil safe reserved = refl

behind_run-nil :
    (safe : Bytes) (decode : Bytes → Decoded)
    → behind_run decode (encode safe []) ≡ decode (encode safe [])
unfolding encode_with_safe_chars
behind_run-nil safe decode = refl

decode_from-nil :
    (safe reserved : Bytes) (fuel : ℕ)
    → decode_from fuel reserved (encode safe []) ≡ yields (bytes_of [])
unfolding decode_from encode_with_safe_chars bytes_of
decode_from-nil safe reserved zero = refl
decode_from-nil safe reserved (suc fuel) = refl

decode_run-some :
    (decode : Bytes → Decoded) (run rest text : Bytes)
    → valid_from 0 run ≡ true
    → behind_run decode rest ≡ yields text
    → decode_run decode (some (run, rest)) ≡ yields (run ++ text)
decode_run-some decode run rest text v b = rw (v, decode_run) (rw b refl)

module _ (safe reserved : Bytes) (plain : all is_plain safe ≡ true)
    (inside : all (λ c. elem c safe) reserved ≡ true) where
  unreserved : (r : ℕ) → elem r safe ≡ false → elem r reserved ≡ false
  unreserved r h = elim (Bool-cases (elem r reserved)) [
    | inl e ↦ absurd (ground (arith, all-elem (λ c. elem c safe) reserved r inside e))
    | inr e ↦ e
  ]

  -- A run of escapes is read to its end.
  take_run-encode :
      (s : Runes)
      → all is_scalar s ≡ true
      → take_run reserved (encode safe s)
        ≡ some (bytes_of (unsafe_run safe s), encode safe (after_run safe s))
  unfolding unsafe_run after_run bytes_of
  take_run-encode [] h = take_run-nil safe reserved
  take_run-encode (r ∷ s) h = elim (Bool-cases (elem r safe)) [
    | inl e ↦
        (let p = all-elem is_plain safe r plain e in
          rw (e, encode-plain safe r s e p)
            (take_run-stop reserved r (encode safe s) (ground arith)))
    | inr e ↦
        (let b = encode_rune r in
          let d = all_decoded reserved r (ground arith) (unreserved r e) in
          rw
            (
              e,
              encode-escaped safe r s e,
              take_run-escape_bytes reserved b (encode safe s) d,
              take_run-encode s (ground arith),
            )
            (add_bytes-some b (bytes_of (unsafe_run safe s)) (encode safe (after_run safe s))))
  ]

  -- What stands behind a run is no escape.
  behind_run-encode :
      (decode : Bytes → Decoded) (s : Runes)
      → behind_run decode (encode safe (after_run safe s)) ≡ decode (encode safe (after_run safe s))
  unfolding after_run
  behind_run-encode decode [] = behind_run-nil safe decode
  behind_run-encode decode (r ∷ s) = elim (Bool-cases (elem r safe)) [
    | inl e ↦
        (let p = all-elem is_plain safe r plain e in
          rw (e, encode-plain safe r s e p) (other r (encode safe s) (ground arith)))
    | inr e ↦ rw e (behind_run-encode decode s)
  ]
    where
      other : (c : ℕ) (t : Bytes) → (c == b'%') ≡ false → behind_run decode (c ∷ t) ≡ decode (c ∷ t)
      other c [] n = refl
      other c (a ∷ []) n = refl
      other c (a ∷ b ∷ t) n = rw n refl

  decode_from-plain :
      (fuel r : ℕ) (t text : Bytes)
      → is_plain r ≡ true
      → decode_from fuel reserved t ≡ yields text
      → decode_from (suc fuel) reserved (r ∷ t) ≡ yields (r ∷ text)
  unfolding decode_from
  decode_from-plain fuel r t text p h =
      let a : (r == b'%') ≡ false = ground arith in rw (a, decode_from) (rw h refl)

  decode_from-run :
      (fuel : ℕ) (t run rest text : Bytes)
      → take_run reserved (b'%' ∷ t) ≡ some (run, rest)
      → valid_from 0 run ≡ true
      → behind_run (decode_from fuel reserved) rest ≡ decode_from fuel reserved rest
      → decode_from fuel reserved rest ≡ yields text
      → decode_from (suc fuel) reserved (b'%' ∷ t) ≡ yields (run ++ text)
  unfolding decode_from
  decode_from-run fuel t run rest text a b c d =
      rw (a, decode_from) (decode_run-some (decode_from fuel reserved) run rest text b (c ∙ d))

  -- A text that begins with an escape is decoded if what is behind its first run is.
  decode_from-whole :
      (fuel : ℕ) (s : Runes) (t : Bytes)
      → all is_scalar s ≡ true
      → encode safe s ≡ b'%' ∷ t
      → decode_from fuel reserved (encode safe (after_run safe s))
        ≡ yields (bytes_of (after_run safe s))
      → decode_from (suc fuel) reserved (encode safe s) ≡ yields (bytes_of s)
  decode_from-whole fuel s t h eq ih =
      ap (decode_from (suc fuel) reserved) eq
      ∙ decode_from-run fuel t (bytes_of (unsafe_run safe s)) (encode safe (after_run safe s))
          (bytes_of (after_run safe s)) (ap (take_run reserved) (sym eq) ∙ take_run-encode s h)
          (valid_from-unsafe_run safe s h) (behind_run-encode (decode_from fuel reserved) s) ih
      ∙ ap yields (sym (bytes_of-run safe s))

  -- A rune that is safe is decoded as itself, and one that is not begins an escape.
  Leading : ℕ → Runes → Type 0
  Leading r s =
      ((elem r safe ≡ true) × (is_plain r ≡ true))
      ⊎ ((elem r safe ≡ false)
          × (t : Bytes) × (encode safe (r ∷ s) ≡ b'%' ∷ t)
          × (length (encode safe (after_run safe (r ∷ s))) ≤ length t))

  leading : (r : ℕ) (s : Runes) → Leading r s
  unfolding Leading after_run
  leading r s = elim (Bool-cases (elem r safe)) [
    | inl e ↦ inl (e, all-elem is_plain safe r plain e)
    | inr e ↦
        (let (t, eq, l) = Escaped-rune r (encode safe s) in
          inr (e, t, encode-escaped safe r s e ∙ eq, rw e (omega (arith, length-after_run safe s))))
  ]

  decode_from-encode :
      (fuel : ℕ) (s : Runes)
      → all is_scalar s ≡ true
      → length (encode safe s) ≤ fuel
      → decode_from fuel reserved (encode safe s) ≡ yields (bytes_of s)
  unfolding Leading
  decode_from-encode fuel [] h l = decode_from-nil safe reserved fuel
  decode_from-encode zero (r ∷ s) h l = elim (leading r s) [
    | inl (e, p) ↦
        (let k : length (r ∷ encode safe s) ≤ 0 =
            subst (λ t. length t ≤ 0) (encode-plain safe r s e p) l in
          absurd (omega arith))
    | inr (e, t, eq, _) ↦
        (let k : length (b'%' ∷ t) ≤ 0 = subst (λ t. length t ≤ 0) eq l in absurd (omega arith))
  ]
  decode_from-encode (suc fuel) (r ∷ s) h l = elim (leading r s) [
    | inl (e, p) ↦
        (let k : length (r ∷ encode safe s) ≤ suc fuel =
            subst (λ t. length t ≤ suc fuel) (encode-plain safe r s e p) l in
          ap (decode_from (suc fuel) reserved) (encode-plain safe r s e p)
          ∙ decode_from-plain fuel r (encode safe s) (bytes_of s) p
              (decode_from-encode fuel s (ground arith) (omega arith))
          ∙ ap yields (sym (bytes_of-plain r s p)))
    | inr (e, t, eq, k) ↦
        (let m : length (b'%' ∷ t) ≤ suc fuel = subst (λ t. length t ≤ suc fuel) eq l in
          let rest = after_run safe (r ∷ s) in
          decode_from-whole fuel (r ∷ s) t h eq
            (decode_from-encode fuel rest (scalars-after_run safe (r ∷ s) h) (omega arith)))
  ]

  decode_uri-encode :
      (s : Runes)
      → all is_scalar s ≡ true
      → decode_uri reserved (encode safe s) ≡ yields (bytes_of s)
  unfolding decode_uri
  decode_uri-encode s h = decode_from-encode (length (encode safe s)) s h (omega arith)

abbrev pub in_range : ℕ → Bool
in_range r = ltb r 0x110000

scalars :
    (s : Runes) → all in_range s ≡ true → has_lone_surrogate s ≡ false → all is_scalar s ≡ true
unfolding has_lone_surrogate
scalars [] h k = refl
scalars (r ∷ s) h k = let rest = scalars s (ground arith) (ground arith) in ground arith

component-plain : all is_plain encode_uri_component_safe ≡ true
unfolding encode_uri_component_safe
component-plain = refl

uri-plain : all is_plain encode_uri_safe ≡ true
unfolding encode_uri_safe encode_uri_component_safe uri_reserved
uri-plain = refl

reserved-safe : all (λ c. elem c encode_uri_safe) uri_reserved ≡ true
unfolding encode_uri_safe encode_uri_component_safe uri_reserved
reserved-safe = refl

-- A string whose runes are below 0x110000 and neither surrogates nor U+FFFD is encoded by
-- $encodeUrl and by $encodeUrlComponent, and the decoder of each decodes the text to the UTF-8
-- bytes of the string.
pub decode_url-encode_url :
    (s : Runes)
    → all in_range s ≡ true
    → has_lone_surrogate s ≡ false
    → ((e : Bytes) × (encode_url s ≡ ok e) × (decode_url e ≡ ok (bytes_of s)))
      × ((e : Bytes) × (encode_url_component s ≡ ok e) × (decode_url_component e ≡ ok (bytes_of s)))
unfolding encode_url decode_url encode_url_component decode_url_component
decode_url-encode_url s h k =
    let v = scalars s h k in
    (
      (
        encode encode_uri_safe s,
        rw k refl,
        rw (decode_uri-encode encode_uri_safe uri_reserved uri-plain reserved-safe s v) refl,
      ),
      (
        encode encode_uri_component_safe s,
        rw k refl,
        rw (decode_uri-encode encode_uri_component_safe [] component-plain refl s v) refl,
      ),
    )
