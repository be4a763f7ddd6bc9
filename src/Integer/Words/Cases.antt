-- ===== src/Integer/Words/Cases.antt =====
-- Numbers in words in lower case, upper case and title case.
use gnata.Base.{
  ℕ, zero, suc, ◌-◌, ◌<◌, Bool, true, false, not, ◌||◌, [], ◌∷◌, ◌++◌, ◌≡◌, refl, ap, sym, subst,
  ◌∙◌, append-nil, append_assoc, arith, within, ◌==◌, map, all, all-append, Bool-cases, inl, inr,
}
use gnata.Integer.{Runes, ok, to_upper, to_lower}
use gnata.Integer.Words.{
  to_words, int_to_words, apply_ordinal_word, words_to_int, WordCase, small, capital, title,
  is_minor, capitalized, flush, ends_word, title_from, in_case, format_words, parse_words,
  split_last, ordinals,
}
use gnata.Integer.Words.Phrase.{
  Gap, space, dash, comma, gap_text, Phrase, single, join, text_of, AreWords, is_word, is_letter,
}
use gnata.Integer.Words.Ordinals.{apply_ordinal_word-text_of}
use gnata.Integer.Words.Scales.{Says, to_words-Says}
use gnata.Integer.Words.RoundTrip.{words_to_int-int_to_words}

abbrev is_quiet : ℕ → Bool
is_quiet c = not (within b'A' b'Z' c)

to_lower-quiet : (c : ℕ) → is_quiet c ≡ true → to_lower c ≡ c
to_lower-quiet c h = ground arith

to_lower-to_upper : (c : ℕ) → is_quiet c ≡ true → to_lower (to_upper c) ≡ c
to_lower-to_upper c h = elim (Bool-cases (within b'a' b'z' c)) [
  | inl e ↦ rw e (let a : within b'A' b'Z' (c - 32) ≡ true = ground arith in rw a (ground arith))
  | inr e ↦ rw e (to_lower-quiet c h)
]

map-to_lower : (s : Runes) → all is_quiet s ≡ true → map to_lower s ≡ s
map-to_lower [] h = refl
map-to_lower (c ∷ s) h =
    let (a, b) : (is_quiet c ≡ true) × (all is_quiet s ≡ true) = ground arith in
    rw (to_lower-quiet c a, map-to_lower s b) refl

lower_upper : (s : Runes) → all is_quiet s ≡ true → map to_lower (map to_upper s) ≡ s
lower_upper [] h = refl
lower_upper (c ∷ s) h =
    let (a, b) : (is_quiet c ≡ true) × (all is_quiet s ≡ true) = ground arith in
    rw (to_lower-to_upper c a, lower_upper s b) refl

lower-capitalized : (s : Runes) → all is_quiet s ≡ true → map to_lower (capitalized s) ≡ s
lower-capitalized [] h = refl
lower-capitalized (c ∷ s) h =
    let (a, b) : (is_quiet c ≡ true) × (all is_quiet s ≡ true) = ground arith in
    rw (to_lower-to_upper c a, map-to_lower s b) refl

lower-flush : (next : Bool) (w : Runes) → all is_quiet w ≡ true → map to_lower (flush next w) ≡ w
lower-flush next w h = rw (map-to_lower w h) (elim (Bool-cases (next || not (is_minor w))) [
  | inl e ↦ rw e (lower-capitalized w h)
  | inr e ↦ rw e (map-to_lower w h)
])

lower_append : (s t : Runes) → map to_lower (s ++ t) ≡ map to_lower s ++ map to_lower t
lower_append [] t = refl
lower_append (c ∷ s) t = ap (λ r. to_lower c ∷ r) (lower_append s t)

lower-title_from :
    (next : Bool) (w s : Runes)
    → all is_quiet w ≡ true
    → all is_quiet s ≡ true
    → map to_lower (title_from next w s) ≡ w ++ s
unfolding title_from
lower-title_from next w [] h k = lower-flush next w h ∙ sym (append-nil w)
lower-title_from next w (c ∷ s) h k =
    let (a, b) : (is_quiet c ≡ true) × (all is_quiet s ≡ true) = ground arith in
    elim (Bool-cases (ends_word c)) [
      | inl e ↦
          rw (e, title_from)
            (lower_append (flush next w) (c ∷ title_from (c == b'-') [] s)
              ∙ rw
                  (
                    lower-flush next w h,
                    to_lower-quiet c a,
                    lower-title_from (c == b'-') [] s refl b,
                  )
                  refl)
      | inr e ↦
          rw (e, title_from)
            (let q : all is_quiet (w ++ (c ∷ [])) ≡ true =
                rw (all-append is_quiet w (c ∷ []), h, a) refl in
              lower-title_from next (w ++ (c ∷ [])) s q b ∙ append_assoc w (c ∷ []) s)
    ]

lower-in_case :
    (picture : WordCase) (s : Runes) → all is_quiet s ≡ true → map to_lower (in_case picture s) ≡ s
lower-in_case small s h = map-to_lower s h
lower-in_case capital s h = lower_upper s h
lower-in_case title s h = lower-title_from true [] s refl h

letters-quiet : (w : Runes) → all is_letter w ≡ true → all is_quiet w ≡ true
letters-quiet [] h = refl
letters-quiet (c ∷ w) h =
    let (a, b) : (is_letter c ≡ true) × (all is_letter w ≡ true) = ground arith in
    let r = letters-quiet w b in ground arith

word-quiet : (w : Runes) → is_word w ≡ true → all is_quiet w ≡ true
unfolding is_word
word-quiet w h = letters-quiet w (ground arith)

text_of-quiet : (p : Phrase) → AreWords p → all is_quiet (text_of p) ≡ true
text_of-quiet (single w) h = word-quiet w h
text_of-quiet (join p g w) (h, k) =
    rw (all-append is_quiet (text_of p) (gap_text g ++ w), text_of-quiet p h) (by_gap g)
  where
    by_gap : (g : Gap) → all is_quiet (gap_text g ++ w) ≡ true
    by_gap space = word-quiet w k
    by_gap dash = word-quiet w k
    by_gap comma = word-quiet w k

-- No capital letters in the words of a number, nor in their ordinal.
Says-quiet :
    (n : ℕ) (s : Runes)
    → Says n s
    → (all is_quiet s ≡ true) × (all is_quiet (apply_ordinal_word s) ≡ true)
Says-quiet n s (p, a, b, e, (t, h, c), g) =
    let (q, k, eq) = apply_ordinal_word-text_of p h c in
    let quiet : (r : Runes) → r ≡ text_of q → all is_quiet r ≡ true =
      λ r x. subst (λ y. all is_quiet y ≡ true) (sym x) (text_of-quiet q k) in
    (
      subst (λ y. all is_quiet y ≡ true) t (text_of-quiet p h),
      quiet (apply_ordinal_word s) (ap apply_ordinal_word (sym t) ∙ eq),
    )

words-quiet :
    (n : ℕ)
    → n < 1000000000000000
    → (all is_quiet (int_to_words n) ≡ true)
      × (all is_quiet (apply_ordinal_word (int_to_words n)) ≡ true)
unfolding int_to_words apply_ordinal_word split_last ordinals
words-quiet zero h = (refl, refl)
words-quiet (suc n) h =
    let z : (suc n == 0) ≡ false = ground arith in
    rw z (
      Says-quiet (suc n) (to_words (suc (suc n)) (suc n))
        (to_words-Says (suc (suc n)) (suc n) (omega arith) (omega arith) h))

-- A natural number below a thousand trillions that is written in words, as a cardinal or an
-- ordinal, with any of the pictures w, W and Ww, is read back as the number.
pub parse_words-format_words :
    (picture : WordCase) (ordinal : Bool) (n : ℕ)
    → n < 1000000000000000
    → parse_words (format_words picture ordinal n) ≡ ok n
parse_words-format_words picture false n h =
    ap words_to_int (lower-in_case picture (int_to_words n) (words-quiet n h).0)
    ∙ (words_to_int-int_to_words n h).0
parse_words-format_words picture true n h =
    ap words_to_int
      (lower-in_case picture (apply_ordinal_word (int_to_words n)) (words-quiet n h).1)
    ∙ (words_to_int-int_to_words n h).1
