-- ===== src/Integer/Words/RoundTrip.antt =====
-- Numbers in words, read back.
use gnata.Base.{
  ℕ, zero, suc, ◌+◌, ◌<◌, false, [], ◌≡◌, refl, ap, sym, ◌∙◌, append-nil, arith, ◌==◌, ltb,
}
use gnata.Integer.{Runes, ok}
use gnata.Integer.Words.{
  to_words, int_to_words, apply_ordinal_word, de_ordinalise, fields, count, words_to_float,
  checked_int, words_to_int, ordinals, irregulars, word_vals, split_last,
}
use gnata.Integer.Words.Phrase.{Phrase, text_of, words_of, AreWords}
use gnata.Integer.Words.Fields.{fields-text_of}
use gnata.Integer.Words.Ordinals.{de_ordinalise-text_of, de_ordinalise-apply_ordinal_word}
use gnata.Integer.Words.Counting.{Goes}
use gnata.Integer.Words.Scales.{Says, to_words-Says}

-- A text that is turned into that of a phrase counts what the phrase counts.
counted :
    (p : Phrase) (a b : ℕ) (s : Runes)
    → AreWords p
    → Goes p (0, 0) (0 + a, b)
    → de_ordinalise s ≡ text_of p
    → words_to_float s ≡ ok (a + b)
unfolding words_to_float count
counted p a b s h g e =
    rw (e, fields-text_of p h)
      (ap (λ ws. count ws (0, 0)) (sym (append-nil (words_of p))) ∙ g [] ∙ ap ok (omega arith))

checked-small : (n : ℕ) → n < 1000000000000000 → checked_int (ok n) ≡ ok n
checked-small n h = let a : ltb 9223372036854774784 n ≡ false = ground arith in rw a refl

read_back :
    (n : ℕ) (s : Runes) → n < 1000000000000000 → words_to_float s ≡ ok n → words_to_int s ≡ ok n
unfolding words_to_int
read_back n s h e = rw e (checked-small n h)

Says-words_to_int :
    (n : ℕ) (s : Runes)
    → n < 1000000000000000
    → Says n s
    → (words_to_int s ≡ ok n) × (words_to_int (apply_ordinal_word s) ≡ ok n)
Says-words_to_int n s l (p, a, b, e, (t, h, c), g) = (
  read_back n s l
      (counted p a b s h (g 0) (ap de_ordinalise (sym t) ∙ de_ordinalise-text_of p h c) ∙ ap ok e),
  read_back n (apply_ordinal_word s) l (
      counted p a b (apply_ordinal_word s) h (g 0) (
        ap (λ r. de_ordinalise (apply_ordinal_word r)) (sym t)
        ∙ de_ordinalise-apply_ordinal_word p h c)
      ∙ ap ok e),
)

-- The words of a number below a thousand trillions, as a cardinal and as an ordinal, are both
-- read back as the number.
pub words_to_int-int_to_words :
    (n : ℕ)
    → n < 1000000000000000
    → (words_to_int (int_to_words n) ≡ ok n)
      × (words_to_int (apply_ordinal_word (int_to_words n)) ≡ ok n)
unfolding int_to_words words_to_int words_to_float count fields de_ordinalise apply_ordinal_word
    split_last ordinals irregulars word_vals
words_to_int-int_to_words zero h = (refl, refl)
words_to_int-int_to_words (suc n) h =
    let z : (suc n == 0) ≡ false = ground arith in
    rw z (
      Says-words_to_int (suc n) (to_words (suc (suc n)) (suc n)) h
        (to_words-Says (suc (suc n)) (suc n) (omega arith) (omega arith) h))
