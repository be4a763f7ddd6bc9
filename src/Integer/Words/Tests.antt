-- ===== src/Integer/Words/Tests.antt =====
-- Numbers in words.
use gnata.Base.{◌≡◌, refl, arith, codes, true}
use gnata.Integer.{ok}
use gnata.Integer.Words.{
  int_to_words, to_words, below_thousand, below_hundred, ones, tens, title, title_from,
  format_words, parse_words, apply_ordinal_word, split_last, ordinals,
}
use gnata.Integer.Words.Cases.{parse_words-format_words}

words-1999 : int_to_words 1999 ≡ codes "one thousand, nine hundred and ninety-nine"
unfolding int_to_words to_words below_thousand below_hundred ones tens
words-1999 = refl

title-1999 : format_words title true 1999 ≡ codes "One Thousand, Nine Hundred and Ninety-Ninth"
unfolding int_to_words to_words below_thousand below_hundred ones tens title_from apply_ordinal_word
    split_last ordinals
title-1999 = refl

parse_words-format_words_example : parse_words (format_words title true 1999) ≡ ok 1999
parse_words-format_words_example = parse_words-format_words title true 1999 (omega arith)
