-- ===== src/Integer/Words/Counting.antt =====
-- What the words of a number count to.
use gnata.Base.{
  ℕ, zero, suc, ◌+◌, ◌*◌, ◌<◌, Bool, true, false, not, ◌&&◌, List, [], ◌∷◌, ◌++◌, ◌≡◌, refl, ap,
  ◌∙◌, append_assoc, Option, none, some, codes, arith, Bool-cases, inl, inr, ◌==◌, leb, lookup,
  bytes_keys, bytes_eq,
}
use gnata.Integer.{Runes}
use gnata.Integer.Words.{
  ones, tens, one_word, ten_word, hundred, word_vals, count, ordinals, irregulars,
}
use gnata.Integer.Words.Phrase.{
  Gap, space, Phrase, join, text_of, words_of, is_word, AreWords, is_cardinal, append,
  text_of-append, words_of-append, AreWords-append,
}

abbrev pub and_word : Runes
and_word = codes "and"

abbrev is_value : ℕ → Option ℕ → Bool
is_value v none = false
is_value v (some x) = x == v

-- A word for the number `v`.
means : Runes → ℕ → Bool
means w v =
    is_word w && (is_cardinal w && (not (bytes_eq w and_word) && is_value v (lookup w word_vals)))

abbrev pub Fact : Runes → ℕ → Type 0
Fact w v =
    (is_word w ≡ true)
    × (is_cardinal w ≡ true)
    × (bytes_eq w and_word ≡ false)
    × (lookup w word_vals ≡ some v)

means-Fact : (w : Runes) (v : ℕ) → means w v ≡ true → Fact w v
unfolding means
means-Fact w v h = go (lookup w word_vals) refl h
  where
    go :
        (o : Option ℕ)
        → lookup w word_vals ≡ o
        → (is_word w && (is_cardinal w && (not (bytes_eq w and_word) && is_value v o))) ≡ true
        → Fact w v
    go none e h = absurd (ground arith)
    go (some x) e h =
        let same : x ≡ v = ground arith in
        (ground arith, ground arith, ground arith, e ∙ ap some same)

abbrev all_below : (ℕ → Bool) → ℕ → Bool
all_below p zero = true
all_below p (suc n) = p n && all_below p n

below-all : (p : ℕ → Bool) (m n : ℕ) → all_below p m ≡ true → n < m → p n ≡ true
below-all p zero n h l = absurd (omega arith)
below-all p (suc m) n h l = elim (Bool-cases (n == m)) [
  | inl e ↦ (let s : n ≡ m = ground arith in rw s (ground arith))
  | inr e ↦ below-all p m n (ground arith) (ground arith)
]

one_means : ℕ → Bool
one_means n = means (one_word (suc n)) (suc n)

ten_means : ℕ → Bool
ten_means n = means (ten_word (suc (suc n))) (10 * suc (suc n))

ones-means : all_below one_means 19 ≡ true
unfolding one_means means ones is_word is_cardinal word_vals ordinals irregulars
ones-means = refl

tens-means : all_below ten_means 8 ≡ true
unfolding ten_means means tens is_word is_cardinal word_vals ordinals irregulars
tens-means = refl

hundred-means : means hundred 100 ≡ true
unfolding means is_word is_cardinal word_vals ordinals irregulars
hundred-means = refl

pub one_word-Fact : (n : ℕ) → n < 19 → Fact (one_word (suc n)) (suc n)
unfolding one_means
one_word-Fact n h = means-Fact (one_word (suc n)) (suc n) (below-all one_means 19 n ones-means h)

pub ten_word-Fact : (n : ℕ) → n < 8 → Fact (ten_word (suc (suc n))) (10 * suc (suc n))
unfolding ten_means
ten_word-Fact n h =
    means-Fact (ten_word (suc (suc n))) (10 * suc (suc n)) (below-all ten_means 8 n tens-means h)

pub hundred-Fact : Fact hundred 100
hundred-Fact = means-Fact hundred 100 hundred-means

pub trillion-Fact : Fact (codes "trillion") 1000000000000
unfolding means is_word is_cardinal word_vals ordinals irregulars
trillion-Fact = means-Fact (codes "trillion") 1000000000000 refl

pub billion-Fact : Fact (codes "billion") 1000000000
unfolding means is_word is_cardinal word_vals ordinals irregulars
billion-Fact = means-Fact (codes "billion") 1000000000 refl

pub million-Fact : Fact (codes "million") 1000000
unfolding means is_word is_cardinal word_vals ordinals irregulars
million-Fact = means-Fact (codes "million") 1000000 refl

pub thousand-Fact : Fact (codes "thousand") 1000
unfolding means is_word is_cardinal word_vals ordinals irregulars
thousand-Fact = means-Fact (codes "thousand") 1000 refl

-- A word below a hundred is added.
pub count-small :
    (w : Runes) (v : ℕ) (ws : List Runes) (t c : ℕ)
    → Fact w v
    → v < 100
    → count (w ∷ ws) (t, c) ≡ count ws (t, c + v)
unfolding count
count-small w v ws t c (_, _, a, l) h =
    let x : (v == 100) ≡ false = ground arith in
    let y : leb 1000 v ≡ false = ground arith in rw (a, l, count) (rw (x, y) refl)

-- From one total and current number to another.
abbrev pub Goes : Phrase → ℕ × ℕ → ℕ × ℕ → Type 0
Goes p s r = (ws : List Runes) → count (words_of p ++ ws) s ≡ count ws r

-- The same for a word.
abbrev pub Takes : Runes → ℕ × ℕ → ℕ × ℕ → Type 0
Takes w s r = (ws : List Runes) → count (w ∷ ws) s ≡ count ws r

pub Goes-join :
    (p : Phrase) (g : Gap) (w : Runes) (s r e : ℕ × ℕ)
    → Goes p s r
    → Takes w r e
    → Goes (join p g w) s e
Goes-join p g w s r e h k ws =
    ap (λ l. count l s) (append_assoc (words_of p) (w ∷ []) ws) ∙ h (w ∷ ws) ∙ k ws

pub Goes-append :
    (p : Phrase) (g : Gap) (q : Phrase) (s r e : ℕ × ℕ)
    → Goes p s r
    → Goes q r e
    → Goes (append p g q) s e
Goes-append p g q s r e h k ws =
    ap (λ l. count (l ++ ws) s) (words_of-append p g q)
    ∙ ap (λ l. count l s) (append_assoc (words_of p) (words_of q) ws)
    ∙ h (words_of q ++ ws)
    ∙ k ws

pub and-Takes : (s : ℕ × ℕ) → Takes and_word s s
unfolding count
and-Takes (t, c) ws = refl

-- One phrase, `and`, another phrase.
abbrev pub and_then : Phrase → Phrase → Phrase
and_then p q = append (join p space and_word) space q

pub text_of-and_then :
    (p q : Phrase) → text_of (and_then p q) ≡ text_of p ++ (codes " and " ++ text_of q)
text_of-and_then p q =
    text_of-append (join p space and_word) space q
    ∙ append_assoc (text_of p) (b' ' ∷ and_word) (b' ' ∷ text_of q)

and-is_word : is_word and_word ≡ true
unfolding is_word
and-is_word = refl

pub AreWords-and_then : (p q : Phrase) → AreWords p → AreWords q → AreWords (and_then p q)
AreWords-and_then p q h k = AreWords-append (join p space and_word) space q (h, and-is_word) k

pub Goes-and_then :
    (p q : Phrase) (s r e : ℕ × ℕ) → Goes p s r → Goes q r e → Goes (and_then p q) s e
Goes-and_then p q s r e h k =
    Goes-append (join p space and_word) space q s r e
      (Goes-join p space and_word s r r h (and-Takes r)) k
