-- ===== src/Integer/Words/Small.antt =====
-- The words of a number below a thousand, as a phrase that counts to it.
use gnata.Base.{
  ℕ, zero, suc, ◌+◌, ◌*◌, ◌/◌, ◌%◌, ◌≤◌, ◌<◌, true, false, ◌∷◌, ◌++◌, ◌≡◌, refl, ap, sym, subst,
  ◌∙◌, append_assoc, arith, Bool-cases, inl, inr, ◌==◌, ltb, codes, if◌then◌else◌, bytes_keys,
}
use gnata.Integer.{Runes}
use gnata.Integer.Words.{
  one_word, ten_word, hundred, below_hundred, below_thousand, word_vals, count,
}
use gnata.Integer.Words.Phrase.{
  space, dash, Phrase, single, join, text_of, last_word, last_word-append, AreWords, is_cardinal,
}
use gnata.Integer.Words.Counting.{
  Fact, one_word-Fact, ten_word-Fact, hundred-Fact, count-small, Goes, Takes, Goes-join, and_then,
  text_of-and_then, AreWords-and_then, Goes-and_then, and_word,
}

-- A phrase for a text, which is made of words and ends with a cardinal.
abbrev pub Spells : Phrase → Runes → Type 0
Spells p text = (text_of p ≡ text) × (AreWords p) × (is_cardinal (last_word p) ≡ true)

-- It adds `n` below a thousand to what has been counted.
abbrev Adds : ℕ → Runes → Type 0
Adds n text = (p : Phrase) × (Spells p text) × ((t c : ℕ) → Goes p (t, c) (t, c + n))

-- It counts `n` from nothing.
abbrev pub Counts : ℕ → Runes → Type 0
Counts n text = (p : Phrase) × (Spells p text) × ((t : ℕ) → Goes p (t, 0) (t, n))

Adds-Counts : (n : ℕ) (text : Runes) → Adds n text → Counts n text
Adds-Counts n text (p, s, g) = (p, s, λ t ws. g t 0 ws ∙ ap (λ y. count ws (t, y)) (omega arith))

one-Fact : (n : ℕ) → 1 ≤ n → n < 20 → Fact (one_word n) n
one-Fact zero l h = absurd (omega arith)
one-Fact (suc n) l h = one_word-Fact n (omega arith)

ten-Fact : (n : ℕ) → 2 ≤ n → n < 10 → Fact (ten_word n) (10 * n)
ten-Fact zero l h = absurd (omega arith)
ten-Fact (suc zero) l h = absurd (omega arith)
ten-Fact (suc (suc n)) l h = ten_word-Fact n (omega arith)

Adds-word : (w : Runes) (n : ℕ) → Fact w n → n < 100 → Adds n w
Adds-word w n f h =
    let (a, b, _, _) = f in (single w, (refl, a, b), λ t c ws. count-small w n ws t c f h)

-- A ten, a dash and a one.
Adds-dash :
    (v w : Runes) (m n : ℕ)
    → Fact v m
    → Fact w n
    → m < 100
    → n < 100
    → Adds (m + n) (v ++ (b'-' ∷ w))
Adds-dash v w m n f g h k =
    let (a, _, _, _) = f in
    let (b, c, _, _) = g in
    (
      join (single v) dash w,
      (refl, (a, b), c),
      λ t x ws.
          count-small v m (w ∷ ws) t x f h
          ∙ count-small w n ws t (x + m) g k
          ∙ ap (λ y. count ws (t, y)) (omega arith),
    )

Adds-same : (m n : ℕ) (text : Runes) → m ≡ n → Adds m text → Adds n text
Adds-same m n text e h = subst (λ k. Adds k text) e h

below_hundred-Adds : (n : ℕ) → 1 ≤ n → n < 100 → Adds n (below_hundred n)
unfolding below_hundred
below_hundred-Adds n l h =
    let z : (n == 0) ≡ false = ground arith in
    rw z (elim (Bool-cases (ltb n 20)) [
      | inl s ↦ rw s (Adds-word (one_word n) n (one-Fact n l (ground arith)) h)
      | inr b ↦ rw b (large (ground arith))
    ])
  where
    large :
        20 ≤ n
        → Adds n (
            if n % 10 == 0
            then ten_word (n / 10)
            else ten_word (n / 10) ++ (b'-' ∷ one_word (n % 10)))
    large k =
        let f = ten-Fact (n / 10) (omega arith) (omega arith) in
        elim (Bool-cases (n % 10 == 0)) [
          | inl e ↦ rw e (
              let r : n % 10 ≡ 0 = ground arith in
              Adds-same (10 * (n / 10)) n (ten_word (n / 10)) (omega arith)
                (Adds-word (ten_word (n / 10)) (10 * (n / 10)) f (omega arith)))
          | inr e ↦ rw e (
              let r : 1 ≤ n % 10 = ground arith in
              Adds-same (10 * (n / 10) + n % 10) n (ten_word (n / 10) ++ (b'-' ∷ one_word (n % 10)))
                (omega arith)
                (Adds-dash (ten_word (n / 10)) (one_word (n % 10)) (10 * (n / 10)) (n % 10) f
                  (one-Fact (n % 10) r (omega arith)) (omega arith) (omega arith)))
        ]

-- `hundred` multiplies a number that is not zero.
hundred-Takes : (t c : ℕ) → 1 ≤ c → Takes hundred (t, c) (t, c * 100)
unfolding count word_vals
hundred-Takes t c h ws = let z : (c == 0) ≡ false = ground arith in rw z refl

-- A number of hundreds.
Counts-hundred :
    (w : Runes) (n : ℕ) → Fact w n → 1 ≤ n → n < 100 → Counts (n * 100) (w ++ (b' ' ∷ hundred))
Counts-hundred w n f l h =
    let (a, _, _, _) = f in
    let (b, c, _, _) = hundred-Fact in
    (
      join (single w) space hundred,
      (refl, (a, b), c),
      λ t.
          Goes-join (single w) space hundred (t, 0) (t, n) (t, n * 100)
            (λ ws. count-small w n ws t 0 f h ∙ ap (λ y. count ws (t, y)) (omega arith))
            (hundred-Takes t n l),
    )

Counts-and :
    (m n : ℕ) (v w : Runes) → Counts m v → Adds n w → Counts (m + n) (v ++ (codes " and " ++ w))
Counts-and m n v w (p, (a, b, c), g) (q, (d, e, f), k) = (
  and_then p q,
  (
    text_of-and_then p q ∙ rw (a, d) refl,
    AreWords-and_then p q b e,
    subst (λ x. is_cardinal x ≡ true) (sym (last_word-append (join p space and_word) space q)) f,
  ),
  λ t. Goes-and_then p q (t, 0) (t, m) (t, m + n) (g t) (k t m),
)

pub below_thousand-Counts : (n : ℕ) → 1 ≤ n → n < 1000 → Counts n (below_thousand n)
unfolding below_thousand
below_thousand-Counts n l h = elim (Bool-cases (ltb n 100)) [
  | inl s ↦ rw s (Adds-Counts n (below_hundred n) (below_hundred-Adds n l (ground arith)))
  | inr b ↦ rw b (large (ground arith))
]
  where
    large :
        100 ≤ n
        → Counts n (
            if n % 100 == 0
            then one_word (n / 100) ++ (b' ' ∷ hundred)
            else one_word (n / 100)
              ++ (b' ' ∷ (hundred ++ (codes " and " ++ below_hundred (n % 100)))))
    large k =
        let f = one-Fact (n / 100) (omega arith) (omega arith) in
        let c = Counts-hundred (one_word (n / 100)) (n / 100) f (omega arith) (omega arith) in
        elim (Bool-cases (n % 100 == 0)) [
          | inl e ↦ rw e (
              let r : n % 100 ≡ 0 = ground arith in
              let same : (n / 100) * 100 ≡ n = omega arith in
              subst (λ m. Counts m (one_word (n / 100) ++ (b' ' ∷ hundred))) same c)
          | inr e ↦ rw e (
              let r : 1 ≤ n % 100 = ground arith in
              let same : (n / 100) * 100 + n % 100 ≡ n = omega arith in
              let d =
                Counts-and ((n / 100) * 100) (n % 100) (one_word (n / 100) ++ (b' ' ∷ hundred))
                  (below_hundred (n % 100)) c (below_hundred-Adds (n % 100) r (omega arith)) in
              let text =
                append_assoc (one_word (n / 100)) (b' ' ∷ hundred)
                  (codes " and " ++ below_hundred (n % 100)) in
              subst (Counts n) text (
                subst
                  (λ m. Counts m (
                    (one_word (n / 100) ++ (b' ' ∷ hundred))
                    ++ (codes " and " ++ below_hundred (n % 100))))
                  same d))
        ]
