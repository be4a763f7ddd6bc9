-- ===== src/Integer/Words/Scales.antt =====
-- The words of a number with its scales, as a phrase that counts to it.
use gnata.Base.{
  ℕ, zero, suc, ◌+◌, ◌*◌, ◌/◌, ◌%◌, ◌≤◌, ◌<◌, true, false, ◌∷◌, ◌++◌, ◌≡◌, refl, ap, sym, subst,
  ◌∙◌, append_assoc, append-nil, arith, Bool-cases, inl, inr, ◌==◌, ltb, leb, codes, bytes_keys,
}
use gnata.Integer.{Runes}
use gnata.Integer.Words.{joined, to_words, below_thousand, count}
use gnata.Integer.Words.Phrase.{
  space, comma, Phrase, join, append, last_word-append, text_of-append, AreWords-append,
  is_cardinal,
}
use gnata.Integer.Words.Counting.{
  Fact, trillion-Fact, billion-Fact, million-Fact, thousand-Fact, Goes, Takes, Goes-join,
  Goes-append, and_then, text_of-and_then, AreWords-and_then, Goes-and_then, and_word,
}
use gnata.Integer.Words.Small.{Spells, Counts, below_thousand-Counts}

-- It counts `a` in all and `b` at the end, which make `n`.
abbrev pub Says : ℕ → Runes → Type 0
Says n text =
    (p : Phrase) × (a : ℕ) × (b : ℕ) × (a + b ≡ n)
    × (Spells p text)
    × ((t : ℕ) → Goes p (t, 0) (t + a, b))

Counts-Says : (n : ℕ) (text : Runes) → Counts n text → Says n text
Counts-Says n text (p, s, g) =
    (p, 0, n, omega arith, s, λ t ws. g t ws ∙ ap (λ y. count ws (y, n)) (omega arith))

-- A scale multiplies a number that is not zero, which joins the total.
scale-Takes : (w : Runes) (v t c : ℕ) → Fact w v → 1000 ≤ v → 1 ≤ c → Takes w (t, c) (t + c * v, 0)
unfolding count
scale-Takes w v t c (_, _, a, l) h k ws =
    let x : (v == 100) ≡ false = ground arith in
    let y : leb 1000 v ≡ true = ground arith in
    let z : (c == 0) ≡ false = ground arith in rw (a, l, count) (rw (x, y, z) refl)

-- A scale ends with nothing but its total.
abbrev Ended : ℕ → Runes → Type 0
Ended n text = (p : Phrase) × (Spells p text) × ((t : ℕ) → Goes p (t, 0) (t + n, 0))

Ended-scale :
    (m v : ℕ) (text w : Runes)
    → Counts m text
    → Fact w v
    → 1000 ≤ v
    → 1 ≤ m
    → Ended (m * v) (text ++ (b' ' ∷ w))
Ended-scale m v text w (p, (e, h, c), g) f k l =
    let (a, d, _, _) = f in
    (
      join p space w,
      (ap (λ r. r ++ (b' ' ∷ w)) e, (h, a), d),
      λ t. Goes-join p space w (t, 0) (t, m) (t + m * v, 0) (g t) (scale-Takes w v t m f k l),
    )

Ended-Says : (n : ℕ) (text : Runes) → Ended n text → Says (n + 0) text
Ended-Says n text (p, s, g) = (p, n, 0, refl, s, g)

total_assoc :
    (p : Phrase) (t m a b : ℕ)
    → Goes p (t + m, 0) ((t + m) + a, b)
    → Goes p (t + m, 0) (t + (m + a), b)
total_assoc p t m a b g ws = g ws ∙ ap (λ y. count ws (y, b)) (omega arith)

Says-and : (m n : ℕ) (v w : Runes) → Ended m v → Says n w → Says (m + n) (v ++ (codes " and " ++ w))
Says-and m n v w (p, (e, h, c), g) (q, a, b, s, (i, j, k), l) = (
  and_then p q,
  m + a,
  b,
  omega arith,
  (
    text_of-and_then p q ∙ rw (e, i) refl,
    AreWords-and_then p q h j,
    subst (λ x. is_cardinal x ≡ true) (sym (last_word-append (join p space and_word) space q)) k,
  ),
  λ t.
      Goes-and_then p q (t, 0) (t + m, 0) (t + (m + a), b) (g t)
        (total_assoc q t m a b (l (t + m))),
)

Says-comma : (m n : ℕ) (v w : Runes) → Ended m v → Says n w → Says (m + n) (v ++ (codes ", " ++ w))
Says-comma m n v w (p, (e, h, c), g) (q, a, b, s, (i, j, k), l) = (
  append p comma q,
  m + a,
  b,
  omega arith,
  (
    text_of-append p comma q ∙ rw (e, i) refl,
    AreWords-append p comma q h j,
    subst (λ x. is_cardinal x ≡ true) (sym (last_word-append p comma q)) k,
  ),
  λ t.
      Goes-append p comma q (t, 0) (t + m, 0) (t + (m + a), b) (g t)
        (total_assoc q t m a b (l (t + m))),
)

Says-joined :
    (m r : ℕ) (v rest : Runes)
    → Ended m v
    → (1 ≤ r → Says r rest)
    → Says (m + r) (v ++ joined r rest)
Says-joined m zero v rest h k = subst (Says (m + 0)) (sym (append-nil v)) (Ended-Says m v h)
Says-joined m (suc r) v rest h k =
    let z : (suc r == 0) ≡ false = ground arith in
    elim (Bool-cases (ltb (suc r) 100)) [
      | inl e ↦ rw (z, e) (Says-and m (suc r) v rest h (k (omega arith)))
      | inr e ↦ rw (z, e) (Says-comma m (suc r) v rest h (k (omega arith)))
    ]

to_words-small : (fuel n : ℕ) → n < 1000 → n < fuel → to_words fuel n ≡ below_thousand n
unfolding to_words
to_words-small zero n h l = absurd (omega arith)
to_words-small (suc fuel) n h l =
    let a : ltb n 1000000000000 ≡ true = ground arith in
    let b : ltb n 1000000000 ≡ true = ground arith in
    let c : ltb n 1000000 ≡ true = ground arith in
    let d : ltb n 1000 ≡ true = ground arith in rw (a, b, c, d, to_words) refl

-- One scale and the remainder below it.
Says-scale :
    (fuel n v : ℕ) (w : Runes)
    → Fact w v
    → 1000 ≤ v
    → 1 ≤ n / v
    → n / v < 1000
    → n / v < fuel
    → (n / v) * v + n % v ≡ n
    → (1 ≤ n % v → Says (n % v) (to_words fuel (n % v)))
    → Says n (to_words fuel (n / v) ++ (b' ' ∷ (w ++ joined (n % v) (to_words fuel (n % v)))))
Says-scale fuel n v w f h l k fu e r =
    let first = below_thousand (n / v) in
    let c = below_thousand-Counts (n / v) l k in
    let s =
      Says-joined ((n / v) * v) (n % v) (first ++ (b' ' ∷ w)) (to_words fuel (n % v))
        (Ended-scale (n / v) v first w c f h l) r in
    rw (to_words-small fuel (n / v) k fu) (
      subst (Says n) (append_assoc first (b' ' ∷ w) (joined (n % v) (to_words fuel (n % v))))
        (subst (λ m. Says m ((first ++ (b' ' ∷ w)) ++ joined (n % v) (to_words fuel (n % v)))) e s))

-- Below a thousand trillions, the words of a number say it.
pub to_words-Says :
    (fuel n : ℕ) → 1 ≤ n → n < fuel → n < 1000000000000000 → Says n (to_words fuel n)
unfolding to_words
to_words-Says zero n l f h = absurd (omega arith)
to_words-Says (suc fuel) n l f h = elim (Bool-cases (ltb n 1000000000000)) [
  | inr a ↦
      rw (a, to_words)
        (Says-scale fuel n 1000000000000 (codes "trillion") trillion-Fact (omega arith)
          (ground arith) (omega arith) (ground arith) (omega arith)
          (λ r. to_words-Says fuel (n % 1000000000000) r (ground arith) (omega arith)))
  | inl a ↦
      rw (a, to_words)
        (elim (Bool-cases (ltb n 1000000000)) [
          | inr b ↦
              rw (b, to_words)
                (Says-scale fuel n 1000000000 (codes "billion") billion-Fact (omega arith)
                  (ground arith) (ground arith) (ground arith) (omega arith)
                  (λ r. to_words-Says fuel (n % 1000000000) r (ground arith) (omega arith)))
          | inl b ↦
              rw (b, to_words)
                (elim (Bool-cases (ltb n 1000000)) [
                  | inr c ↦
                      rw (c, to_words)
                        (Says-scale fuel n 1000000 (codes "million") million-Fact (omega arith)
                          (ground arith) (ground arith) (ground arith) (omega arith)
                          (λ r. to_words-Says fuel (n % 1000000) r (ground arith) (omega arith)))
                  | inl c ↦
                      rw (c, to_words)
                        (elim (Bool-cases (ltb n 1000)) [
                          | inr d ↦
                              rw (d, to_words)
                                (Says-scale fuel n 1000 (codes "thousand") thousand-Fact
                                  (omega arith) (ground arith) (ground arith) (ground arith)
                                  (omega arith)
                                  (λ r.
                                    to_words-Says fuel (n % 1000) r (ground arith) (omega arith)))
                          | inl d ↦
                              rw (d, to_words)
                                (Counts-Says n (below_thousand n)
                                  (below_thousand-Counts n l (ground arith)))
                        ])
                ])
        ])
]
