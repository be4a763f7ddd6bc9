-- ===== src/Integer/Words/Fields.antt =====
-- Reading the fields of a phrase.
use gnata.Base.{
  ℕ, true, false, List, [], ◌∷◌, ◌++◌, ◌≡◌, refl, ap, sym, ◌∙◌, append_assoc, append-nil, all,
  arith, map, Bool-cases, inl, inr,
}
use gnata.Integer.{Runes}
use gnata.Integer.Words.{is_white, closed, fields, to_space}
use gnata.Integer.Words.Phrase.{
  Gap, space, dash, comma, gap_text, Phrase, single, join, text_of, words_of, is_letter, is_word,
  AreWords, not_empty,
}

letter-ne-white : (c : ℕ) → is_letter c ≡ true → is_white c ≡ false
letter-ne-white c h = ground arith

letter-to_space : (c : ℕ) → is_letter c ≡ true → to_space c ≡ c
letter-to_space c h = ground arith

map-word : (w : Runes) → all is_letter w ≡ true → map to_space w ≡ w
map-word [] h = refl
map-word (c ∷ w) h =
    let (a, b) : (is_letter c ≡ true) × (all is_letter w ≡ true) = ground arith in
    rw (letter-to_space c a, map-word w b) refl

map-append : (s t : Runes) → map to_space (s ++ t) ≡ map to_space s ++ map to_space t
map-append [] t = refl
map-append (c ∷ s) t = ap (λ r. to_space c ∷ r) (map-append s t)

-- A word is read to its end.
fields-word :
    (acc w : Runes) (s : Runes) → all is_letter w ≡ true → fields acc (w ++ s) ≡ fields (acc ++ w) s
unfolding fields
fields-word acc [] s h = ap (λ r. fields r s) (sym (append-nil acc))
fields-word acc (c ∷ w) s h =
    let (a, b) : (is_letter c ≡ true) × (all is_letter w ≡ true) = ground arith in
    rw (letter-ne-white c a, fields)
      (fields-word (acc ++ (c ∷ [])) w s b ∙ ap (λ r. fields r s) (append_assoc acc (c ∷ []) w))

closed-append : (acc : Runes) (xs ys : List Runes) → closed acc (xs ++ ys) ≡ closed acc xs ++ ys
closed-append [] xs ys = refl
closed-append (d ∷ ds) xs ys = refl

-- A space separates what is before it from what is behind it.
fields-space : (acc s t : Runes) → fields acc (s ++ (b' ' ∷ t)) ≡ fields acc s ++ fields [] t
unfolding fields
fields-space [] [] t = refl
fields-space (d ∷ ds) [] t = refl
fields-space acc (c ∷ s) t = elim (Bool-cases (is_white c)) [
  | inr n ↦ rw (n, fields) (fields-space (acc ++ (c ∷ [])) s t)
  | inl y ↦
      rw (y, fields) (rw (fields-space [] s t) (closed-append acc (fields [] s) (fields [] t)))
]

fields-single : (w : Runes) → is_word w ≡ true → fields [] w ≡ w ∷ []
unfolding is_word fields
fields-single w h =
    let (a, b) : (not_empty w ≡ true) × (all is_letter w ≡ true) = ground arith in
    let e : w ≡ w ++ [] = sym (append-nil w) in
    ap (fields []) e ∙ fields-word [] w [] b ∙ closed-word w a
  where
    closed-word : (w : Runes) → not_empty w ≡ true → fields w [] ≡ w ∷ []
    closed-word [] h = cc
    closed-word (c ∷ w) h = refl

letters : (w : Runes) → is_word w ≡ true → all is_letter w ≡ true
unfolding is_word
letters w h = ground arith

gap-fields :
    (s : Runes) (g : Gap) (w : Runes)
    → fields [] (map to_space (s ++ (gap_text g ++ w)))
      ≡ fields [] (map to_space s) ++ fields [] (map to_space w)
unfolding fields
gap-fields s g w = rw (map-append s (gap_text g ++ w)) (by_gap g)
  where
    by_gap :
        (g : Gap)
        → fields [] (map to_space s ++ map to_space (gap_text g ++ w))
          ≡ fields [] (map to_space s) ++ fields [] (map to_space w)
    by_gap space = fields-space [] (map to_space s) (map to_space w)
    by_gap dash = fields-space [] (map to_space s) (map to_space w)
    by_gap comma = fields-space [] (map to_space s) (b' ' ∷ map to_space w)

-- The fields of a phrase are its words.
pub fields-text_of : (p : Phrase) → AreWords p → fields [] (map to_space (text_of p)) ≡ words_of p
unfolding is_word
fields-text_of (single w) h = rw (map-word w (letters w h)) (fields-single w h)
fields-text_of (join p g w) (h, k) =
    gap-fields (text_of p) g w
    ∙ rw (map-word w (letters w k), fields-text_of p h, fields-single w k) refl
