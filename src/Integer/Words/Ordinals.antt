-- ===== src/Integer/Words/Ordinals.antt =====
-- The last word of a phrase, as an ordinal and back.
use gnata.Base.{
  ℕ, true, false, not, ◌&&◌, [], ◌∷◌, ◌++◌, ◌≡◌, refl, ap, sym, ◌∙◌, append_assoc, all, Option,
  none, some, arith, lookup, bytes_keys, bytes_eq, bytes_eq_iff, is_some,
}
use gnata.Integer.{Runes}
use gnata.Integer.Words.{
  ordinals, irregulars, is_gap, split_last, apply_ordinal_word, de_ordinalise,
}
use gnata.Integer.Words.Phrase.{
  Gap, space, dash, comma, gap_text, Phrase, single, join, text_of, last_word, is_letter, is_word,
  AreWords, is_cardinal, has_ordinal, turns_into,
}

split_last-letters : (w : Runes) → all is_letter w ≡ true → split_last w ≡ ([], w)
unfolding split_last
split_last-letters [] h = refl
split_last-letters (c ∷ w) h =
    let (a, b) : (is_gap c ≡ false) × (all is_letter w ≡ true) = ground arith in
    rw (split_last-letters w b) (rw a refl)

split_last-gap :
    (s : Runes) (c : ℕ) (w : Runes)
    → is_gap c ≡ true
    → all is_letter w ≡ true
    → split_last (s ++ (c ∷ w)) ≡ (s ++ (c ∷ []), w)
unfolding split_last
split_last-gap [] c w g h = rw (split_last-letters w h) (rw g refl)
split_last-gap (d ∷ []) c w g h = rw (split_last-gap [] c w g h) refl
split_last-gap (d ∷ e ∷ s) c w g h = rw (split_last-gap (e ∷ s) c w g h) refl

pub split_last-join :
    (s : Runes) (g : Gap) (w : Runes)
    → all is_letter w ≡ true
    → split_last (s ++ (gap_text g ++ w)) ≡ (s ++ gap_text g, w)
split_last-join s space w h = split_last-gap s b' ' w refl h
split_last-join s dash w h = split_last-gap s b'-' w refl h
split_last-join s comma w h =
    ap split_last (sym (append_assoc s (b',' ∷ []) (b' ' ∷ w)))
    ∙ split_last-gap (s ++ (b',' ∷ [])) b' ' w refl h
    ∙ ap (λ r. (r, w)) (append_assoc s (b',' ∷ []) (b' ' ∷ []))

letters : (w : Runes) → is_word w ≡ true → all is_letter w ≡ true
unfolding is_word
letters w h = ground arith

-- What the tables say of a cardinal.
abbrev Turned : Runes → Type 0
Turned w =
    (o : Runes) × (lookup w ordinals ≡ some o)
    × (is_word o ≡ true)
    × (lookup o irregulars ≡ some w)
    × (lookup w irregulars ≡ none)

cardinal-Turned : (w : Runes) → is_cardinal w ≡ true → Turned w
unfolding is_cardinal
cardinal-Turned w h = go (lookup w irregulars) (lookup w ordinals) h refl refl
  where
    back :
        (o : Runes) (c : Option Runes)
        → (is_word o && turns_into w c) ≡ true
        → lookup o irregulars ≡ c
        → lookup w ordinals ≡ some o
        → lookup w irregulars ≡ none
        → Turned w
    back o none h e eo ei = absurd (ground arith)
    back o (some c) h e eo ei =
        let (a, b) : (is_word o ≡ true) × (bytes_eq c w ≡ true) = ground arith in
        (o, eo, a, e ∙ ap some ((bytes_eq_iff c w).0 b), ei)

    go :
        (i o : Option Runes)
        → (not (is_some i) && has_ordinal w o) ≡ true
        → lookup w irregulars ≡ i
        → lookup w ordinals ≡ o
        → Turned w
    go (some i) o h ei eo = absurd (ground arith)
    go none none h ei eo = absurd (ground arith)
    go none (some o) h ei eo = back o (lookup o irregulars) h refl eo ei

-- A cardinal number in words is no ordinal.
pub de_ordinalise-text_of :
    (p : Phrase)
    → AreWords p
    → is_cardinal (last_word p) ≡ true
    → de_ordinalise (text_of p) ≡ text_of p
unfolding de_ordinalise
de_ordinalise-text_of (single w) h c =
    let (o, _, _, _, e) = cardinal-Turned w c in rw (split_last-letters w (letters w h)) (rw e refl)
de_ordinalise-text_of (join p g w) (h, k) c =
    let (o, _, _, _, e) = cardinal-Turned w c in
    rw (split_last-join (text_of p) g w (letters w k))
      (rw e (append_assoc (text_of p) (gap_text g) w))

-- The ordinal of a number in words is made of words.
pub apply_ordinal_word-text_of :
    (p : Phrase)
    → AreWords p
    → is_cardinal (last_word p) ≡ true
    → (q : Phrase) × (AreWords q) × (apply_ordinal_word (text_of p) ≡ text_of q)
unfolding apply_ordinal_word
apply_ordinal_word-text_of (single w) h c =
    let (o, eo, ow, _, _) = cardinal-Turned w c in
    (single o, ow, rw (split_last-letters w (letters w h)) (rw eo refl))
apply_ordinal_word-text_of (join p g w) (h, k) c =
    let (o, eo, ow, _, _) = cardinal-Turned w c in
    (
      join p g o,
      (h, ow),
      rw (split_last-join (text_of p) g w (letters w k))
          (rw eo (append_assoc (text_of p) (gap_text g) o)),
    )

-- The ordinal of a number in words is turned back into the cardinal.
pub de_ordinalise-apply_ordinal_word :
    (p : Phrase)
    → AreWords p
    → is_cardinal (last_word p) ≡ true
    → de_ordinalise (apply_ordinal_word (text_of p)) ≡ text_of p
unfolding de_ordinalise apply_ordinal_word
de_ordinalise-apply_ordinal_word (single w) h c =
    let (o, eo, ow, ei, _) = cardinal-Turned w c in
    rw (split_last-letters w (letters w h))
      (rw eo (rw (split_last-letters o (letters o ow)) (rw ei refl)))
de_ordinalise-apply_ordinal_word (join p g w) (h, k) c =
    let (o, eo, ow, ei, _) = cardinal-Turned w c in
    rw (split_last-join (text_of p) g w (letters w k)) (
      rw eo (
        rw (append_assoc (text_of p) (gap_text g) o, split_last-join (text_of p) g o (letters o ow))
          (rw ei (append_assoc (text_of p) (gap_text g) w))))
