-- ===== src/Integer/Words/Phrase.antt =====
-- Phrases: words with gaps between them, and their text.
use gnata.Base.{
  ℕ, Bool, true, false, not, ◌&&◌, List, [], ◌∷◌, ◌++◌, ◌≡◌, refl, ap, ◌∙◌, append_assoc, within,
  all, is_some, lookup, bytes_keys, Option, none, some, bytes_eq,
}
use gnata.Integer.{Runes}
use gnata.Integer.Words.{ordinals, irregulars}

-- `" "`, `"-"` or `", "`
pub data Gap : Type 0 where
  space dash comma : Gap

abbrev pub gap_text : Gap → Runes
gap_text space = b' ' ∷ []
gap_text dash = b'-' ∷ []
gap_text comma = b',' ∷ b' ' ∷ []

pub data Phrase : Type 0 where
  single : Runes → Phrase
  join : Phrase → Gap → Runes → Phrase

abbrev pub text_of : Phrase → Runes
text_of (single w) = w
text_of (join p g w) = text_of p ++ (gap_text g ++ w)

abbrev pub words_of : Phrase → List Runes
words_of (single w) = w ∷ []
words_of (join p g w) = words_of p ++ (w ∷ [])

abbrev pub last_word : Phrase → Runes
last_word (single w) = w
last_word (join p g w) = w

abbrev pub not_empty : Runes → Bool
not_empty [] = false
not_empty (c ∷ s) = true

abbrev pub is_letter : ℕ → Bool
is_letter c = within b'a' b'z' c

unfoldable pub is_word : Runes → Bool
is_word w = not_empty w && all is_letter w

abbrev pub AreWords : Phrase → Type 0
AreWords (single w) = is_word w ≡ true
AreWords (join p g w) = AreWords p × (is_word w ≡ true)

abbrev pub append : Phrase → Gap → Phrase → Phrase
append p g (single w) = join p g w
append p g (join q h w) = join (append p g q) h w

pub text_of-append :
    (p : Phrase) (g : Gap) (q : Phrase)
    → text_of (append p g q) ≡ text_of p ++ (gap_text g ++ text_of q)
text_of-append p g (single w) = refl
text_of-append p g (join q h w) = rw (text_of-append p g q) (
    append_assoc (text_of p) (gap_text g ++ text_of q) (gap_text h ++ w)
    ∙ ap (λ s. text_of p ++ s) (append_assoc (gap_text g) (text_of q) (gap_text h ++ w)))

pub words_of-append :
    (p : Phrase) (g : Gap) (q : Phrase) → words_of (append p g q) ≡ words_of p ++ words_of q
words_of-append p g (single w) = refl
words_of-append p g (join q h w) =
    rw (words_of-append p g q) (append_assoc (words_of p) (words_of q) (w ∷ []))

pub AreWords-append :
    (p : Phrase) (g : Gap) (q : Phrase) → AreWords p → AreWords q → AreWords (append p g q)
AreWords-append p g (single w) h k = (h, k)
AreWords-append p g (join q i w) h (k, l) = (AreWords-append p g q h k, l)

pub last_word-append : (p : Phrase) (g : Gap) (q : Phrase) → last_word (append p g q) ≡ last_word q
last_word-append p g (single w) = refl
last_word-append p g (join q h w) = refl

abbrev pub turns_into : Runes → Option Runes → Bool
turns_into w none = false
turns_into w (some c) = bytes_eq c w

abbrev pub has_ordinal : Runes → Option Runes → Bool
has_ordinal w none = false
has_ordinal w (some o) = is_word o && turns_into w (lookup o irregulars)

-- A word with an ordinal that is turned back into it, and that is no ordinal itself.
unfoldable pub is_cardinal : Runes → Bool
is_cardinal w = not (is_some (lookup w irregulars)) && has_ordinal w (lookup w ordinals)
