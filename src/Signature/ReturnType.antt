-- ===== src/Signature/ReturnType.antt =====
-- `sigStripReturnType` and `ParseSig` on signatures of the grammar with a return type.
use gnata.Base.{
  ℕ, suc, ◌+◌, ◌≡◌, refl, sym, ap, ◌∙◌, Bool, true, false, not, ◌||◌, List, [], ◌∷◌, ◌++◌, Option,
  none, some, Bytes, ◌==◌, length, length-append, take, take-append, all, arith, append_assoc,
  append-nil, ℤ, pos,
}
use gnata.Signature.{
  fine, is_valid_sig_type, is_modifier, last_colon, sig_strip_return_type, parse_params, parse_sig,
}
use gnata.Signature.Grammar.{
  Param, print_content, print_types, print_params, AreTypes, IsContent, AreParams,
}
use gnata.Signature.RoundTrip.{valid-plain, parse_params-params, length-print_params, meanings}

-- No bracket and no colon.
abbrev is_even : ℕ → Bool
is_even c = not (c == b'(' || c == b')' || c == b'<' || c == b'>' || c == b':')

last_colon-even :
    (p a : ℤ) (i : ℕ) (last : Option ℕ) (s t : Bytes)
    → all is_even s ≡ true
    → last_colon p a i last (s ++ t) ≡ last_colon p a (i + length s) last t
unfolding last_colon
last_colon-even p a i last [] t h = ap (λ j. last_colon p a j last t) (omega arith)
last_colon-even p a i last (c ∷ s) t h =
    let l : (c == b'(') ≡ false = ground (arith, h) in
    let r : (c == b')') ≡ false = ground (arith, h) in
    let lt : (c == b'<') ≡ false = ground (arith, h) in
    let gt : (c == b'>') ≡ false = ground (arith, h) in
    let colon : (c == b':') ≡ false = ground (arith, h) in
    let index : suc i + length s ≡ i + suc (length s) = omega arith in
    rw (l, r, lt, gt, colon, last_colon)
      (last_colon-even p a (suc i) last s t (ground (arith, h))
        ∙ ap (λ j. last_colon p a j last t) index)

all-weaken :
    (p q : ℕ → Bool) (s : Bytes)
    → ((c : ℕ) → p c ≡ true → q c ≡ true)
    → all p s ≡ true
    → all q s ≡ true
all-weaken p q [] f h = refl
all-weaken p q (c ∷ s) f h = ground (arith, h, f c, all-weaken p q s f)

valid-even : (c : ℕ) → is_valid_sig_type c ≡ true → is_even c ≡ true
valid-even c h = let plain = valid-plain c h in ground (arith, plain)

modifier-even : (c : ℕ) → is_modifier c ≡ true → is_even c ≡ true
modifier-even c h = ground (arith, h)

all_single :
    (t : ℕ) (types : Bytes)
    → is_valid_sig_type t ≡ true
    → types ≡ []
    → all is_even (t ∷ types) ≡ true
all_single t types v e = rw (e, valid-even t v) refl

-- Behind a balanced part without a colon the loop is where it was.
abbrev IsBalanced : Bytes → Type 0
IsBalanced s =
    (i : ℕ) (last : Option ℕ) (t : Bytes)
    → last_colon (pos 0) (pos 0) i last (s ++ t) ≡ last_colon (pos 0) (pos 0) (i + length s) last t

IsBalanced-append : (s t : Bytes) → IsBalanced s → IsBalanced t → IsBalanced (s ++ t)
IsBalanced-append s t f g i last u =
    let index : i + length s + length t ≡ i + length (s ++ t) = omega (arith, length-append s t) in
    ap (λ v. last_colon (pos 0) (pos 0) i last v) (append_assoc s t u)
    ∙ f i last (t ++ u)
    ∙ g (i + length s) last u
    ∙ ap (λ j. last_colon (pos 0) (pos 0) j last u) index

print_types-IsBalanced :
    (g : Bool) (types : Bytes) → AreTypes g types → IsBalanced (print_types g types)
unfolding last_colon
print_types-IsBalanced g [] h i last u = absurd h
print_types-IsBalanced true (t ∷ types) h i last u =
    let n = length (t ∷ types) in
    let inner =
      last_colon-even (pos 1) (pos 0) (suc i) last (t ∷ types) (b')' ∷ u)
        (all-weaken is_valid_sig_type is_even (t ∷ types) valid-even h) in
    let index : suc (suc i + n) ≡ i + suc (length ((t ∷ types) ++ b')' ∷ [])) =
      omega (arith, length-append (t ∷ types) (b')' ∷ [])) in
    ap (λ v. last_colon (pos 1) (pos 0) (suc i) last v) (append_assoc (t ∷ types) (b')' ∷ []) u)
    ∙ inner
    ∙ ap (λ j. last_colon (pos 0) (pos 0) j last u) index
print_types-IsBalanced false (t ∷ types) (v, e) i last u =
    last_colon-even (pos 0) (pos 0) i last (t ∷ types) u (all_single t types v e)

print_content-IsBalanced :
    (types : Bytes) (k : Option ℕ) → IsContent types k → IsBalanced (print_content k)
unfolding last_colon
print_content-IsBalanced types none h i last u =
    ap (λ j. last_colon (pos 0) (pos 0) j last u) (omega arith)
print_content-IsBalanced types (some c) (_, _, v) i last u =
    let inner =
      last_colon-even (pos 0) (pos 1) (suc i) last (c ∷ []) (b'>' ∷ u) (all_single c [] v refl) in
    let index : suc (suc i + 1) ≡ i + 3 = omega arith in
    inner ∙ ap (λ j. last_colon (pos 0) (pos 0) j last u) index

print_params-IsBalanced : (ps : List Param) → AreParams ps → IsBalanced (print_params ps)
print_params-IsBalanced [] h i last u = ap (λ j. last_colon (pos 0) (pos 0) j last u) (omega arith)
print_params-IsBalanced (p ∷ ps) ((t, c, m), hs) i last u =
    let modifiers : IsBalanced p.modifiers = λ i last u.
      last_colon-even (pos 0) (pos 0) i last p.modifiers u
        (all-weaken is_modifier is_even p.modifiers modifier-even m) in
    let content = print_content-IsBalanced p.types p.content c in
    let tail = p.modifiers ++ print_params ps in
    IsBalanced-append (print_types p.grouped p.types) (print_content p.content ++ tail)
      (print_types-IsBalanced p.grouped p.types t)
      (IsBalanced-append (print_content p.content) tail content
        (IsBalanced-append p.modifiers (print_params ps) modifiers (print_params-IsBalanced ps hs)))
      i last u

-- A return type: a list of types behind a colon, or none.
abbrev pub print_return : Option Bytes → Bytes
print_return none = []
print_return (some types) = b':' ∷ types

abbrev pub AreReturned : Option Bytes → Type 0
AreReturned none = Unit
AreReturned (some types) = all is_valid_sig_type types ≡ true

strip_none : (s : Bytes) → last_colon (pos 0) (pos 0) 0 none s ≡ none → sig_strip_return_type s ≡ s
unfolding sig_strip_return_type
strip_none s h = rw (h, sig_strip_return_type) refl

strip_some :
    (i : ℕ) (s : Bytes)
    → last_colon (pos 0) (pos 0) 0 none s ≡ some i
    → sig_strip_return_type s ≡ take i s
unfolding sig_strip_return_type
strip_some i s h = rw (h, sig_strip_return_type) refl

sig_strip-print :
    (ps : List Param) (r : Option Bytes)
    → AreParams ps
    → AreReturned r
    → sig_strip_return_type (print_params ps ++ print_return r) ≡ print_params ps
unfolding last_colon
sig_strip-print ps none h k =
    strip_none (print_params ps ++ []) (print_params-IsBalanced ps h 0 none [])
    ∙ append-nil (print_params ps)
sig_strip-print ps (some types) h k =
    let text = print_params ps in
    let at = 0 + length text in
    let found = print_params-IsBalanced ps h 0 none (b':' ∷ types) in
    let rest =
      last_colon-even (pos 0) (pos 0) (suc at) (some at) types []
        (all-weaken is_valid_sig_type is_even types valid-even k) in
    let end = ap (λ t. last_colon (pos 0) (pos 0) (suc at) (some at) t) (sym (append-nil types)) in
    let index : at ≡ length text = omega arith in
    strip_some at (text ++ b':' ∷ types) (found ∙ end ∙ rest)
    ∙ ap (λ j. take j (text ++ b':' ∷ types)) index
    ∙ take-append text (b':' ∷ types)

-- ParseSig reads every signature of the grammar as its parameters' meanings: single types and
-- unions, a content type behind an array, modifiers in any number and order, + on any parameter
-- among them, and a return type or none, which is dropped.
pub parse_sig-print_params :
    (ps : List Param) (r : Option Bytes)
    → AreParams ps
    → AreReturned r
    → parse_sig (print_params ps ++ print_return r) ≡ some (fine (meanings ps))
unfolding parse_sig
parse_sig-print_params ps r h k =
    ap (λ s. parse_params (length s) s) (sig_strip-print ps r h k)
    ∙ parse_params-params (length (print_params ps)) ps h (length-print_params ps h)
