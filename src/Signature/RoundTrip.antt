-- ===== src/Signature/RoundTrip.antt =====
-- `ParseSig` on signatures of the grammar: a round of its loop for each parameter.
use gnata.Base.{
  ℕ, zero, suc, ◌+◌, ◌≤◌, ◌≡◌, refl, sym, ap, ◌∙◌, inl, inr, Bool, true, false, not, ◌||◌, List, [],
  ◌∷◌, ◌++◌, Option, none, some, Bytes, ◌==◌, if◌then◌else◌, length, length-append, elem, all,
  all-elem, arith, Bool-cases, append_assoc, append-nil, map,
}
use gnata.Signature.{
  ParamSpec, fine, is_valid_sig_type, sig_types, is_modifier, no_flags, make_spec, parse_sig_union,
  close_union, invalid_content, close_content, skip_nested, content_of, parse_sig_content_type,
  parse_types, parse_content, parse_param, parse_params, add_spec,
}
use gnata.Signature.Grammar.{
  Param, print_content, print_types, print_params, AreTypes, IsContent, IsParam, AreParams,
  content_byte, meaning, is_container, before_last_dash, count_questions, NoModifier,
  parse_modifiers-behind,
}

-- A byte that is no bracket, colon or modifier.
abbrev pub is_plain : ℕ → Bool
is_plain c = not (c == b'(' || c == b')' || c == b'<' || c == b'>' || c == b':' || is_modifier c)

pub valid-plain : (c : ℕ) → is_valid_sig_type c ≡ true → is_plain c ≡ true
unfolding is_valid_sig_type
valid-plain c h = all-elem is_plain sig_types c refl h

parse_sig_union-print :
    (acc types s : Bytes)
    → all is_valid_sig_type types ≡ true
    → parse_sig_union acc (types ++ b')' ∷ s) ≡ close_union (acc ++ types) s
unfolding parse_sig_union
parse_sig_union-print acc [] s h = ap (λ a. close_union a s) (sym (append-nil acc))
parse_sig_union-print acc (t ∷ types) s h =
    let valid : is_valid_sig_type t ≡ true = ground (arith, h) in
    let plain = valid-plain t valid in
    let not_close : (t == b')') ≡ false = ground (arith, plain) in
    let not_open : (t == b'<') ≡ false = ground (arith, plain) in
    rw (not_close, not_open, valid, parse_sig_union)
      (parse_sig_union-print (acc ++ t ∷ []) types s (ground (arith, h))
        ∙ ap (λ a. close_union a s) (append_assoc acc (t ∷ []) types))

invalid_content-container :
    (types : Bytes) → all is_container types ≡ true → invalid_content types ≡ none
unfolding invalid_content
invalid_content-container [] h = refl
invalid_content-container (t ∷ types) h = ground (arith, h, invalid_content-container types)

-- No content type begins the text.
abbrev NotOpen : Bytes → Type 0
NotOpen [] = Unit
NotOpen (c ∷ s) = (c == b'<') ≡ false

parse_content-print :
    (types : Bytes) (k : Option ℕ) (q : Bytes)
    → IsContent types k
    → NotOpen q
    → parse_content types (print_content k ++ q) ≡ fine (content_byte k, q)
unfolding parse_content parse_sig_content_type content_of close_content skip_nested
parse_content-print types none [] h n = refl
parse_content-print types none (c ∷ q) h n = rw n refl
parse_content-print types (some c) q (h, a, v) n =
    rw (invalid_content-container types h, parse_sig_content_type, a, v) refl

-- A text that goes on with a parameter or ends.
abbrev Starts : Bytes → Type 0
Starts s = NotOpen s × NoModifier s

Starts-types :
    (g : Bool) (types rest : Bytes) → AreTypes g types → Starts (print_types g types ++ rest)
Starts-types g [] rest h = absurd h
Starts-types true (t ∷ types) rest h = (refl, refl)
Starts-types false (t ∷ types) rest (v, _) =
    let plain = valid-plain t v in (ground (arith, plain), ground (arith, plain))

Starts-params : (ps : List Param) → AreParams ps → Starts (print_params ps)
Starts-params [] h = (tt, tt)
Starts-params (p ∷ ps) ((h, _, _), hs) =
    Starts-types p.grouped p.types (print_content p.content ++ (p.modifiers ++ print_params ps)) h

NotOpen-modifiers : (ms s : Bytes) → all is_modifier ms ≡ true → NotOpen s → NotOpen (ms ++ s)
NotOpen-modifiers [] s h k = k
NotOpen-modifiers (m ∷ ms) s h k = ground (arith, h)

abbrev print_rest : Param → Bytes → Bytes
print_rest p s = print_content p.content ++ (p.modifiers ++ s)

no_dash : (ms : Bytes) → elem b'-' ms ≡ false → before_last_dash ms ≡ []
no_dash [] h = refl
no_dash (c ∷ ms) h = ground (arith, h)

before_last_dash-bare :
    (ms : Bytes)
    → (if elem b'-' ms then elem b'?' (before_last_dash ms) else false)
      ≡ elem b'?' (before_last_dash ms)
before_last_dash-bare ms = elim (Bool-cases (elem b'-' ms)) [
  | inl e ↦ rw e refl
  | inr e ↦ rw (e, no_dash ms e) refl
]

-- The end of a round, behind the types.
parse_param-rest :
    (c : ℕ) (r : Bytes) (p : Param) (s : Bytes)
    → parse_types c r ≡ fine (p.types, print_rest p s)
    → IsParam p
    → Starts s
    → parse_param c r ≡ fine (meaning p, s)
unfolding parse_param make_spec
parse_param-rest c r p s e (_, k, m) (bare, modifier) =
    let content =
      parse_content-print p.types p.content (p.modifiers ++ s) k
        (NotOpen-modifiers p.modifiers s m bare) in
    let flags = parse_modifiers-behind no_flags p.modifiers s m modifier in
    let count : 0 + count_questions p.modifiers ≡ count_questions p.modifiers = omega arith in
    rw (e, content, flags, parse_param, count, before_last_dash-bare p.modifiers) refl

parse_types-print :
    (g : Bool) (types s : Bytes)
    → AreTypes g types
    → (c : ℕ) × (r : Bytes) × (print_types g types ++ s ≡ c ∷ r)
      × (parse_types c r ≡ fine (types, s))
unfolding parse_types close_union
parse_types-print g [] s h = absurd h
parse_types-print true (t ∷ types) s h =
    let text = append_assoc (t ∷ types) (b')' ∷ []) s in
    (
      b'(',
      ((t ∷ types) ++ b')' ∷ []) ++ s,
      refl,
      ap (λ r. parse_sig_union [] r) text ∙ parse_sig_union-print [] (t ∷ types) s h,
    )
parse_types-print false (t ∷ types) s (v, e) =
    let plain = valid-plain t v in
    let not_union : (t == b'(') ≡ false = ground (arith, plain) in
    (t, types ++ s, refl, rw (not_union, v, e) refl)

-- A round of the loop reads the parameter that was printed.
parse_params-print :
    (fuel : ℕ) (p : Param) (s : Bytes)
    → IsParam p
    → Starts s
    → parse_params (suc fuel) (print_types p.grouped p.types ++ print_rest p s)
      ≡ add_spec (meaning p) (parse_params fuel s)
unfolding parse_params
parse_params-print fuel p s h k =
    let (c, r, text, types) = parse_types-print p.grouped p.types (print_rest p s) h.0 in
    let read = parse_param-rest c r p s types h k in
    ap (λ t. parse_params (suc fuel) t) text ∙ rw (read, parse_params) refl

abbrev pub meanings : List Param → List ParamSpec
meanings ps = map meaning ps

pub parse_params-params :
    (fuel : ℕ) (ps : List Param)
    → AreParams ps
    → length ps ≤ fuel
    → parse_params fuel (print_params ps) ≡ some (fine (meanings ps))
unfolding parse_params
parse_params-params fuel [] h k = refl
parse_params-params zero (p ∷ ps) h k = absurd (omega arith)
parse_params-params (suc fuel) (p ∷ ps) (h, hs) k =
    let rest = parse_params-params fuel ps hs (omega arith) in
    parse_params-print fuel p (print_params ps) h (Starts-params ps hs)
    ∙ ap (add_spec (meaning p)) rest

length-print_types :
    (g : Bool) (types : Bytes) → AreTypes g types → 1 ≤ length (print_types g types)
length-print_types g [] h = absurd h
length-print_types true (t ∷ types) h = omega arith
length-print_types false (t ∷ types) h = omega arith

-- Each parameter prints at least a byte.
pub length-print_params : (ps : List Param) → AreParams ps → length ps ≤ length (print_params ps)
length-print_params [] h = omega arith
length-print_params (p ∷ ps) ((h, _, _), hs) =
    let tail = p.modifiers ++ print_params ps in
    let content = print_content p.content in
    let one = length-print_types p.grouped p.types h in
    let less = length-print_params ps hs in
    let whole = length-append (print_types p.grouped p.types) (content ++ tail) in
    let middle = length-append content tail in
    let last = length-append p.modifiers (print_params ps) in
    omega (arith, whole, middle, last, one, less)
