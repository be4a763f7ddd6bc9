-- ===== src/Signature/Grammar.antt =====
-- The grammar of signatures, with what each parameter means, apart from the parser.
use gnata.Base.{
  ℕ, suc, ◌+◌, ◌≡◌, refl, sym, ap, ◌∙◌, inl, inr, Bool, true, false, ◌&&◌, ◌||◌, List, [], ◌∷◌,
  ◌++◌, Option, none, some, Bytes, ltb, ◌==◌, if◌then◌else◌, elem, all, arith, Bool-cases, ==_iff,
}
use gnata.Signature.{
  ParamSpec, is_valid_sig_type, is_modifier, Flags, add_modifier, parse_modifiers,
}

-- A parameter: a type or a union of types, perhaps a content type, and modifiers.
pub record Param : Type 0 where
  pub grouped : Bool
  pub types : Bytes
  pub content : Option ℕ
  pub modifiers : Bytes

abbrev pub print_content : Option ℕ → Bytes
print_content none = []
print_content (some c) = b'<' ∷ c ∷ b'>' ∷ []

abbrev pub print_types : Bool → Bytes → Bytes
print_types true types = b'(' ∷ (types ++ b')' ∷ [])
print_types false types = types

abbrev pub print_params : List Param → Bytes
print_params [] = []
print_params (p ∷ ps) =
    print_types p.grouped p.types ++ (print_content p.content ++ (p.modifiers ++ print_params ps))

-- A single type, or a union of at least one.
abbrev pub AreTypes : Bool → Bytes → Type 0
AreTypes g [] = ⊥
AreTypes true (t ∷ types) = all is_valid_sig_type (t ∷ types) ≡ true
AreTypes false (t ∷ types) = (is_valid_sig_type t ≡ true) × (types ≡ [])

abbrev pub is_container : ℕ → Bool
is_container t = t == b'a' || t == b'f'

-- A content type is valid, behind arrays and functions, an array among them.
abbrev pub IsContent : Bytes → Option ℕ → Type 0
IsContent types none = Unit
IsContent types (some c) =
    (all is_container types ≡ true) × (elem b'a' types ≡ true) × (is_valid_sig_type c ≡ true)

abbrev pub IsParam : Param → Type 0
IsParam p =
    AreTypes p.grouped p.types × IsContent p.types p.content × (all is_modifier p.modifiers ≡ true)

abbrev pub AreParams : List Param → Type 0
AreParams [] = Unit
AreParams (p ∷ ps) = IsParam p × AreParams ps

-- The modifiers before the last `-`.
abbrev pub before_last_dash : Bytes → Bytes
before_last_dash [] = []
before_last_dash (c ∷ ms) = if elem b'-' ms then c ∷ before_last_dash ms else []

-- The number of modifiers that append a `?` to the parameter's expression.
abbrev pub count_questions : Bytes → ℕ
count_questions [] = 0
count_questions (c ∷ ms) =
    if c == b'?' || c == b'-' then suc (count_questions ms) else count_questions ms

abbrev pub content_byte : Option ℕ → ℕ
content_byte none = 0
content_byte (some c) = c

abbrev pub meaning : Param → ParamSpec
meaning p = record {
  types = p.types;
  content_type = content_byte p.content;
  optional = elem b'?' p.modifiers;
  variadic = elem b'+' p.modifiers;
  context = elem b'-' p.modifiers;
  lazy =
      ltb 1 (count_questions p.modifiers)
      || elem b'+' p.modifiers && ltb 0 (count_questions p.modifiers);
  any_context = elem b'?' (before_last_dash p.modifiers);
}

-- The flags that modifiers add to flags.
abbrev pub flags_behind : Flags → Bytes → Flags
flags_behind f ms = record {
  optional = f.optional || elem b'?' ms;
  variadic = f.variadic || elem b'+' ms;
  context = f.context || elem b'-' ms;
  any_context =
      (if elem b'-' ms then f.optional || elem b'?' (before_last_dash ms) else f.any_context);
  questions = f.questions + count_questions ms;
}

flags_eq :
    (f g : Flags)
    → f.optional ≡ g.optional
    → f.variadic ≡ g.variadic
    → f.context ≡ g.context
    → f.any_context ≡ g.any_context
    → f.questions ≡ g.questions
    → f ≡ g
flags_eq f g o v c a q = λ i. record {
  optional = o i;
  variadic = v i;
  context = c i;
  any_context = a i;
  questions = q i;
}

flags_behind-nil : (f : Flags) → flags_behind f [] ≡ f
flags_behind-nil f =
    flags_eq (flags_behind f []) f (ground arith) (ground arith) (ground arith) refl (omega arith)

flags_behind-question :
    (f : Flags) (ms : Bytes) → flags_behind (add_modifier b'?' f) ms ≡ flags_behind f (b'?' ∷ ms)
unfolding add_modifier
flags_behind-question f ms =
    flags_eq (flags_behind (add_modifier b'?' f) ms) (flags_behind f (b'?' ∷ ms)) (ground arith)
      (ground arith) (ground arith) (ground arith) (ground arith)

flags_behind-plus :
    (f : Flags) (ms : Bytes) → flags_behind (add_modifier b'+' f) ms ≡ flags_behind f (b'+' ∷ ms)
unfolding add_modifier
flags_behind-plus f ms =
    flags_eq (flags_behind (add_modifier b'+' f) ms) (flags_behind f (b'+' ∷ ms)) (ground arith)
      (ground arith) (ground arith) (ground arith) (ground arith)

flags_behind-dash :
    (f : Flags) (ms : Bytes) → flags_behind (add_modifier b'-' f) ms ≡ flags_behind f (b'-' ∷ ms)
unfolding add_modifier
flags_behind-dash f ms =
    flags_eq (flags_behind (add_modifier b'-' f) ms) (flags_behind f (b'-' ∷ ms)) (ground arith)
      (ground arith) (ground arith) (ground arith) (ground arith)

flags_behind-cons :
    (f : Flags) (c : ℕ) (ms : Bytes)
    → is_modifier c ≡ true
    → flags_behind (add_modifier c f) ms ≡ flags_behind f (c ∷ ms)
flags_behind-cons f c ms h = elim (Bool-cases (c == b'?')) [
  | inl e ↦ rw ((==_iff c b'?').0 e) (flags_behind-question f ms)
  | inr e ↦ elim (Bool-cases (c == b'+')) [
    | inl e1 ↦ rw ((==_iff c b'+').0 e1) (flags_behind-plus f ms)
    | inr e1 ↦ (let dash : c ≡ b'-' = ground (arith, h, e, e1) in rw dash (flags_behind-dash f ms))
  ]
]

-- No modifier begins the text.
abbrev pub NoModifier : Bytes → Type 0
NoModifier [] = Unit
NoModifier (c ∷ s) = is_modifier c ≡ false

pub parse_modifiers-behind :
    (f : Flags) (ms s : Bytes)
    → all is_modifier ms ≡ true
    → NoModifier s
    → parse_modifiers f (ms ++ s) ≡ (flags_behind f ms, s)
unfolding parse_modifiers
parse_modifiers-behind f [] [] h k = ap (λ g. (g, [])) (sym (flags_behind-nil f))
parse_modifiers-behind f [] (c ∷ s) h k = rw k (ap (λ g. (g, c ∷ s)) (sym (flags_behind-nil f)))
parse_modifiers-behind f (c ∷ ms) s h k =
    let modifier : is_modifier c ≡ true = ground (arith, h) in
    rw modifier (
      parse_modifiers-behind (add_modifier c f) ms s (ground (arith, h)) k
      ∙ ap (λ g. (g, s)) (flags_behind-cons f c ms modifier))
