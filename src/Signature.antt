-- ===== src/Signature.antt =====
-- internal/parser/signature.go: `ParseSig`, the parser of function signatures. An index into the
-- signature is the text that is left behind it.
pub mod Modifiers
pub mod Sound
pub mod Progress
pub mod Grammar
pub mod RoundTrip
pub mod ReturnType
mod Tests
use gnata.Base.{
  ℕ, zero, suc, ◌+◌, ◌-◌, Bool, true, false, not, ◌&&◌, ◌||◌, List, [], ◌∷◌, ◌++◌, Option, none,
  some, Bytes, ltb, ◌==◌, if◌then◌else◌, length, take, elem, ℤ, pos, inc, dec, is_zero,
}

-- `ParamSpec`
pub record ParamSpec : Type 0 where
  pub types : Bytes
  pub content_type : ℕ
  pub optional : Bool
  pub variadic : Bool
  pub context : Bool
  pub lazy : Bool
  pub any_context : Bool

-- The calls of `parseSigError`, each with the type that its message quotes.
pub data SigError : Type 0 where
  unknown_type : ℕ → SigError
  content_in_union : SigError
  unclosed_union : SigError
  empty_union : SigError
  content_not_valid : ℕ → SigError
  unclosed_content : SigError

pub data Outcome (A : Type 0) : Type 0 where
  fine : A → Outcome A
  failed : SigError → Outcome A

-- `if err != nil { return nil, err }`
abbrev pub and_then : {A B : Type 0} → Outcome A → (A → Outcome B) → Outcome B
and_then (failed e) k = failed e
and_then (fine a) k = k a

-- `isValidSigType`
abbrev pub sig_types : Bytes
sig_types = b'b' ∷ b'n' ∷ b's' ∷ b'l' ∷ b'a' ∷ b'o' ∷ b'f' ∷ b'j' ∷ b'x' ∷ b'u' ∷ []

pub is_valid_sig_type : ℕ → Bool
is_valid_sig_type c = elem c sig_types

-- The depth behind a byte within brackets.
abbrev pub depth_after : ℕ → ℕ → ℕ
depth_after c depth = if c == b'<' then suc depth else if c == b'>' then depth - 1 else depth

-- The loop of `skipBrackets`.
pub skip_brackets : ℕ → Bytes → Bytes
skip_brackets depth [] = []
skip_brackets depth (c ∷ s) =
    let rest = skip_brackets (depth_after c depth) s in if depth == 0 then c ∷ s else rest

-- The loop of `skipBracketsKeepClose`.
pub skip_brackets_keep_close : ℕ → Bytes → Bytes
skip_brackets_keep_close depth [] = []
skip_brackets_keep_close depth (c ∷ s) =
    let rest = skip_brackets_keep_close (depth_after c depth) s in
    if depth_after c depth == 0 then c ∷ s else rest

-- The end of `parseSigUnion` at the closing parenthesis.
pub close_union : Bytes → Bytes → Outcome (Bytes × Bytes)
close_union [] s = failed empty_union
close_union (t ∷ types) s = fine (t ∷ types, s)

-- `parseSigUnion`, with the types that are collected.
pub parse_sig_union : Bytes → Bytes → Outcome (Bytes × Bytes)
parse_sig_union types [] = failed unclosed_union
parse_sig_union types (c ∷ s) =
    let more = parse_sig_union (types ++ c ∷ []) s in
    if c == b')'
    then close_union types s
    else if c == b'<'
    then failed content_in_union
    else if not (is_valid_sig_type c)
    then failed (unknown_type c)
    else more

-- The first loop of `parseSigContentType`.
pub invalid_content : Bytes → Option ℕ
invalid_content [] = none
invalid_content (t ∷ types) =
    let rest = invalid_content types in if not (t == b'a') && not (t == b'f') then some t else rest

-- The end of `parseSigContentType`.
pub close_content : ℕ → Bytes → Outcome (ℕ × Bytes)
close_content content [] = failed unclosed_content
close_content content (c ∷ s) = if c == b'>' then fine (content, s) else failed unclosed_content

-- A nested block behind the content type.
pub skip_nested : Bytes → Bytes
skip_nested [] = []
skip_nested (c ∷ s) = if c == b'<' then skip_brackets 1 s else c ∷ s

-- `parseSigContentType` behind its `<`, for types that are valid.
pub content_of : Bytes → Bytes → Outcome (ℕ × Bytes)
content_of types [] = close_content 0 (skip_brackets_keep_close 1 [])
content_of types (c ∷ s) =
    if elem b'a' types && is_valid_sig_type c
    then close_content c (skip_nested s)
    else close_content (if elem b'a' types && c == b'(' then b'(' else 0)
        (skip_brackets_keep_close 1 (c ∷ s))

-- `parseSigContentType` behind its `<`
pub parse_sig_content_type : Bytes → Bytes → Outcome (ℕ × Bytes)
parse_sig_content_type types s = elim (invalid_content types) [
  | some t ↦ failed (content_not_valid t)
  | none ↦ content_of types s
]

-- The flags of a parameter and `questions`.
pub record Flags : Type 0 where
  pub optional : Bool
  pub variadic : Bool
  pub context : Bool
  pub any_context : Bool
  pub questions : ℕ

abbrev pub no_flags : Flags
no_flags = record {
  optional = false;
  variadic = false;
  context = false;
  any_context = false;
  questions = 0;
}

pub add_modifier : ℕ → Flags → Flags
add_modifier c f =
    if c == b'?'
    then record f { optional = true; questions = suc f.questions }
    else if c == b'+'
    then record f { variadic = true }
    else record f { context = true; any_context = f.optional; questions = suc f.questions }

abbrev pub is_modifier : ℕ → Bool
is_modifier c = c == b'?' || c == b'+' || c == b'-'

-- The loop over the modifiers.
pub parse_modifiers : Flags → Bytes → Flags × Bytes
parse_modifiers f [] = (f, [])
parse_modifiers f (c ∷ s) =
    let rest = parse_modifiers (add_modifier c f) s in if is_modifier c then rest else (f, c ∷ s)

-- The spec of a parameter, with `spec.Lazy`.
pub make_spec : Bytes → ℕ → Flags → ParamSpec
make_spec types content f = record {
  types = types;
  content_type = content;
  optional = f.optional;
  variadic = f.variadic;
  context = f.context;
  lazy = ltb 1 f.questions || f.variadic && ltb 0 f.questions;
  any_context = f.any_context;
}

-- The types of a parameter: the branches of `ParseSig` on its first byte.
pub parse_types : ℕ → Bytes → Outcome (Bytes × Bytes)
parse_types c s =
    if c == b'('
    then parse_sig_union [] s
    else if not (is_valid_sig_type c)
    then failed (unknown_type c)
    else fine (c ∷ [], s)

pub parse_content : Bytes → Bytes → Outcome (ℕ × Bytes)
parse_content types [] = fine (0, [])
parse_content types (c ∷ s) = if c == b'<' then parse_sig_content_type types s else fine (0, c ∷ s)

-- One round of the loop of `ParseSig`: a spec and the text that is left.
pub parse_param : ℕ → Bytes → Outcome (ParamSpec × Bytes)
parse_param c s = and_then (parse_types c s) (λ t.
    and_then (parse_content t.0 t.1) (λ k.
      let (flags, left) = parse_modifiers no_flags k.1 in fine (make_spec t.0 k.0 flags, left)))

-- `append(specs, spec)` before the specs of the rest
abbrev pub add_spec :
    ParamSpec → Option (Outcome (List ParamSpec)) → Option (Outcome (List ParamSpec))
add_spec spec none = none
add_spec spec (some (failed e)) = some (failed e)
add_spec spec (some (fine specs)) = some (fine (spec ∷ specs))

-- The loop of `ParseSig`; `none` where the fuel runs out.
pub parse_params : ℕ → Bytes → Option (Outcome (List ParamSpec))
parse_params fuel [] = some (fine [])
parse_params zero (c ∷ s) = none
parse_params (suc fuel) (c ∷ s) = elim (parse_param c s) [
  | failed e ↦ some (failed e)
  | fine (spec, left) ↦ add_spec spec (parse_params fuel left)
]

-- The loop of `sigStripReturnType`.
pub last_colon : ℤ → ℤ → ℕ → Option ℕ → Bytes → Option ℕ
last_colon paren angle i last [] = last
last_colon paren angle i last (c ∷ s) =
    last_colon (if c == b'(' then inc paren else if c == b')' then dec paren else paren)
      (if c == b'<' then inc angle else if c == b'>' then dec angle else angle) (suc i)
      (if c == b':' && is_zero paren && is_zero angle then some i else last) s

-- `sigStripReturnType`
pub sig_strip_return_type : Bytes → Bytes
sig_strip_return_type s = elim (last_colon (pos 0) (pos 0) 0 none s) [
  | some i ↦ take i s
  | none ↦ s
]

-- `ParseSig`. The fuel is the length of the signature.
pub parse_sig : Bytes → Option (Outcome (List ParamSpec))
parse_sig raw = let s = sig_strip_return_type raw in parse_params (length s) s
