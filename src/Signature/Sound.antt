-- ===== src/Signature/Sound.antt =====
-- What each part of `ParseSig` leaves of the text and what its specs hold.
use gnata.Base.{
  ℕ, suc, ◌≤◌, ◌≡◌, refl, ◌∙◌, inl, inr, Bool, true, false, not, ◌&&◌, ◌||◌, [], ◌∷◌, ◌++◌, Bytes,
  ◌==◌, if◌then◌else◌, length, elem, all, all-append, arith, Bool-cases, Option-cases,
}
use gnata.Signature.{
  ParamSpec, Outcome, fine, failed, is_valid_sig_type, depth_after, skip_brackets,
  skip_brackets_keep_close, close_union, parse_sig_union, invalid_content, close_content,
  skip_nested, content_of, parse_sig_content_type, Flags, no_flags, parse_modifiers, make_spec,
  parse_types, parse_content, parse_param, and_then,
}
use gnata.Signature.Modifiers.{are_flags, length-parse_modifiers, flags-parse_modifiers}

-- A part that succeeds leaves at most `n` bytes and a result with `P`.
abbrev pub Leaves : {A : Type 0} (P : A → Type 0) → ℕ → Outcome (A × Bytes) → Type 0
Leaves P n (failed e) = Unit
Leaves P n (fine (a, r)) = (length r ≤ n) × P a

-- The accepted types: at least one, and all valid.
abbrev pub are_types : Bytes → Bool
are_types [] = false
are_types (t ∷ types) = all is_valid_sig_type (t ∷ types)

-- A content type belongs to an array.
abbrev pub is_content : Bytes → ℕ → Bool
is_content types c = c == 0 || (elem b'a' types && (is_valid_sig_type c || c == b'('))

-- What holds of every spec that is parsed.
abbrev pub is_spec : ParamSpec → Bool
is_spec p =
    are_types p.types
    && is_content p.types p.content_type
    && (not p.any_context || (p.optional && p.context))
    && (not p.lazy || (p.optional || p.context))

pub length-skip_brackets : (d : ℕ) (s : Bytes) → length (skip_brackets d s) ≤ length s
unfolding skip_brackets
length-skip_brackets d [] = omega arith
length-skip_brackets d (c ∷ s) = ground (arith, length-skip_brackets (depth_after c d) s)

pub length-skip_brackets_keep_close :
    (d : ℕ) (s : Bytes) → length (skip_brackets_keep_close d s) ≤ length s
unfolding skip_brackets_keep_close
length-skip_brackets_keep_close d [] = omega arith
length-skip_brackets_keep_close d (c ∷ s) =
    ground (arith, length-skip_brackets_keep_close (depth_after c d) s)

weaken :
    {A : Type 0} (P : A → Type 0) (n : ℕ) (o : Outcome (A × Bytes))
    → Leaves P n o
    → Leaves P (suc n) o
weaken P n (failed e) h = tt
weaken P n (fine (a, r)) (h, p) = (omega arith, p)

close_union-Leaves :
    (types s : Bytes) (n : ℕ)
    → length s ≤ n
    → all is_valid_sig_type types ≡ true
    → Leaves (λ t. are_types t ≡ true) n (close_union types s)
unfolding close_union
close_union-Leaves [] s n k h = tt
close_union-Leaves (t ∷ types) s n k h = (k, h)

parse_sig_union-Leaves :
    (types s : Bytes)
    → all is_valid_sig_type types ≡ true
    → Leaves (λ t. are_types t ≡ true) (length s) (parse_sig_union types s)
unfolding parse_sig_union close_union
parse_sig_union-Leaves types [] h = tt
parse_sig_union-Leaves types (c ∷ s) h = elim (Bool-cases (c == b')')) [
  | inl e ↦ rw e (close_union-Leaves types s (length (c ∷ s)) (omega arith) h)
  | inr e ↦ elim (Bool-cases (c == b'<')) [
    | inl e1 ↦ rw (e, e1) tt
    | inr e1 ↦ elim (Bool-cases (is_valid_sig_type c)) [
      | inr e2 ↦ rw (e, e1, e2) tt
      | inl e2 ↦
          (let valid : all is_valid_sig_type (types ++ c ∷ []) ≡ true =
              all-append is_valid_sig_type types (c ∷ []) ∙ rw (h, e2) refl in
            rw (e, e1, e2)
              (weaken _ (length s) (parse_sig_union (types ++ c ∷ []) s)
                (parse_sig_union-Leaves (types ++ c ∷ []) s valid)))
    ]
  ]
]

close_content-Leaves :
    (types : Bytes) (content : ℕ) (s : Bytes) (n : ℕ)
    → length s ≤ n
    → is_content types content ≡ true
    → Leaves (λ c. is_content types c ≡ true) n (close_content content s)
unfolding close_content
close_content-Leaves types content [] n h k = tt
close_content-Leaves types content (c ∷ s) n h k = elim (Bool-cases (c == b'>')) [
  | inl e ↦ rw e (omega arith, k)
  | inr e ↦ rw e tt
]

length-skip_nested : (s : Bytes) → length (skip_nested s) ≤ length s
unfolding skip_nested
length-skip_nested [] = omega arith
length-skip_nested (c ∷ s) = ground (arith, length-skip_brackets 1 s)

content_of-Leaves :
    (types s : Bytes) → Leaves (λ c. is_content types c ≡ true) (length s) (content_of types s)
unfolding content_of
content_of-Leaves types [] =
    close_content-Leaves types 0 (skip_brackets_keep_close 1 []) 0
      (length-skip_brackets_keep_close 1 []) refl
content_of-Leaves types (c ∷ s) = elim (Bool-cases (elem b'a' types && is_valid_sig_type c)) [
  | inl e ↦
      (let less = length-skip_nested s in
        let held : is_content types c ≡ true = ground (arith, e) in
        rw e (close_content-Leaves types c (skip_nested s) (length (c ∷ s)) (omega arith) held))
  | inr e ↦
      (let content = if elem b'a' types && c == b'(' then b'(' else 0 in
        let held : is_content types content ≡ true = ground arith in
        rw e (
          close_content-Leaves types content (skip_brackets_keep_close 1 (c ∷ s)) (length (c ∷ s))
            (length-skip_brackets_keep_close 1 (c ∷ s)) held))
]

parse_sig_content_type-Leaves :
    (types s : Bytes)
    → Leaves (λ c. is_content types c ≡ true) (length s) (parse_sig_content_type types s)
unfolding parse_sig_content_type
parse_sig_content_type-Leaves types s = elim (Option-cases (invalid_content types)) [
  | inl e ↦ rw (e, parse_sig_content_type, Leaves) (content_of-Leaves types s)
  | inr (t, e) ↦ rw (e, parse_sig_content_type, Leaves) tt
]

parse_types-Leaves :
    (c : ℕ) (s : Bytes) → Leaves (λ t. are_types t ≡ true) (length s) (parse_types c s)
unfolding parse_types
parse_types-Leaves c s = elim (Bool-cases (c == b'(')) [
  | inl e ↦ rw e (parse_sig_union-Leaves [] s refl)
  | inr e ↦ elim (Bool-cases (is_valid_sig_type c)) [
    | inl e1 ↦ rw (e, e1) (omega arith, ground (arith, e1))
    | inr e1 ↦ rw (e, e1) tt
  ]
]

parse_content-Leaves :
    (types s : Bytes) → Leaves (λ c. is_content types c ≡ true) (length s) (parse_content types s)
unfolding parse_content
parse_content-Leaves types [] = (omega arith, refl)
parse_content-Leaves types (c ∷ s) = elim (Bool-cases (c == b'<')) [
  | inl e ↦
      rw e (
        weaken _ (length s) (parse_sig_content_type types s)
          (parse_sig_content_type-Leaves types s))
  | inr e ↦ rw e (omega arith, refl)
]

-- A part behind another leaves no more.
and_then-Leaves :
    {A B : Type 0} (P : A → Type 0) (Q : B → Type 0) (n : ℕ) (o : Outcome (A × Bytes))
    (k : A × Bytes → Outcome (B × Bytes))
    → Leaves P n o
    → ((a : A) (r : Bytes) → length r ≤ n → P a → Leaves Q n (k (a, r)))
    → Leaves Q n (and_then o k)
and_then-Leaves P Q n (failed e) k h f = tt
and_then-Leaves P Q n (fine (a, r)) k (h, p) f = f a r h p

widen :
    {A : Type 0} (P : A → Type 0) (m n : ℕ) (o : Outcome (A × Bytes))
    → m ≤ n
    → Leaves P m o
    → Leaves P n o
widen P m n (failed e) k h = tt
widen P m n (fine (a, r)) k (h, p) = (omega arith, p)

make_spec-is_spec :
    (types : Bytes) (content : ℕ) (f : Flags)
    → are_types types ≡ true
    → is_content types content ≡ true
    → are_flags f ≡ true
    → is_spec (make_spec types content f) ≡ true
unfolding make_spec
make_spec-is_spec types content f h k g = ground (arith, h, k, g)

-- A round of the loop leaves no more than what is behind its first byte, and makes a spec.
pub parse_param-Leaves :
    (c : ℕ) (s : Bytes) → Leaves (λ p. is_spec p ≡ true) (length s) (parse_param c s)
unfolding parse_param
parse_param-Leaves c s =
    and_then-Leaves _ _ (length s) (parse_types c s) _ (parse_types-Leaves c s) (λ types r h t.
      and_then-Leaves _ _ (length s) (parse_content types r) _
        (widen _ (length r) (length s) (parse_content types r) h (parse_content-Leaves types r))
        (λ content q k c.
          let flags = flags-parse_modifiers no_flags q refl in
          let less = length-parse_modifiers no_flags q in
          (omega arith, make_spec-is_spec types content (parse_modifiers no_flags q).0 t c flags)))
