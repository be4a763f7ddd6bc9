-- ===== src/Signature/Modifiers.antt =====
-- The modifiers of a parameter.
use gnata.Base.{
  ℕ, ◌≤◌, ◌≡◌, inl, inr, Bool, true, not, ◌&&◌, ◌||◌, [], ◌∷◌, Bytes, ltb, ◌==◌, length, arith,
  Bool-cases,
}
use gnata.Signature.{Flags, add_modifier, is_modifier, parse_modifiers}

-- An any-context is optional and contextual, and so is whatever has a `?` in its expression.
abbrev pub are_flags : Flags → Bool
are_flags f =
    (not f.any_context || (f.optional && f.context))
    && (not (ltb 0 f.questions) || (f.optional || f.context))

pub length-parse_modifiers : (f : Flags) (s : Bytes) → length (parse_modifiers f s).1 ≤ length s
unfolding parse_modifiers
length-parse_modifiers f [] = omega arith
length-parse_modifiers f (c ∷ s) = ground (arith, length-parse_modifiers (add_modifier c f) s)

flags-add_modifier : (c : ℕ) (f : Flags) → are_flags f ≡ true → are_flags (add_modifier c f) ≡ true
unfolding add_modifier
flags-add_modifier c f h = elim (Bool-cases (c == b'?')) [
  | inl e ↦ rw e (ground (arith, h))
  | inr e ↦ elim (Bool-cases (c == b'+')) [
    | inl e1 ↦ rw (e, e1) (ground (arith, h))
    | inr e1 ↦ rw (e, e1) (ground (arith, h))
  ]
]

pub flags-parse_modifiers :
    (f : Flags) (s : Bytes) → are_flags f ≡ true → are_flags (parse_modifiers f s).0 ≡ true
unfolding parse_modifiers
flags-parse_modifiers f [] h = h
flags-parse_modifiers f (c ∷ s) h =
    let rest = flags-parse_modifiers (add_modifier c f) s (flags-add_modifier c f h) in
    elim (Bool-cases (is_modifier c)) [ inl e ↦ rw e rest | inr e ↦ rw e h ]
