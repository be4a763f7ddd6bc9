-- ===== src/Signature/Progress.antt =====
-- The loop of `ParseSig`, its fuel and its specs.
use gnata.Base.{
  ℕ, zero, suc, ◌≤◌, ◌≡◌, refl, subst, inl, inr, ◌⊎◌, true, List, [], ◌∷◌, Option, none, some,
  Bytes, length, arith,
}
use gnata.Signature.{
  ParamSpec, Outcome, fine, failed, SigError, parse_param, parse_params, add_spec, parse_sig,
  sig_strip_return_type,
}
use gnata.Signature.Sound.{Leaves, is_spec, parse_param-Leaves}

abbrev pub AreSpecs : List ParamSpec → Type 0
AreSpecs [] = Unit
AreSpecs (p ∷ ps) = (is_spec p ≡ true) × AreSpecs ps

-- A result: an error, or specs that are well formed.
abbrev pub IsResult : Option (Outcome (List ParamSpec)) → Type 0
IsResult none = ⊥
IsResult (some (failed e)) = Unit
IsResult (some (fine specs)) = AreSpecs specs

Outcome-cases :
    {A : Type 0} (o : Outcome A) → ((e : SigError) × (o ≡ failed e)) ⊎ ((a : A) × (o ≡ fine a))
Outcome-cases (failed e) = inl (e, refl)
Outcome-cases (fine a) = inr (a, refl)

cons-IsResult :
    (p : ParamSpec) (o : Option (Outcome (List ParamSpec)))
    → is_spec p ≡ true
    → IsResult o
    → IsResult (add_spec p o)
cons-IsResult p none h r = r
cons-IsResult p (some (failed e)) h r = r
cons-IsResult p (some (fine ps)) h r = (h, r)

parse_params-IsResult : (fuel : ℕ) (s : Bytes) → length s ≤ fuel → IsResult (parse_params fuel s)
unfolding parse_params
parse_params-IsResult fuel [] h = tt
parse_params-IsResult zero (c ∷ s) h = omega arith
parse_params-IsResult (suc fuel) (c ∷ s) h = elim (Outcome-cases (parse_param c s)) [
  | inl (e, q) ↦ rw (q, parse_params) tt
  | inr ((p, left), q) ↦
      (let (less, spec) : Leaves (λ p. is_spec p ≡ true) (length s) (fine (p, left)) =
          subst (Leaves (λ p. is_spec p ≡ true) (length s)) q (parse_param-Leaves c s) in
        rw (q, parse_params)
          (cons-IsResult p (parse_params fuel left) spec
            (parse_params-IsResult fuel left (omega arith))))
]

-- ParseSig returns for every signature, and the specs that it returns are well formed: each accepts
-- at least one type, all types valid; a content type belongs to an array and is valid or a choice;
-- an any-context parameter is optional and contextual; a lazy one is optional or contextual.
pub parse_sig-IsResult : (raw : Bytes) → IsResult (parse_sig raw)
unfolding parse_sig
parse_sig-IsResult raw =
    let s = sig_strip_return_type raw in parse_params-IsResult (length s) s (omega arith)
