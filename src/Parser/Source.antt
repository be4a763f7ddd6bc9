-- ===== src/Parser/Source.antt =====
-- The lexer as what the parser reads its tokens from. Its state is the position in the source.
use gnata.Base.{
  ℕ, zero, suc, ◌+◌, ◌-◌, ◌≤◌, ◌<◌, ◌≡◌, ◌≢◌, refl, sym, ap, subst, ◌∙◌, inl, inr, Bool, [], ◌∷◌,
  Option, Bytes, arith, leb, length, drop, Bool-cases,
}
use gnata.Lexer.Token.{eof, Token, plain, Outcome, token, fail, out_of_fuel}
use gnata.Lexer.Next.{done, scan_at, scan, next_from, next}
use gnata.Lexer.Progress.Parts.{EndsWithin}
use gnata.Lexer.Progress.Total.{next-EndsWithin}
use gnata.Ast.{Node}
use gnata.Parser.Monad.{TokenSource, Result}
use gnata.Parser.Expression.{parse}

drop-all : (p : ℕ) (s : Bytes) → length s ≤ p → drop p s ≡ []
drop-all zero [] h = refl
drop-all zero (c ∷ s) h = absurd (omega arith)
drop-all (suc p) [] h = refl
drop-all (suc p) (c ∷ s) h = drop-all p s (omega arith)

eq_of_token : {F : Type 0} {t u : Token F} → token u ≡ token t → u ≡ t
eq_of_token h = cc

module _ {F : Type 0} (parse_float : Bytes → Option F) (src : Bytes) where
  -- Behind the end there is no token.
  scan_at_end :
      (b : Bool) (p : ℕ)
      → length src ≤ p
      → scan parse_float b src p ≡ done (token (plain eof [] 0)) (p + 0)
  unfolding scan scan_at
  scan_at_end b p h =
      let e = drop-all p src h in let f = drop-all (p + 0) src (omega arith) in rw (e, f) refl

  next_at_end :
      (b : Bool) (p : ℕ)
      → length src ≤ p
      → next parse_float b src p ≡ (token (plain eof [] 0), p + 0)
  unfolding next next_from
  next_at_end b p h = rw (scan_at_end b p h, next_from) refl

  abbrev pub Nearer : ℕ → Outcome F × ℕ → Type 0
  Nearer p (o, q) =
      ((t : Token F) → o ≡ token t → t.type ≢ eof → length src - q < length src - p)
      × (o ≢ fail out_of_fuel)

  within-Nearer : (p : ℕ) (r : Outcome F × ℕ) → EndsWithin p (length src) r → Nearer p r
  within-Nearer p (token u, q) (a, b, inl (e, c)) =
      (λ t z n. absurd (n (ap (λ (x : Token F). x.type) (sym (eq_of_token z)) ∙ e)), λ z. cc)
  within-Nearer p (token u, q) (a, b, inr (e, c, d, _)) = (λ t z n. omega arith, λ z. cc)
  within-Nearer p (fail out_of_fuel, q) (a, b, c) = elim c [ ]
  within-Nearer p (fail _, q) (a, b, c) = (λ t z n. cc, λ z. cc)

  pub next-Nearer : (b : Bool) (p : ℕ) → Nearer p (next parse_float b src p)
  next-Nearer b p = elim (Bool-cases (leb p (length src))) [
    | inl y ↦
        within-Nearer p (next parse_float b src p)
          (next-EndsWithin parse_float b src p (ground arith))
    | inr n ↦
        (let e = next_at_end b p (ground arith) in
          subst (Nearer p) (sym e)
            ((λ t z w. absurd (w (ap (λ (x : Token F). x.type) (sym (eq_of_token z)))), λ z. cc)))
  ]

  abbrev pub lexer_source : TokenSource F ℕ
  lexer_source = record {
    read = λ b p. next parse_float b src p;
    left = λ p. length src - p;
    left-read = λ b p. (next-Nearer b p).0;
    read-ne-fuel = λ b p. (next-Nearer b p).1;
  }

  -- `NewParser` and `Parse` on a source. The fuel is the length of the source and one more.
  unfoldable pub parse_source : F → (F → F) → Result F ℕ (Node F)
  parse_source zero_value negate = parse lexer_source zero_value negate (suc (length src)) 0
