-- ===== src/Parser/Loops.antt =====
-- The loops of the parser over lists of items.
use gnata.Base.{ℕ, zero, suc, ◌≤◌, ◌<◌, ◌≡◌, refl, true, false, List, [], ◌∷◌, arith, All}
use gnata.Lexer.Token.{TokenType, eof, comma}
use gnata.Parser.Monad.{Parser, Method, TokenSource, if_at, is_at, expect, advance}
use gnata.Parser.Parts.{list_until}
use gnata.Parser.Returns.{
  Returns, returned, failed, bind, branch, weaken, ahead, Later, unread, relax, join,
}
use gnata.Parser.Steps.{ahead-pos, ahead-is_at, next-Later, expect-Returns}

module _ {F S : Type 0} (lexer : TokenSource F S) {A : Type 0} (P : Parser F S → A → Type 0) where
  -- What holds of an item still holds later.
  abbrev pub Stays : Type 0
  Stays = (p q : Parser F S) (a : A) → Later lexer 0 p q → P p a → P q a

  -- An item takes a token and has `P`.
  abbrev pub Reads : ℕ → Method F S A → Type 0
  Reads n item =
      (p : Parser F S)
      → 1 ≤ ahead lexer p
      → ahead lexer p < n
      → Returns (λ a q. Later lexer 1 p q × P q a) (item p)

  pub All-Stays :
      Stays → (p q : Parser F S) (xs : List A) → Later lexer 0 p q → All (P p) xs → All (P q) xs
  All-Stays s p q [] l h = tt
  All-Stays s p q (x ∷ xs) l (h, hs) = (s p q x l h, All-Stays s p q xs l hs)

  -- The comma behind an item, or the closing token.
  separator-Later :
      (close : TokenType) (p : Parser F S)
      → Returns (λ _ q. Later lexer 0 p q) (if_at comma (advance lexer) (expect close) p)
  separator-Later close p =
      branch comma _ _ p
        (λ e.
          weaken (next-Later lexer false p (ahead-is_at lexer comma p refl e)) (λ _ q l. relax l))
        (λ _. weaken (expect-Returns lexer close p) (λ _ q h. h.0))

  pub list_until-Returns :
      (close : TokenType) (n : ℕ) (item : Method F S A)
      → Stays
      → Reads n item
      → (fuel : ℕ) (p : Parser F S) → ahead lexer p < n
      → ahead lexer p < fuel
      → Returns
          (λ xs q. Later lexer 0 p q × All (P q) xs × (is_at close q ≡ true))
          (list_until lexer close item fuel p)
  unfolding list_until
  list_until-Returns close n item s r zero p ln lf = absurd (omega arith)
  list_until-Returns close n item s r (suc fuel) p ln lf =
      branch close _ _ p (λ y. returned (unread, tt, y))
        (λ _.
          branch eof _ _ p (λ _. failed refl)
            (λ more. bind _ (r p (ahead-pos lexer p more) ln) (λ x p1 (l1, px).
              bind _ (separator-Later close p1) (λ _ p2 l2.
                bind _
                  (list_until-Returns close n item s r fuel p2
                    (omega (arith, ahead-pos lexer p more, l1.reads, l2.reads))
                    (omega (arith, ahead-pos lexer p more, l1.reads, l2.reads)))
                  (λ xs p3 (l3, pxs, y).
                    let l4 = join l2 l3 in
                    returned (join (relax l1) l4, (s p1 p3 x l4 px, pxs), y))))))
