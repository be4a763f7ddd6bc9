-- ===== src/Parser/Trees.antt =====
-- Lists of trees that the parser has built.
use gnata.Base.{◌≤◌, max, ◌≡◌, refl, ap, Bool, true, ◌||◌, List, [], ◌∷◌, arith, All}
use gnata.Ast.{Node, node, path, placeholder, nodes_of, form_of, is_placeholder}
use gnata.Ast.Height.{
  height, height_nodes, height_terms, height_pairs, functions_in, functions_nodes, functions_terms,
  functions_pairs,
}
use gnata.Parser.Monad.{Parser, TokenSource}
use gnata.Parser.Parts.{flat, is_parameter}
use gnata.Parser.Infix.{pairs_of, terms_of, any_placeholder}
use gnata.Parser.Formed.{
  IsFormed, AreFormed, AreFormedPairs, AreFormedGroup, AreFormedTerms, IsArgument, AreArguments,
  AreParameters, has_placeholder,
}
use gnata.Parser.Returns.{flag, Later, Built, built}

module _ {F S : Type 0} where
  -- An argument: a tree or a placeholder.
  abbrev pub BuiltArgument : Parser F S → Node F → Type 0
  BuiltArgument p e =
      (height e ≤ max 1 p.height) × (functions_in e ≤ flag p.functions) × IsArgument e

  abbrev pub BuiltPair : Parser F S → Node F × Node F → Type 0
  BuiltPair p (k, v) = Built p.height p k × Built p.height p v

  abbrev pub BuiltTerm : Parser F S → Bool × Node F → Type 0
  BuiltTerm p (d, e) = Built p.height p e

  abbrev pub BuiltHere : Parser F S → Node F → Type 0
  BuiltHere p e = Built p.height p e

  module _ {lexer : TokenSource F S} where
    pub stay : {p q : Parser F S} {e : Node F} → Later lexer 0 p q → BuiltHere p e → BuiltHere q e
    stay l b = built (omega (arith, l.grows, b.high)) (omega (arith, l.flags, b.known)) b.formed

    pub stay_here :
        (p q : Parser F S) (e : Node F) → Later lexer 0 p q → BuiltHere p e → BuiltHere q e
    stay_here p q e l h = stay l h

    pub stay_argument :
        (p q : Parser F S) (e : Node F) → Later lexer 0 p q → BuiltArgument p e → BuiltArgument q e
    stay_argument p q e l (h, f, w) = (omega (arith, l.grows), omega (arith, l.flags), w)

    pub stay_pair :
        (p q : Parser F S) (e : Node F × Node F) → Later lexer 0 p q → BuiltPair p e → BuiltPair q e
    stay_pair p q (k, v) l (h, g) = (stay l h, stay l g)

    pub stay_term :
        (p q : Parser F S) (e : Bool × Node F) → Later lexer 0 p q → BuiltTerm p e → BuiltTerm q e
    stay_term p q (d, e) l h = stay l h

  pub nodes-Built :
      (p : Parser F S) (es : List (Node F))
      → All (BuiltHere p) es
      → (height_nodes (nodes_of es) ≤ p.height)
        × (functions_nodes (nodes_of es) ≤ flag p.functions)
        × AreFormed (nodes_of es)
  nodes-Built p [] h = (omega arith, omega arith, tt)
  nodes-Built p (e ∷ es) (b, hs) =
      let (h', f', w') = nodes-Built p es hs in
      (omega (arith, b.high), omega (arith, b.known), (b.formed, w'))

  pub flat-Built :
      (p : Parser F S) (es : List (Node F × Node F))
      → All (BuiltPair p) es
      → (height_nodes (flat es) ≤ p.height)
        × (functions_nodes (flat es) ≤ flag p.functions)
        × AreFormedPairs (flat es)
  flat-Built p [] h = (omega arith, omega arith, tt)
  flat-Built p ((k, v) ∷ es) ((b, c), hs) =
      let (h', f', w') = flat-Built p es hs in
      (omega (arith, b.high, c.high), omega (arith, b.known, c.known), (b.formed, c.formed, w'))

  pub pairs-Built :
      (p : Parser F S) (es : List (Node F × Node F))
      → All (BuiltPair p) es
      → (height_pairs (pairs_of es) ≤ p.height)
        × (functions_pairs (pairs_of es) ≤ flag p.functions)
        × AreFormedGroup (pairs_of es)
  pairs-Built p [] h = (omega arith, omega arith, tt)
  pairs-Built p ((k, v) ∷ es) ((b, c), hs) =
      let (h', f', w') = pairs-Built p es hs in
      (omega (arith, b.high, c.high), omega (arith, b.known, c.known), (b.formed, c.formed, w'))

  pub terms-Built :
      (p : Parser F S) (es : List (Bool × Node F))
      → All (BuiltTerm p) es
      → (height_terms (terms_of es) ≤ p.height)
        × (functions_terms (terms_of es) ≤ flag p.functions)
        × AreFormedTerms (terms_of es)
  terms-Built p [] h = (omega arith, omega arith, tt)
  terms-Built p ((d, e) ∷ es) (b, hs) =
      let (h', f', w') = terms-Built p es hs in
      (omega (arith, b.high), omega (arith, b.known), (b.formed, w'))

  pub arguments-Built :
      (p : Parser F S) (es : List (Node F))
      → All (BuiltArgument p) es
      → (height_nodes (nodes_of es) ≤ max 1 p.height)
        × (functions_nodes (nodes_of es) ≤ flag p.functions)
        × AreArguments (nodes_of es)
  arguments-Built p [] h = (omega arith, omega arith, tt)
  arguments-Built p (e ∷ es) ((h, f, w), hs) =
      let (h', f', w') = arguments-Built p es hs in (omega arith, omega arith, (w, w'))

module _ {F : Type 0} where
  pub any_placeholder-nodes_of :
      (es : List (Node F)) → any_placeholder es ≡ has_placeholder (nodes_of es)
  any_placeholder-nodes_of [] = refl
  any_placeholder-nodes_of (e ∷ es) =
      ap (λ b. is_placeholder (form_of e) || b) (any_placeholder-nodes_of es)

  pub parameters-nodes_of :
      (es : List (Node F)) → All (λ e. is_parameter e ≡ true) es → AreParameters (nodes_of es)
  parameters-nodes_of [] h = tt
  parameters-nodes_of (e ∷ es) (h, hs) = (h, parameters-nodes_of es hs)

  pub formed-IsArgument : (e : Node F) → IsFormed e → IsArgument e
  formed-IsArgument (node pos m g placeholder) (h, _) = elim h [ ]
  formed-IsArgument (node pos m g (path es)) (h, _) = elim h [ ]
  formed-IsArgument (node pos m g _) h = h
