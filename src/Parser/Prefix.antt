-- ===== src/Parser/Prefix.antt =====
-- What the methods for prefix position return.
use gnata.Base.{
  ℕ, zero, suc, ◌≤◌, ◌<◌, ◌≡◌, refl, true, false, List, [], ◌∷◌, ◌++◌, Option, none, some, Bytes,
  arith, inl, inr, All, Bool-cases,
}
use gnata.Lexer.Token.{
  Token, eof, left_brace, right_brace, comma, colon, question, less_than, greater_than,
}
use gnata.Signature.{ParamSpec, parse_sig}
use gnata.Signature
use gnata.Signature.Progress.{IsResult, AreSpecs, parse_sig-IsResult}
use gnata.Ast.{Node, Form, leaf}
use gnata.Ast.Height.{height_form, functions_form, height_child, functions_child}
use gnata.Parser.Monad.{
  Parser, Result, ok, err, Method, TokenSource, max_depth, if_at, is_at, continue, next, expect,
  advance, advance_infix, consume, consume_infix, new_slot, mark_functions, defer_error,
}
use gnata.Parser.Parts.{
  is_parameter, check_parameters, signature_result, signature_rest, parse_signature_string,
  parse_signature, operand, parse_parent, missing_operand, parse_argument, parse_pair, parse_delete,
  parse_object_pairs, depth_behind, unless_closed,
}
use gnata.Parser.Formed.{IsFormedForm, IsSignature, IsFormedChild}
use gnata.Parser.Returns.{
  Returns, returned, failed, bind, branch, weaken, flag, ahead, Later, later, unread, relax, join,
  Built, built,
}
use gnata.Parser.Steps.{
  ahead-pos, ahead-is_at, next-Later, expect-Returns, consume-Later, defer_error-Later,
}
use gnata.Parser.Loops.{Reads, list_until-Returns}
use gnata.Parser.Trees.{BuiltArgument, BuiltPair, BuiltHere, stay, stay_pair, formed-IsArgument}

-- Every tree that `expr` reads is built, and its tokens are read.
abbrev pub ReadsTrees : {F S : Type 0} → TokenSource F S → ℕ → (ℕ → Method F S (Node F)) → Type 0
ReadsTrees lexer n expr =
    (bp : ℕ) (p : Parser _ _)
    → ahead lexer p < n
    → Returns (λ e q. Later lexer 1 p q × BuiltHere q e) (expr bp p)

module _ {F S : Type 0} where
  -- A node without children.
  pub leaf-Built :
      (pos : ℕ) (f : Form F) (h : ℕ) (p : Parser F S)
      → height_form f ≤ h
      → functions_form f ≤ flag p.functions
      → IsFormedForm f
      → Built (suc h) p (leaf pos f)
  leaf-Built pos f h p a b c = built (omega arith) (omega arith) (c, tt)

module _ {F S : Type 0} (lexer : TokenSource F S) where
  -- What a method for prefix position returns at `p`.
  abbrev pub Read : Parser F S → Node F → Parser F S → Type 0
  Read p e q = Later lexer 1 p q × Built (suc q.height) q e

  pub operand-Returns :
      (t : Token F) (f : Form F) (p : Parser F S)
      → 1 ≤ ahead lexer p
      → height_form f ≡ 0
      → functions_form f ≡ 0
      → IsFormedForm f
      → Returns (Read p) (operand lexer t f p)
  unfolding operand
  operand-Returns t f p h a b c =
      bind _ (next-Later lexer true p h)
        (λ _ q l. returned (l, leaf-Built t.pos f q.height q (omega arith) (omega arith) c))

  pub parse_parent-Returns :
      (t : Token F) (p : Parser F S) → 1 ≤ ahead lexer p → Returns (Read p) (parse_parent lexer t p)
  unfolding parse_parent new_slot
  parse_parent-Returns t p h = bind _ (next-Later lexer true p h) (λ _ q l. returned (
    later l.reads l.balanced l.flags l.grows l.stays_below l.keeps_error,
    built (omega arith) (omega arith) (tt, tt),
  ))

  signature_rest-Returns :
      (fuel depth : ℕ) (text : Bytes) (p : Parser F S)
      → ahead lexer p < fuel
      → Returns (λ _ q. Later lexer 0 p q) (signature_rest lexer fuel depth text p)
  unfolding signature_rest
  signature_rest-Returns zero depth text p h = absurd (omega arith)
  signature_rest-Returns (suc fuel) depth text p h =
      branch eof _ _ p (λ _. bind _ (expect-Returns lexer greater_than p) (λ _ q l. returned l.0))
        (λ more.
          branch left_brace _ _ p
            (λ _. bind _ (expect-Returns lexer greater_than p) (λ _ q l. returned l.0))
            (λ _. bind _ (next-Later lexer false p (ahead-pos lexer p more)) (λ _ q l.
              round (λ d q' k. signature_rest-Returns fuel d (text ++ p.token.value) q' k)
                (depth_behind p.token.type depth) q l (ahead-pos lexer p more))))
    where
      round :
          ((d : ℕ) (q : Parser F S)
            → ahead lexer q < fuel
            → Returns
                (λ _ r. Later lexer 0 q r)
                (signature_rest lexer fuel d (text ++ p.token.value) q))
          → (d : ℕ) (q : Parser F S) → Later lexer 1 p q
          → 1 ≤ ahead lexer p
          → Returns
              (λ _ r. Later lexer 0 p r)
              (unless_closed d
                (gnata.Parser.Monad.pure text)
                (λ d. signature_rest lexer fuel d (text ++ p.token.value))
                q)
      round rest zero q l m = returned (relax l)
      round rest (suc d) q l m =
          weaken (rest (suc d) q (omega (arith, l.reads))) (λ _ r k. join (relax l) k)

  signature_result-Returns :
      (o : Option (gnata.Signature.Outcome (List ParamSpec))) (p : Parser F S)
      → IsResult o
      → Returns (λ specs q. Later lexer 0 p q × AreSpecs specs) (signature_result o p)
  signature_result-Returns none p h = elim h [ ]
  signature_result-Returns (some (gnata.Signature.failed e)) p h = failed tt
  signature_result-Returns (some (gnata.Signature.fine specs)) p h = returned (unread, h)

  pub parse_signature-Returns :
      (fuel : ℕ) (p : Parser F S)
      → ahead lexer p < fuel
      → Returns (λ sig q. Later lexer 0 p q × IsSignature sig) (parse_signature lexer fuel p)
  unfolding parse_signature parse_signature_string
  parse_signature-Returns fuel p h =
      branch less_than _ _ p
        (λ e.
          bind _
            (bind _ (next-Later lexer false p (ahead-is_at lexer less_than p refl e)) (λ _ q l.
              weaken (signature_rest-Returns fuel 1 [] q (omega (arith, l.reads)))
                (λ _ r k. join (relax l) k)))
            (λ text q l.
              bind _ (signature_result-Returns (parse_sig text) q (parse_sig-IsResult text))
                (λ specs r (k, w). returned (join l k, w))))
        (λ _. returned (unread, tt))

  pub check_parameters-Returns :
      (es : List (Node F)) (p : Parser F S)
      → Returns
          (λ _ q. Later lexer 0 p q × All (λ e. is_parameter e ≡ true) es)
          (check_parameters es p)
  unfolding check_parameters
  check_parameters-Returns [] p = returned (unread, tt)
  check_parameters-Returns (e ∷ es) p = elim (Bool-cases (is_parameter e)) [
    | inl y ↦ rw y (weaken (check_parameters-Returns es p) (λ _ q (l, h). (l, (refl, h))))
    | inr n ↦ rw n (failed refl)
  ]

  pub missing_operand-Returns :
      (t : Token F) (p : Parser F S) → ahead lexer p ≤ 0 → Returns (Read p) (missing_operand t p)
  unfolding missing_operand
  missing_operand-Returns t p h = bind _ (defer_error-Later lexer _ p) (λ _ q l. returned (
    later (omega (arith, l.reads)) l.balanced l.flags l.grows l.stays_below l.keeps_error,
    built (omega arith) (omega arith) (tt, tt),
  ))

module _ {F S : Type 0} (lexer : TokenSource F S) (expr : ℕ → Method F S (Node F)) (n : ℕ) where
  module _ (ih : ReadsTrees lexer n expr) where
    pub parse_argument-Reads : Reads lexer BuiltArgument n (parse_argument lexer expr)
    unfolding parse_argument
    parse_argument-Reads p h ln =
        branch question _ _ p
          (λ e.
            bind _ (next-Later lexer false p h)
              (λ _ q l. returned (l, (omega arith, omega arith, tt))))
          (λ _.
            weaken (ih 0 p ln)
              (λ e q (l, b). (l, (omega (arith, b.high), b.known, formed-IsArgument e b.formed))))

    pub expr-Reads : Reads lexer BuiltHere n (expr 0)
    expr-Reads p h ln = ih 0 p ln

    parse_pair-Reads : Reads lexer BuiltPair n (parse_pair lexer expr)
    unfolding parse_pair
    parse_pair-Reads p h ln = bind _ (ih 0 p ln) (λ k p1 (l1, bk).
        bind _ (consume-Later lexer colon p1 refl) (λ _ p2 l2.
          bind _ (ih 0 p2 (omega (arith, l1.reads, l2.reads))) (λ v p3 (l3, bv).
            let l4 = join (relax l2) (relax l3) in returned (join l1 l4, (stay l4 bk, bv)))))

    pub parse_object_pairs-Returns :
        (p : Parser F S)
        → ahead lexer p < n
        → Returns
            (λ es q. Later lexer 0 p q × All (BuiltPair q) es × (is_at right_brace q ≡ true))
            (parse_object_pairs lexer expr n p)
    unfolding parse_object_pairs
    parse_object_pairs-Returns p h =
        list_until-Returns lexer BuiltPair right_brace n (parse_pair lexer expr) stay_pair
          parse_pair-Reads n p h h

    pub parse_delete-Returns :
        (p : Parser F S)
        → ahead lexer p < n
        → Returns
            (λ c q.
              Later lexer 0 p q
              × (height_child c ≤ q.height)
              × (functions_child c ≤ flag q.functions)
              × IsFormedChild c)
            (parse_delete lexer expr p)
    unfolding parse_delete
    parse_delete-Returns p h =
        branch comma _ _ p
          (λ e. bind _ (next-Later lexer false p (ahead-is_at lexer comma p refl e)) (λ _ q l.
            bind _ (ih 0 q (omega (arith, l.reads)))
              (λ e r (k, b). returned (join (relax l) (relax k), b.high, b.known, b.formed))))
          (λ _. returned (unread, omega arith, omega arith, tt))
