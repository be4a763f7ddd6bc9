-- ===== src/Parser/Parts.antt =====
-- The constructs of the grammar that are parsed in prefix position: `nud` and the methods it calls.
-- `expr` stands for `expression`, and `fuel` bounds the rounds of each loop.
use gnata.Base.{
  ℕ, zero, suc, ◌-◌, Bool, false, not, ◌&&◌, ◌||◌, List, [], ◌∷◌, ◌++◌, Option, none, some, Bytes,
  codes, bytes_eq, if◌then◌else◌, starts_with, drop,
}
use gnata.Lexer.Token.{
  TokenType, Token, eof, left_bracket, right_bracket, left_brace, right_brace, left_paren,
  right_paren, comma, semicolon, colon, question, star, percent, pipe, less_than, greater_than,
  star_star, chain, and_word, or_word, in_word,
}
use gnata.Signature.{ParamSpec, parse_sig, fine, failed}
use gnata.Signature
use gnata.Ast.{
  Node, node, Form, Nodes, nil, cons, Child, absent, present, leaf, form_of, marks_of, group_of,
  has_group, is_set, is_variable, nodes_of, value_of, path, block, array, object, lambda, transform,
  placeholder, wildcard, descendant, parent,
}
use gnata.Ast
use gnata.Parser.Monad.{
  Method, TokenSource, syntax, bad_signature, end_error, s0207, s0208, s0211, pure, raise,
  exhausted, ◌>>=◌, ◌>>◌, current, if_at, choose, defer_error, mark_functions, new_slot, expect,
  advance, advance_infix, consume, consume_infix,
}
use gnata.Parser.Tokens.{same_type}

-- The text of a literal whose sign changes.
unfoldable pub flip_sign : Bytes → Bytes
flip_sign v = if starts_with b'-' v then drop 1 v else b'-' ∷ v

-- The depth of a signature behind a token.
abbrev pub depth_behind : TokenType → ℕ → ℕ
depth_behind t depth =
    if same_type t less_than
    then suc depth
    else if same_type t greater_than
    then depth - 1
    else depth

-- The value of a regex node.
abbrev pub regex_value : Bytes → Bytes → Bytes
regex_value pattern flags = if is_set flags then pattern ++ (b'/' ∷ flags) else pattern

-- The two names of the keyword of a lambda.
abbrev pub is_lambda_word : Bytes → Bool
is_lambda_word v = bytes_eq v (codes "function") || bytes_eq v (0xCE ∷ 0xBB ∷ [])

-- The field `NumVal` of a token, whose zero is `z`.
abbrev pub number_of : {F : Type 0} → F → Option F → F
number_of z none = z
number_of z (some x) = x

-- Pairs as a list of keys and values in turn.
abbrev pub flat : {F : Type 0} → List (Node F × Node F) → Nodes F
flat [] = nil
flat ((k, v) ∷ ps) = cons k (cons v (flat ps))

module _ {F : Type 0} where
  -- A parameter of a lambda is a variable alone.
  unfoldable pub is_parameter : Node F → Bool
  is_parameter (node pos m g (Ast.variable v)) =
      not (is_set m.index) && not (is_set m.focus) && not (has_group g)
  is_parameter (node pos m g f) = false

module _ {F : Type 0} (negate : F → F) where
  -- A unary minus before an operand.
  unfoldable pub negated : ℕ → Node F → Node F
  negated pos (node q m g (Ast.number v x)) = node q m g (Ast.number (flip_sign v) (negate x))
  negated pos (node q m g f) = leaf pos (Ast.minus (node q m g f))

module _ {F S : Type 0} where
  -- A signature ends where its depth is zero.
  abbrev pub unless_closed : ℕ → Method F S Bytes → (ℕ → Method F S Bytes) → Method F S Bytes
  unless_closed zero closed open_again = closed
  unless_closed (suc d) closed open_again = open_again (suc d)

  -- What `ParseSig` returns, within the parser.
  abbrev pub signature_result :
      Option (Signature.Outcome (List ParamSpec)) → Method F S (List ParamSpec)
  signature_result none = exhausted
  signature_result (some (failed e)) = raise (bad_signature e)
  signature_result (some (fine specs)) = pure specs

  abbrev pub parsed_signature : Bytes → Method F S (List ParamSpec)
  parsed_signature text = signature_result (parse_sig text)

  -- The loop over the parameters that reports the first that is no variable.
  unfoldable pub check_parameters : List (Node F) → Method F S Unit
  check_parameters [] = pure tt
  check_parameters (e ∷ es) =
      let rest = check_parameters es in
      if is_parameter e then rest else raise (syntax s0208 (value_of (form_of e)))

  -- A missing operand, which is reported once the rest has parsed.
  unfoldable pub missing_operand : Token F → Method F S (Node F)
  missing_operand t = do
    defer_error (syntax s0207 (codes "EOF"))
    pure (leaf t.pos (Ast.value (codes "null")))

module _ {F S : Type 0} (lexer : TokenSource F S) where
  -- The loops over elements, pairs, parameters, arguments and terms: until the closing token,
  -- an item and then a comma, unless the closing token follows.
  unfoldable pub list_until : {A : Type 0} → TokenType → Method F S A → ℕ → Method F S (List A)
  list_until close item zero = exhausted
  list_until close item (suc fuel) =
      let rest = list_until close item fuel in
      if_at close (pure []) (
        if_at eof (raise end_error)
          (do x ← item; if_at comma (advance lexer) (expect close); xs ← rest; pure (x ∷ xs)))

  -- The loop of `parseSignatureString`, with the depth and what is written so far.
  unfoldable pub signature_rest : ℕ → ℕ → Bytes → Method F S Bytes
  signature_rest zero depth text = exhausted
  signature_rest (suc fuel) depth text =
      let rest = signature_rest fuel in
      if_at eof (expect greater_than >> pure []) (
        if_at left_brace (expect greater_than >> pure []) (do
          t ← current
          advance lexer
          unless_closed (depth_behind t.type depth) (pure text) (λ d. rest d (text ++ t.value))))

  -- `parseSignatureString`
  unfoldable pub parse_signature_string : ℕ → Method F S Bytes
  parse_signature_string fuel = advance lexer >> signature_rest fuel 1 []

  -- The signature of a lambda, if there is one.
  unfoldable pub parse_signature : ℕ → Method F S (Option (List ParamSpec))
  parse_signature fuel =
      if_at less_than
        (do text ← parse_signature_string fuel; specs ← parsed_signature text; pure (some specs))
        (pure none)

  -- A token that is an operand by itself.
  unfoldable pub operand : Token F → Form F → Method F S (Node F)
  operand t f = do advance_infix lexer; pure (leaf t.pos f)

  unfoldable pub parse_parent : Token F → Method F S (Node F)
  parse_parent t = do advance_infix lexer; n ← new_slot; pure (leaf t.pos (parent n))

  module _ (expr : ℕ → Method F S (Node F)) where
    -- `parseArgument`
    unfoldable pub parse_argument : Method F S (Node F)
    parse_argument =
        if_at question (do t ← current; advance lexer; pure (leaf t.pos placeholder)) (expr 0)

    -- A pair of `parseObjectPairs`.
    unfoldable pub parse_pair : Method F S (Node F × Node F)
    parse_pair = do key ← expr 0; consume lexer colon; val ← expr 0; pure (key, val)

    -- The clause of `parseTransform` that deletes.
    unfoldable pub parse_delete : Method F S (Child F)
    parse_delete = if_at comma (do advance lexer; e ← expr 0; pure (present e)) (pure absent)

    -- `parseTransform`
    unfoldable pub parse_transform : ℕ → Method F S (Node F)
    parse_transform pos = do
      advance_infix lexer
      pattern ← expr 0
      consume lexer pipe
      update ← expr 0
      del ← parse_delete
      consume lexer pipe
      mark_functions
      pure (leaf pos (transform pattern update del 0))

    -- The loop of `parseParenOrBlock` over the expressions behind the first.
    unfoldable pub block_rest : ℕ → Method F S (List (Node F))
    block_rest zero = exhausted
    block_rest (suc n) =
        let rest = block_rest n in
        if_at semicolon
          (do advance lexer; if_at right_paren (pure []) (do e ← expr 0; es ← rest; pure (e ∷ es)))
          (pure [])

    module _ (fuel : ℕ) where
      -- `parseLambda`
      unfoldable pub parse_lambda : ℕ → Method F S (Node F)
      parse_lambda pos = do
        consume lexer left_paren
        params ← list_until right_paren parse_argument fuel
        advance_infix lexer
        check_parameters params
        sig ← parse_signature fuel
        consume lexer left_brace
        body ← expr 0
        consume lexer right_brace
        mark_functions
        pure (leaf pos (lambda (nodes_of params) sig body 0))

      -- `parseParenOrBlock`
      unfoldable pub parse_paren_or_block : ℕ → Method F S (Node F)
      parse_paren_or_block pos = do
        advance_infix lexer
        if_at right_paren (do advance_infix lexer; pure (leaf pos (block nil)))
            (do
              first ← expr 0
              if_at right_paren (do advance_infix lexer; pure (leaf pos (block (cons first nil))))
                  (do
                    es ← block_rest fuel
                    consume_infix lexer right_paren
                    pure (leaf pos (block (cons first (nodes_of es))))))

      -- `parseObjectPairs`
      unfoldable pub parse_object_pairs : Method F S (List (Node F × Node F))
      parse_object_pairs = list_until right_brace parse_pair fuel

      -- The array constructor.
      unfoldable pub parse_array : ℕ → Method F S (Node F)
      parse_array pos = do
        advance_infix lexer
        es ← list_until right_bracket (expr 0) fuel
        advance_infix lexer
        pure (leaf pos (array (nodes_of es)))

      -- The object constructor.
      unfoldable pub parse_object : ℕ → Method F S (Node F)
      parse_object pos = do
        advance_infix lexer
        pairs ← parse_object_pairs
        advance_infix lexer
        pure (leaf pos (object (flat pairs)))

      unfoldable pub parse_name : Token F → Method F S (Node F)
      parse_name t = do
        advance_infix lexer
        choose (is_lambda_word t.value)
            (if_at left_paren (parse_lambda t.pos) (pure (leaf t.pos (Ast.name t.value))))
            (pure (leaf t.pos (Ast.name t.value)))

  unfoldable pub parse_minus : (F → F) → (ℕ → Method F S (Node F)) → ℕ → Method F S (Node F)
  parse_minus negate expr pos = do advance_infix lexer; sub ← expr 70; pure (negated negate pos sub)

  module _ (zero_value : F) (negate : F → F) where
    module _ (expr : ℕ → Method F S (Node F)) (fuel : ℕ) where
      -- `nud` on a token of a type.
      unfoldable pub nud_of : TokenType → Token F → Method F S (Node F)
      nud_of eof t = missing_operand t
      nud_of TokenType.name t = parse_name expr fuel t
      nud_of and_word t = operand t (Ast.name t.value)
      nud_of or_word t = operand t (Ast.name t.value)
      nud_of in_word t = operand t (Ast.name t.value)
      nud_of TokenType.variable t = operand t (Ast.variable t.value)
      nud_of TokenType.string t = operand t (Ast.string t.value)
      nud_of TokenType.number t = operand t (Ast.number t.value (number_of zero_value t.num_val))
      nud_of TokenType.value t = operand t (Ast.value t.value)
      nud_of TokenType.regex t = operand t (Ast.regex (regex_value t.regex_pat t.regex_flg))
      nud_of TokenType.minus t = parse_minus negate expr t.pos
      nud_of star t = operand t wildcard
      nud_of star_star t = operand t descendant
      nud_of percent t = parse_parent t
      nud_of left_bracket t = parse_array expr fuel t.pos
      nud_of left_brace t = parse_object expr fuel t.pos
      nud_of left_paren t = parse_paren_or_block expr fuel t.pos
      nud_of pipe t = parse_transform expr t.pos
      nud_of chain t = raise (syntax s0211 (codes "~>"))
      nud_of _ t = raise (syntax s0211 t.value)

      -- `nud`
      unfoldable pub nud : Method F S (Node F)
      nud = current >>= λ t. nud_of t.type t
