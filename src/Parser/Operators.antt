-- ===== src/Parser/Operators.antt =====
-- What the methods for infix position return.
use gnata.Base.{
  ap, codes, bytes_eq, not, ◌&&◌, ℕ, suc, ◌-◌, ◌≤◌, ◌<◌, max, ◌≡◌, refl, Bool, true, false, Bytes,
  arith, inl, inr, Bool-cases,
}
use gnata.Lexer.Token.{Token, left_bracket, colon, less_than, greater_than, assign}
use gnata.Ast.{
  Node, node, Form, leaf, Marks, Group, group, with_marks, with_group, form_of, group_of, marks_of,
  is_variable, is_subscript, is_sort, has_group, on_path, subscript_op, dot_op, value_of,
  is_path_like, binary, condition, call, sort, path, block, array, object, lambda, transform,
  wildcard, descendant, placeholder, parent, nil, cons, Child, absent, present, nodes_of, no_marks,
  no_group,
}
use gnata.Ast.Height.{height_child, functions_child, height}
use gnata.Parser.Monad.{first_error, syntax, s0210, Parser, Method, TokenSource, defer_error}
use gnata.Parser.Tokens.{binding_power}
use gnata.Parser.Infix.{
  mark_focus, mark_index, mark_bound, check_focus, bind_variable, check_predicate, check_group,
  parse_direction, parse_binary, parse_else, parse_condition, parse_assign, parse_binding,
}
use gnata.Parser.Formed.{IsFormedChild}
use gnata.Parser.Returns.{
  Returns, returned, failed, bind, branch, weaken, flag, choice, ahead, Later, later, unread, relax,
  join, Built, built,
}
use gnata.Parser.Steps.{ahead-is_at, next-Later, defer_error-Later}
use gnata.Parser.Prefix.{ReadsTrees}
use gnata.Parser.Trees.{stay}

module _ {F S : Type 0} (h : ℕ) (p : Parser F S) where
  pub with_marks-Built : (f : Marks → Marks) (e : Node F) → Built h p e → Built h p (with_marks f e)
  with_marks-Built f (node pos m g x) b = built b.high b.known b.formed

module _ {F S : Type 0} (p : Parser F S) (kept : Bool) where
  pub mark_bound-Built : (h : ℕ) (e : Node F) → Built h p e → Built h p (mark_bound kept e)
  unfolding mark_bound
  mark_bound-Built h (node pos m g (binary op l r)) b = elim (Bool-cases m.index_last) [
    | inl y ↦ rw (y, mark_bound) (built b.high b.known b.formed)
    | inr n ↦ elim (Bool-cases (bytes_eq op subscript_op)) [
      | inl y ↦
          (let c =
              mark_bound-Built (height l) l
                (built (omega arith) (omega (arith, b.known)) b.formed.0.0) in
            rw (n, y, mark_bound)
              (built (omega (arith, b.high, c.high)) (omega (arith, b.known, c.known))
                ((c.formed, b.formed.0.1), b.formed.1)))
      | inr other ↦ rw (n, other, mark_bound) (built b.high b.known b.formed)
    ]
  ]
  mark_bound-Built h (node pos m g _) b = elim (Bool-cases m.index_last) [
    | inl y ↦ rw (y, mark_bound) (built b.high b.known b.formed)
    | inr n ↦ rw (n, mark_bound) (built b.high b.known b.formed)
  ]

module _ {F S : Type 0} (lexer : TokenSource F S) where
  -- What a method for infix position returns at `p`, behind a tree no higher than `k`.
  abbrev pub ReadBehind : ℕ → Parser F S → Node F → Parser F S → Type 0
  ReadBehind k p e q = Later lexer 1 p q × Built (suc (max k q.height)) q e

  pub higher :
      (k : ℕ) (p q : Parser F S) (e : Node F)
      → Later lexer 0 p q
      → Built k p e
      → Built (suc (max k q.height)) q e
  higher k p q e l b = built (omega (arith, b.high)) (omega (arith, b.known, l.flags)) b.formed

  pub check_focus-Returns :
      (f : Form F) (p : Parser F S) → Returns (λ _ q. Later lexer 0 p q) (check_focus f p)
  unfolding check_focus
  check_focus-Returns f p =
      choice (is_subscript f) _ _ p (λ _. defer_error-Later lexer _ p)
        (λ _. choice (is_sort f) _ _ p (λ _. defer_error-Later lexer _ p) (λ _. returned unread))

  pub check_predicate-Returns :
      (g : Group F) (p : Parser F S) → Returns (λ _ q. Later lexer 0 p q) (check_predicate g p)
  unfolding check_predicate
  check_predicate-Returns g p =
      choice (has_group g && not (on_path g)) _ _ p (λ _. defer_error-Later lexer _ p)
        (λ _. returned unread)

  pub check_group-Returns :
      (g : Group F) (p : Parser F S)
      → Returns (λ _ q. Later lexer 0 p q × (ahead lexer q ≡ ahead lexer p)) (check_group g p)
  unfolding check_group defer_error
  check_group-Returns g p =
      choice (has_group g) _ _ p
        (λ _. returned (
          later (omega arith) refl (omega arith) (omega arith) (omega arith)
              (λ d q. ap (first_error (syntax s0210 (codes "{"))) q),
          refl,
        ))
        (λ _. returned (unread, refl))

  pub parse_direction-Returns :
      (p : Parser F S) → Returns (λ _ q. Later lexer 0 p q) (parse_direction lexer p)
  unfolding parse_direction
  parse_direction-Returns p =
      branch greater_than _ _ p
        (λ e.
          bind _ (next-Later lexer false p (ahead-is_at lexer greater_than p refl e))
            (λ _ q l. returned (relax l)))
        (λ _.
          branch less_than _ _ p
            (λ e.
              bind _ (next-Later lexer false p (ahead-is_at lexer less_than p refl e))
                (λ _ q l. returned (relax l)))
            (λ _. returned unread))

  pub bind_variable-Returns :
      (focus : Bool) (k : ℕ) (left rhs : Node F) (p : Parser F S)
      → Built k p left
      → Returns
          (λ e q. Later lexer 0 p q × Built (suc (max k q.height)) q e)
          (bind_variable focus left rhs p)
  unfolding bind_variable
  bind_variable-Returns focus k left (node i m g (gnata.Ast.variable v)) p b =
      choice focus _ _ p
        (λ _.
          bind _ (check_focus-Returns (form_of left) p)
            (λ _ q l. returned (l, higher k p q _ l (with_marks-Built k p (mark_focus v) left b))))
        (λ _. returned (unread, higher k p p _ unread (with_marks-Built k p (mark_index v) left b)))
  bind_variable-Returns true k left (node i m g _) p b = failed refl
  bind_variable-Returns false k left (node i m g _) p b = failed refl

module _ {F S : Type 0} (lexer : TokenSource F S) (expr : ℕ → Method F S (Node F)) (n : ℕ)
    (ih : ReadsTrees lexer n expr) where
  pub parse_binary-Returns :
      (bp : ℕ) (op : Bytes) (pos k : ℕ) (left : Node F) (p : Parser F S)
      → Built k p left
      → 1 ≤ ahead lexer p
      → ahead lexer p ≤ n
      → Returns (ReadBehind lexer k p) (parse_binary lexer expr bp op pos left p)
  unfolding parse_binary
  parse_binary-Returns bp op pos k left p b h ln = bind _ (next-Later lexer false p h) (λ _ q l.
      bind _ (ih bp q (omega arith)) (λ right r (m, c).
        let t = join l (relax m) in
        returned (
          t,
          built (omega (arith, b.high, c.high)) (omega (arith, b.known, c.known, t.flags))
              ((b.formed, c.formed), tt),
        )))

  pub parse_else-Returns :
      (p : Parser F S)
      → ahead lexer p < n
      → Returns
          (λ c q.
            Later lexer 0 p q
            × (height_child c ≤ q.height)
            × (functions_child c ≤ flag q.functions)
            × IsFormedChild c)
          (parse_else lexer expr p)
  unfolding parse_else
  parse_else-Returns p h =
      branch colon _ _ p
        (λ e. bind _ (next-Later lexer false p (ahead-is_at lexer colon p refl e)) (λ _ q l.
          bind _ (ih 0 q (omega (arith, l.reads)))
            (λ e r (k, b). returned (join (relax l) (relax k), b.high, b.known, b.formed))))
        (λ _. returned (unread, omega arith, omega arith, tt))

  pub parse_condition-Returns :
      (pos k : ℕ) (left : Node F) (p : Parser F S)
      → Built k p left
      → 1 ≤ ahead lexer p
      → ahead lexer p ≤ n
      → Returns (ReadBehind lexer k p) (parse_condition lexer expr pos left p)
  unfolding parse_condition
  parse_condition-Returns pos k left p b h ln = bind _ (next-Later lexer false p h) (λ _ p1 l1.
      bind _ (ih 0 p1 (omega arith)) (λ e p2 (l2, c).
        bind _ (parse_else-Returns p2 (omega arith)) (λ d p3 (l3, hd, fd, wd).
          let t = join l1 (join (relax l2) l3) in
          let c' = stay l3 c in
          returned (
            t,
            built (omega (arith, b.high, c'.high, hd))
                (omega (arith, b.known, c'.known, t.flags, fd)) ((b.formed, c.formed, wd), tt),
          ))))

  pub parse_assign-Returns :
      (tok : Token F) (k : ℕ) (left : Node F) (p : Parser F S)
      → Built k p left
      → 1 ≤ ahead lexer p
      → ahead lexer p ≤ n
      → Returns (ReadBehind lexer k p) (parse_assign lexer expr tok left p)
  unfolding parse_assign
  parse_assign-Returns tok k left p b h ln =
      choice (is_variable (form_of left)) _ _ p
        (λ v. bind _ (next-Later lexer false p h) (λ _ q l.
          bind _ (ih (binding_power assign - 1) q (omega arith)) (λ right r (m, c).
            let t = join l (relax m) in
            returned (
              t,
              built (omega (arith, b.high, c.high)) (omega (arith, b.known, c.known, t.flags))
                  ((v, b.formed, c.formed), tt),
            ))))
        (λ _. failed refl)

  pub parse_binding-Returns :
      (focus : Bool) (k : ℕ) (left : Node F) (p : Parser F S)
      → Built k p left
      → 1 ≤ ahead lexer p
      → ahead lexer p ≤ n
      → Returns (ReadBehind lexer k p) (parse_binding lexer expr focus left p)
  unfolding parse_binding
  parse_binding-Returns focus k left p b h ln = bind _ (next-Later lexer false p h) (λ _ q l.
      bind _ (ih (binding_power left_bracket) q (omega arith)) (λ rhs r (m, c).
        let t = join l (relax m) in
        weaken
          (bind_variable-Returns lexer focus k left rhs r
            (built b.high (omega (arith, b.known, t.flags)) b.formed))
          (λ e s (u, d). (join t u, d))))
