-- ===== src/Parser/Precedence.antt =====
-- Operators and parentheses as a grammar: infix expressions, how they are written and the tree that
-- they stand for.
pub mod Reading
pub mod Climbing
pub mod Written
mod Tests
use gnata.Base.{
  ℕ, zero, suc, ◌+◌, ◌-◌, ◌≤◌, ◌<◌, ◌≡◌, Bool, true, false, ◌||◌, List, [], ◌∷◌, Bytes, codes,
  if◌then◌else◌,
}
use gnata.Lexer.Token.{
  TokenType, Token, plain, variable, left_paren, right_paren, dot, plus, minus, star, slash,
  percent, equals, less_than, greater_than, ampersand, star_star, dot_dot, not_equal, less_equal,
  greater_equal, chain, elvis, coalesce, and_word, or_word, in_word,
}
use gnata.Ast.{Node, leaf, binary, block, cons, nil}
use gnata.Ast

-- An infix expression over variables.
pub data Infix : Type 0 where
  atom : Bytes → Infix
  parens : Infix → Infix
  op : TokenType → Infix → Infix → Infix

-- The levels of the operators, the loosest first; 0 for no operator.
unfoldable pub level : TokenType → ℕ
level dot_dot = 20
level elvis = 20
level coalesce = 20
level or_word = 25
level and_word = 30
level in_word = 40
level equals = 40
level not_equal = 40
level less_than = 40
level less_equal = 40
level greater_than = 40
level greater_equal = 40
level chain = 45
level plus = 50
level minus = 50
level ampersand = 50
level star = 60
level slash = 60
level percent = 60
level star_star = 60
level dot = 75
level _ = 0

-- The operators that group to the right.
unfoldable pub groups_right : TokenType → Bool
groups_right dot_dot = true
groups_right elvis = true
groups_right coalesce = true
groups_right chain = true
groups_right dot = true
groups_right _ = false

-- How an operator is written.
unfoldable pub spelling : TokenType → Bytes
spelling dot_dot = codes ".."
spelling elvis = codes "?:"
spelling coalesce = codes "??"
spelling or_word = codes "or"
spelling and_word = codes "and"
spelling in_word = codes "in"
spelling equals = codes "="
spelling not_equal = codes "!="
spelling less_than = codes "<"
spelling less_equal = codes "<="
spelling greater_than = codes ">"
spelling greater_equal = codes ">="
spelling chain = codes "~>"
spelling plus = codes "+"
spelling minus = codes "-"
spelling ampersand = codes "&"
spelling star = codes "*"
spelling slash = codes "/"
spelling percent = codes "%"
spelling star_star = codes "**"
spelling dot = codes "."
spelling _ = []

-- What an operator leaves to its right operand: only what is tighter, or also its own level.
abbrev pub right_level : TokenType → ℕ
right_level o = level o - (if groups_right o then 1 else 0)

-- Each operator on the right edge leaves an operator of level `m` to what is around it.
abbrev pub Edge : ℕ → Infix → Type 0
Edge m (atom v) = Unit
Edge m (parens e) = Unit
Edge m (op o l r) = (m ≤ right_level o) × Edge m r

-- Grouped by level and direction, in a place for operators above `bp`.
abbrev pub Grouped : ℕ → Infix → Type 0
Grouped bp (atom v) = Unit
Grouped bp (parens e) = Grouped 0 e
Grouped bp (op o l r) = (bp < level o) × Grouped bp l × Edge (level o) l × Grouped (right_level o) r

abbrev pub size : Infix → ℕ
size (atom v) = 1
size (parens e) = suc (size e)
size (op o l r) = suc (size l + size r)

module _ {F : Type 0} where
  -- The tokens of an expression, before others.
  abbrev pub written : Infix → List (Token F) → List (Token F)
  written (atom v) k = plain variable v 0 ∷ k
  written (parens e) k =
      plain left_paren (codes "(") 0 ∷ written e (plain right_paren (codes ")") 0 ∷ k)
  written (op o l r) k = written l (plain o (spelling o) 0 ∷ written r k)

  abbrev pub tree_of : Infix → Node F
  tree_of (atom v) = leaf 0 (Ast.variable v)
  tree_of (parens e) = leaf 0 (block (cons (tree_of e) nil))
  tree_of (op o l r) = leaf 0 (binary (spelling o) (tree_of l) (tree_of r))
