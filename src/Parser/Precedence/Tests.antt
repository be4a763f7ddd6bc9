-- ===== src/Parser/Precedence/Tests.antt =====
-- The theorems on precedence at concrete expressions.
use gnata.Base.{◌≡◌, List, [], Bytes, codes, arith}
use gnata.Lexer.Token.{Token, plus, minus, star, chain, greater_than}
use gnata.Parser.Monad.{Parser, ok, max_depth}
use gnata.Parser.Expression.{parse}
use gnata.Parser.Precedence.{Infix, atom, parens, op, written, tree_of, level, groups_right}
use gnata.Parser.Precedence.Reading.{list_source}
use gnata.Parser.Precedence.Written.{parse-written}

-- `a - (b + c) * d ~> e ~> a > b`
abbrev mixed : Infix
mixed =
    op greater_than
      (op chain
        (op minus (atom (codes "a"))
          (op star (parens (op plus (atom (codes "b")) (atom (codes "c")))) (atom (codes "d"))))
        (op chain (atom (codes "e")) (atom (codes "a"))))
      (atom (codes "b"))

parse-written_example :
    (p : Parser Bytes (List (Token Bytes))) × (parse list_source [] (λ x. x) 20 (written mixed [])
      ≡ ok (tree_of mixed) p)
unfolding level groups_right max_depth
parse-written_example = parse-written [] (λ x. x) mixed 20 (omega arith) (omega arith) (omega arith)
