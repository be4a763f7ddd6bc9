-- ===== src/Parser/Precedence/Written.antt =====
-- `Parse` on a written expression.
use gnata.Base.{ℕ, ◌≤◌, ◌<◌, ◌≡◌, refl, false, none, List, [], arith, ◌||◌, true}
use gnata.Lexer.Token.{Token, bang, tilde}
use gnata.Parser.Tokens.{type_code, same_type, binding_power}
use gnata.Parser.Monad.{Parser, ok, max_depth, next, set_token, if_at}
use gnata.Parser.Expression.{finish, parse_all, parse, unprimed}
use gnata.Parser.Precedence.{Infix, written, tree_of, Grouped, size}
use gnata.Parser.Precedence.Reading.{list_source, first_of, is_readable, written-is_readable, at}
use gnata.Parser.Precedence.Climbing.{Edge-zero, expression-ReadsAs}

module _ {F : Type 0} (zero_value : F) (negate : F → F) where
  -- The first token of a new parser.
  first :
      (ts : List (Token F))
      → is_readable ts ≡ true
      → next list_source false (unprimed ts) ≡ ok tt (at 0 false none ts 0 0)
  unfolding next set_token
  first ts h =
      let e : (same_type (first_of ts).type bang || same_type (first_of ts).type tilde) ≡ false =
        ground arith in
      rw e refl

  -- `Parse` reads an expression that is grouped by level and direction as the tree it stands for.
  pub parse-written :
      (t : Infix) (fuel : ℕ)
      → Grouped 0 t
      → size t ≤ max_depth
      → size t < fuel
      → (p : Parser F (List (Token F))) × (parse list_source zero_value negate fuel (written t [])
          ≡ ok (tree_of t) p)
  unfolding parse parse_all finish if_at binding_power same_type type_code
  parse-written t fuel g m f =
      let (h, _, q) =
        expression-ReadsAs 0 false none zero_value negate fuel t [] 0 0 0 f (omega arith) g
          (Edge-zero t) (omega arith) refl in
      (at 0 false none [] 0 h, rw (first (written t []) (written-is_readable t []), q) refl)
