-- ===== src/Lexer/Token.antt =====
-- internal/lexer/token.go: the tokens. `F` is the type of the numbers that a literal denotes.
use gnata.Base.{ℕ, Bool, false, Option, none, [], Bytes}

pub data TokenType : Type 0 where
  eof name variable string number value regex : TokenType
  dot left_bracket right_bracket left_brace right_brace left_paren right_paren : TokenType
  comma at_sign hash semicolon colon question plus minus star slash percent pipe : TokenType
  equals less_than greater_than caret ampersand bang tilde : TokenType
  star_star dot_dot assign not_equal less_equal greater_equal chain elvis coalesce : TokenType
  and_word or_word in_word : TokenType

-- `Token`; `num_val` is `none` where the field keeps its zero.
pub record Token (F : Type 0) : Type 0 where
  pub type : TokenType
  pub value : Bytes
  pub num_val : Option F
  pub bool_val : Bool
  pub is_null : Bool
  pub regex_pat : Bytes
  pub regex_flg : Bytes
  pub pos : ℕ

-- A token with its text and place, the other fields zero.
abbrev pub plain : {F : Type 0} → TokenType → Bytes → ℕ → Token F
plain t text p = record {
  type = t;
  value = text;
  num_val = none;
  bool_val = false;
  is_null = false;
  regex_pat = [];
  regex_flg = [];
  pos = p;
}

-- The codes of `lexError`; `out_of_fuel` belongs to the model only.
pub data LexError : Type 0 where
  s0101 s0102 s0103 s0104 s0105 s0106 s0301 s0302 out_of_fuel : LexError

-- What `Next` returns; the position that it leaves in the lexer stands beside it.
pub data Outcome (F : Type 0) : Type 0 where
  token : Token F → Outcome F
  fail : LexError → Outcome F
