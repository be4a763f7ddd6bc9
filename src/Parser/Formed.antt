-- ===== src/Parser/Formed.antt =====
-- The trees that the grammar allows: where placeholders, parameters and bound variables may stand.
use gnata.Base.{List, Option, none, some, Bool, true, false, ◌||◌, ◌≡◌}
use gnata.Ast.{
  Node, node, Form, path, block, array, object, binary, minus, placeholder, condition, bind, call,
  lambda, transform, sort, Nodes, nil, cons, Child, absent, present, Terms, no_terms, term, Group,
  no_group, group, Pairs, no_pairs, pair, form_of, is_variable, is_placeholder,
}
use gnata.Signature.{ParamSpec}
use gnata.Signature.Progress.{AreSpecs}
use gnata.Parser.Parts.{is_parameter}

abbrev pub has_placeholder : {F : Type 0} → Nodes F → Bool
has_placeholder nil = false
has_placeholder (cons e es) = is_placeholder (form_of e) || has_placeholder es

abbrev pub AreParameters : {F : Type 0} → Nodes F → Type 0
AreParameters nil = Unit
AreParameters (cons e es) = (is_parameter e ≡ true) × AreParameters es

abbrev pub IsSignature : Option (List ParamSpec) → Type 0
IsSignature none = Unit
IsSignature (some specs) = AreSpecs specs

abbrev mutual
  -- A placeholder is an argument only, and makes the call a partial application; a lambda's
  -- parameters are variables without focus, index and group, and its signature is well formed;
  -- what `:=` binds is a variable, which may bear marks and a group; an object has a value for
  -- each key; there is no path yet.
  pub IsFormed : {F : Type 0} → Node F → Type 0
  IsFormed (node pos m g f) = IsFormedForm f × IsFormedGroup g

  pub IsFormedForm : {F : Type 0} → Form F → Type 0
  IsFormedForm (path es) = ⊥
  IsFormedForm placeholder = ⊥
  IsFormedForm (block es) = AreFormed es
  IsFormedForm (array es) = AreFormed es
  IsFormedForm (object es) = AreFormedPairs es
  IsFormedForm (binary op l r) = IsFormed l × IsFormed r
  IsFormedForm (minus e) = IsFormed e
  IsFormedForm (condition c t e) = IsFormed c × IsFormed t × IsFormedChild e
  IsFormedForm (bind l r) = (is_variable (form_of l) ≡ true) × IsFormed l × IsFormed r
  IsFormedForm (call partial v p args) =
      (partial ≡ has_placeholder args) × IsFormed p × AreArguments args
  IsFormedForm (lambda params sig body d) = AreParameters params × IsSignature sig × IsFormed body
  IsFormedForm (transform p u d n) = IsFormed p × IsFormed u × IsFormedChild d
  IsFormedForm (sort l ts) = IsFormed l × AreFormedTerms ts
  IsFormedForm _ = Unit

  pub AreFormed : {F : Type 0} → Nodes F → Type 0
  AreFormed nil = Unit
  AreFormed (cons e es) = IsFormed e × AreFormed es

  -- keys and values in turn
  pub AreFormedPairs : {F : Type 0} → Nodes F → Type 0
  AreFormedPairs nil = Unit
  AreFormedPairs (cons k nil) = ⊥
  AreFormedPairs (cons k (cons v es)) = IsFormed k × IsFormed v × AreFormedPairs es

  pub IsArgument : {F : Type 0} → Node F → Type 0
  IsArgument (node pos m g placeholder) = Unit
  IsArgument (node pos m g f) = IsFormedForm f × IsFormedGroup g

  pub AreArguments : {F : Type 0} → Nodes F → Type 0
  AreArguments nil = Unit
  AreArguments (cons e es) = IsArgument e × AreArguments es

  pub IsFormedChild : {F : Type 0} → Child F → Type 0
  IsFormedChild absent = Unit
  IsFormedChild (present e) = IsFormed e

  pub AreFormedTerms : {F : Type 0} → Terms F → Type 0
  AreFormedTerms no_terms = Unit
  AreFormedTerms (term d e ts) = IsFormed e × AreFormedTerms ts

  pub IsFormedGroup : {F : Type 0} → Group F → Type 0
  IsFormedGroup no_group = Unit
  IsFormedGroup (group ps pos b) = AreFormedGroup ps

  pub AreFormedGroup : {F : Type 0} → Pairs F → Type 0
  AreFormedGroup no_pairs = Unit
  AreFormedGroup (pair k v ps) = IsFormed k × IsFormed v × AreFormedGroup ps
