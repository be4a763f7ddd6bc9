-- ===== src/Ast.antt =====
-- internal/parser/ast.go: the tree that the parser builds. `F` is the type of the numbers that a
-- literal denotes.
pub mod Height
pub mod FunctionDepth
pub mod Depths
pub mod Chains
pub mod Recorded
pub mod TailCall
pub mod TailMarks
mod Tests
use gnata.Base.{
  ℕ, Bool, true, false, List, [], ◌∷◌, Option, Bytes, codes, bytes_eq, if◌then◌else◌, not, ◌&&◌,
  ◌||◌,
}
use gnata.Signature.{ParamSpec}

-- The flags and the bound variables of a node, as far as the parser and the tail call analysis set
-- them. An empty name is no variable.
pub record Marks : Type 0 where
  pub keep_array : Bool
  pub index_last : Bool
  pub kept_after_index : Bool
  pub index_keep_array : Bool
  pub thunk : Bool
  pub tail_context : Bool
  pub focus : Bytes
  pub index : Bytes

abbrev pub no_marks : Marks
no_marks = record {
  keep_array = false;
  index_last = false;
  kept_after_index = false;
  index_keep_array = false;
  thunk = false;
  tail_context = false;
  focus = [];
  index = [];
}

mutual
  -- `Node`: its position, its marks, its group and what depends on its type.
  pub data Node (F : Type 0) : Type 0 where
    node : ℕ → Marks → Group F → Form F → Node F

  -- The types of nodes with their values and children. The flag of a `call` tells a partial
  -- application from a call; the number of a `parent` is that of its slot, and the last number of
  -- a `lambda` or a `transform` its recorded depth. An object holds its pairs flat.
  pub data Form (F : Type 0) : Type 0 where
    path block array object : Nodes F → Form F
    binary : Bytes → Node F → Node F → Form F
    minus : Node F → Form F
    name string value variable regex : Bytes → Form F
    number : Bytes → F → Form F
    wildcard descendant placeholder : Form F
    parent : ℕ → Form F
    condition : Node F → Node F → Child F → Form F
    bind : Node F → Node F → Form F
    call : Bool → Bytes → Node F → Nodes F → Form F
    lambda : Nodes F → Option (List ParamSpec) → Node F → ℕ → Form F
    transform : Node F → Node F → Child F → ℕ → Form F
    sort : Node F → Terms F → Form F

  pub data Nodes (F : Type 0) : Type 0 where
    nil : Nodes F
    cons : Node F → Nodes F → Nodes F

  -- A child that may be absent.
  pub data Child (F : Type 0) : Type 0 where
    absent : Child F
    present : Node F → Child F

  -- `SortTerm`: whether it is descending, and its expression.
  pub data Terms (F : Type 0) : Type 0 where
    no_terms : Terms F
    term : Bool → Node F → Terms F → Terms F

  -- `GroupExpr`: its pairs, its position and `OnPath`.
  pub data Group (F : Type 0) : Type 0 where
    no_group : Group F
    group : Pairs F → ℕ → Bool → Group F

  pub data Pairs (F : Type 0) : Type 0 where
    no_pairs : Pairs F
    pair : Node F → Node F → Pairs F → Pairs F

abbrev pub subscript_op : Bytes
subscript_op = b'[' ∷ []

abbrev pub dot_op : Bytes
dot_op = b'.' ∷ []

-- A name that is set.
abbrev pub is_set : Bytes → Bool
is_set [] = false
is_set (c ∷ s) = true

module _ {F : Type 0} where
  -- A fresh node.
  abbrev pub leaf : ℕ → Form F → Node F
  leaf pos f = node pos no_marks no_group f

  abbrev pub form_of : Node F → Form F
  form_of (node pos m g f) = f

  abbrev pub marks_of : Node F → Marks
  marks_of (node pos m g f) = m

  abbrev pub group_of : Node F → Group F
  group_of (node pos m g f) = g

  abbrev pub with_marks : (Marks → Marks) → Node F → Node F
  with_marks h (node pos m g f) = node pos (h m) g f

  abbrev pub with_group : Group F → Node F → Node F
  with_group g (node pos m old f) = node pos m g f

  abbrev pub has_group : Group F → Bool
  has_group no_group = false
  has_group (group ps pos on_path) = true

  -- The field `OnPath` of a group.
  abbrev pub on_path : Group F → Bool
  on_path no_group = false
  on_path (group ps pos b) = b

  abbrev pub is_variable : Form F → Bool
  is_variable (variable v) = true
  is_variable _ = false

  abbrev pub is_placeholder : Form F → Bool
  is_placeholder placeholder = true
  is_placeholder _ = false

  abbrev pub is_sort : Form F → Bool
  is_sort (sort l ts) = true
  is_sort _ = false

  abbrev pub is_subscript : Form F → Bool
  is_subscript (binary op l r) = bytes_eq op subscript_op
  is_subscript _ = false

  -- The field `Value`.
  pub value_of : Form F → Bytes
  value_of (binary op l r) = op
  value_of (minus e) = b'-' ∷ []
  value_of (array es) = b'[' ∷ []
  value_of (object ps) = b'{' ∷ []
  value_of (name v) = v
  value_of (string v) = v
  value_of (value v) = v
  value_of (variable v) = v
  value_of (regex v) = v
  value_of (number v x) = v
  value_of wildcard = b'*' ∷ []
  value_of descendant = codes "**"
  value_of placeholder = b'?' ∷ []
  value_of (parent slot) = b'%' ∷ []
  value_of (call partial v p args) = v
  value_of _ = []

  abbrev pub nodes_of : List (Node F) → Nodes F
  nodes_of [] = nil
  nodes_of (e ∷ es) = cons e (nodes_of es)

  -- `isPathLike`, internal/parser/ancestry.go
  pub is_path_like : Node F → Bool
  is_path_like (node pos m g (path steps)) = true
  is_path_like (node pos m g (sort l ts)) = true
  is_path_like (node pos m g (name v)) = true
  is_path_like (node pos m g (binary op l r)) =
      let chain = is_path_like l in
      is_set m.index || bytes_eq op dot_op || (bytes_eq op subscript_op && chain)
  is_path_like (node pos m g f) = is_set m.index
