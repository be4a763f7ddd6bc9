-- ===== src/Env.antt =====
-- internal/evaluator/env.go: `Environment`, the variable scopes of an evaluation. A scope keeps two
-- bindings inline and spills to a map with the third. `inline` lists the first `inlineN` slots of
-- the array with their bits of `plainInline`; no other bit of it is ever set. The nil map
-- `plainArrays` is the empty one. An environment is the list of its scopes, innermost first.
pub mod View
pub mod Names
pub mod Refine
pub mod Run
mod Tests
use gnata.Base.{
  is_some, ℕ, Bool, true, false, List, [], ◌∷◌, ◌++◌, Option, none, some, Bytes, ltb, if◌then◌else◌,
  length, map, same, lookup, insert, remove, bytes_keys,
}
use mathlib.Core.Option

-- A `binding` in the inline array, with its bit of `plainInline`.
pub record Slot (V : Type 0) : Type 0 where
  pub name : Bytes
  pub value : V
  pub plain : Bool

pub record Scope (V : Type 0) : Type 0 where
  pub inline : List (Slot V)
  pub bindings : Option (List (Bytes × V))
  pub plain_arrays : List (Bytes × Unit {0})

-- `inlineBindingCap`
abbrev pub inline_binding_cap : ℕ
inline_binding_cap = 2

abbrev pub Environment : Type 0 → Type 0
Environment V = List (Scope V)

module _ {V : Type 0} where
  -- the fields of `&Environment{}`
  abbrev pub no_bindings : Scope V
  no_bindings = record { inline = []; bindings = none; plain_arrays = [] }

  -- `NewChildEnvironment`, as far as it concerns bindings
  pub new_child_environment : Environment V → Environment V
  new_child_environment parent = no_bindings ∷ parent

  -- the first loop of `Bind`, `none` where no slot has the name
  pub rebind : Bytes → V → List (Slot V) → Option (List (Slot V))
  rebind name value [] = none
  rebind name value (s ∷ ss) =
      if same s.name name
      then some (record s { value = value; plain = false } ∷ ss)
      else Option.map (λ r. s ∷ r) (rebind name value ss)

  -- the loop that moves the inline bindings, and their marks, to the maps
  pub spill :
      List (Slot V)
      → List (Bytes × V)
      → List (Bytes × Unit {0})
      → List (Bytes × V) × List (Bytes × Unit {0})
  spill [] m plain = (m, plain)
  spill (s ∷ ss) m plain =
      spill ss (insert s.name s.value m) (if s.plain then insert s.name tt plain else plain)

  pub bind_inline : Option (List (Slot V)) → Bytes → V → Scope V → Scope V
  bind_inline (some slots) name value e = record e { inline = slots }
  bind_inline none name value e =
      let (m, plain) = spill e.inline [] e.plain_arrays in
      if ltb (length e.inline) inline_binding_cap
      then record e {
        inline = e.inline ++ record { name = name; value = value; plain = false } ∷ [];
      }
      else record { inline = []; bindings = some (insert name value m); plain_arrays = plain }

  pub bind_in : Option (List (Bytes × V)) → Bytes → V → Scope V → Scope V
  bind_in (some m) name value e = record e {
    bindings = some (insert name value m);
    plain_arrays = remove name e.plain_arrays;
  }
  bind_in none name value e = bind_inline (rebind name value e.inline) name value e

  -- `Bind`
  pub bind_scope : Bytes → V → Scope V → Scope V
  bind_scope name value e = bind_in e.bindings name value e

  pub mark_slots : Bytes → List (Slot V) → List (Slot V)
  mark_slots name [] = []
  mark_slots name (s ∷ ss) =
      (if same s.name name then record s { plain = true } else s) ∷ mark_slots name ss

  pub mark_in : Option (List (Bytes × V)) → Bytes → Scope V → Scope V
  mark_in none name e = record e { inline = mark_slots name e.inline }
  mark_in (some m) name e = record e { plain_arrays = insert name tt e.plain_arrays }

  -- `markPlainArray`
  pub mark_plain_array : Bytes → Scope V → Scope V
  mark_plain_array name e = mark_in e.bindings name e

  pub find_slot : Bytes → List (Slot V) → Option (Slot V)
  find_slot name [] = none
  find_slot name (s ∷ ss) = if same s.name name then some s else find_slot name ss

  pub lookup_in : Option (List (Bytes × V)) → Bytes → Scope V → Option V
  lookup_in (some m) name e = lookup name m
  lookup_in none name e = Option.map (λ (s : Slot V). s.value) (find_slot name e.inline)

  -- `LookupDirect`
  pub lookup_direct : Bytes → Scope V → Option V
  lookup_direct name e = lookup_in e.bindings name e

  -- `Lookup`
  pub lookup_variable : Bytes → Environment V → Option V
  lookup_variable name [] = none
  lookup_variable name (e ∷ parent) = elim (lookup_direct name e) [
    | some v ↦ some v
    | none ↦ lookup_variable name parent
  ]

  -- the mark of the scope's own binding, `none` where the scope does not bind the name
  pub mark_of : Option (List (Bytes × V)) → Bytes → Scope V → Option Bool
  mark_of (some m) name e = Option.map (λ _. is_some (lookup name e.plain_arrays)) (lookup name m)
  mark_of none name e = Option.map (λ (s : Slot V). s.plain) (find_slot name e.inline)

  -- `boundPlainArray`
  pub bound_plain_array : Bytes → Environment V → Bool
  bound_plain_array name [] = false
  bound_plain_array name (e ∷ parent) = elim (mark_of e.bindings name e) [
    | some plain ↦ plain
    | none ↦ bound_plain_array name parent
  ]
