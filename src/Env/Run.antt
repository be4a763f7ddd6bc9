-- ===== src/Env/Run.antt =====
-- Sequences of `Bind` and `markPlainArray`, and what `Lookup` and `boundPlainArray` find behind them.
use gnata.Base.{
  ◌≡◌, refl, sym, ap, ◌∙◌, inl, inr, Bool, false, List, [], ◌∷◌, Option, none, some, Bytes, arith,
  if◌then◌else◌, same, bytes_keys, Bool-cases,
}
use mathlib.Core.Option
use gnata.Env.{
  Slot, Scope, Environment, find_slot, lookup_in, lookup_direct, lookup_variable, mark_of,
  bound_plain_array,
}
use gnata.Env.View.{slot_view, or_else}
use gnata.Env.Refine.{
  View, Op, bind, mark, step_view, run_view, step_scope, run_scope, view_in, view, IsValid,
  view-bind_scope, view-mark_plain_array, step_scope-IsValid,
}

module _ {V : Type 0} where
  -- What a chain of scopes binds: the innermost scope that has the name decides.
  abbrev pub chain_view : Environment V → View V
  chain_view [] k = none
  chain_view (e ∷ parent) k = or_else (view e k) (chain_view parent k)

  abbrev pub value_of : Option (V × Bool) → Option V
  value_of o = Option.map (λ (t : V × Bool). t.0) o

  abbrev pub plain_of : Option (V × Bool) → Bool
  plain_of (some (v, plain)) = plain
  plain_of none = false

  find_slot-view :
      (k : Bytes) (ss : List (Slot V))
      → Option.map (λ (s : Slot V). (s.value, s.plain)) (find_slot k ss) ≡ slot_view k ss
  unfolding find_slot
  find_slot-view k [] = refl
  find_slot-view k (s ∷ ss) = elim (Bool-cases (same s.name k)) [
    | inl q ↦ rw q refl
    | inr q ↦ rw q (find_slot-view k ss)
  ]

  lookup_in-view :
      (o : Option (List (Bytes × V))) (k : Bytes) (e : Scope V)
      → lookup_in o k e ≡ value_of (view_in o e k)
  unfolding lookup_in
  lookup_in-view (some m) k e = ground arith
  lookup_in-view none k e = rw (sym (find_slot-view k e.inline)) ground arith

  mark_of-view :
      (o : Option (List (Bytes × V))) (k : Bytes) (e : Scope V)
      → mark_of o k e ≡ Option.map (λ (t : V × Bool). t.1) (view_in o e k)
  unfolding mark_of
  mark_of-view (some m) k e = ground arith
  mark_of-view none k e = rw (sym (find_slot-view k e.inline)) ground arith

  lookup_variable-chain :
      (k : Bytes) (es : Environment V) → lookup_variable k es ≡ value_of (chain_view es k)
  unfolding lookup_variable lookup_direct
  lookup_variable-chain k [] = refl
  lookup_variable-chain k (e ∷ es) =
      ground (arith, lookup_in-view e.bindings k e, lookup_variable-chain k es)

  bound_plain_array-chain :
      (k : Bytes) (es : Environment V) → bound_plain_array k es ≡ plain_of (chain_view es k)
  unfolding bound_plain_array
  bound_plain_array-chain k [] = refl
  bound_plain_array-chain k (e ∷ es) =
      ground (arith, mark_of-view e.bindings k e, bound_plain_array-chain k es)

  view-step_scope :
      (o : Op V) (e : Scope V) (f : View V)
      → IsValid e
      → ((j : Bytes) → view e j ≡ f j)
      → (j : Bytes) → view (step_scope o e) j ≡ step_view o f j
  view-step_scope (bind n v) e f w h j =
      view-bind_scope n v e j w ∙ ap (λ o. if same n j then some (v, false) else o) (h j)
  view-step_scope (mark n) e f w h j = view-mark_plain_array n e j ∙ rw (h j) refl

  view-run_scope :
      (os : List (Op V)) (e : Scope V) (k : Bytes) (f : View V)
      → IsValid e
      → ((j : Bytes) → view e j ≡ f j)
      → view (run_scope os e) k ≡ run_view os f k
  view-run_scope [] e k f w h = h k
  view-run_scope (o ∷ os) e k f w h =
      view-run_scope os (step_scope o e) k (step_view o f) (step_scope-IsValid o e w)
        (view-step_scope o e f w h)

  run_scope-IsValid : (os : List (Op V)) (e : Scope V) → IsValid e → IsValid (run_scope os e)
  run_scope-IsValid [] e w = w
  run_scope-IsValid (o ∷ os) e w = run_scope-IsValid os (step_scope o e) (step_scope-IsValid o e w)

  -- Binding and marking in a scope, in any order, is binding and marking in a function from names
  -- to values: behind any such sequence, on a valid scope, Lookup and boundPlainArray answer for the
  -- innermost scope that has the name, and the scope is valid again.
  pub lookup-run_scope :
      (os : List (Op V)) (e : Scope V) (parent : Environment V) (k : Bytes)
      → IsValid e
      → (lookup_variable k (run_scope os e ∷ parent)
          ≡ value_of (or_else (run_view os (view e) k) (chain_view parent k)))
        × (bound_plain_array k (run_scope os e ∷ parent)
            ≡ plain_of (or_else (run_view os (view e) k) (chain_view parent k)))
        × IsValid (run_scope os e)
  lookup-run_scope os e parent k w =
      (let e' = run_scope os e in
        let seen = view-run_scope os e k (view e) w (λ j. refl) in
        let chain = ap (λ o. or_else o (chain_view parent k)) seen in
        (
          lookup_variable-chain k (e' ∷ parent) ∙ ap value_of chain,
          bound_plain_array-chain k (e' ∷ parent) ∙ ap plain_of chain,
          run_scope-IsValid os e w,
        ))
