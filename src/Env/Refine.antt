-- ===== src/Env/Refine.antt =====
-- `Bind`, `markPlainArray`, `Lookup` and `boundPlainArray` against scopes that are functions from
-- names to a value with its mark.
use gnata.Base.{
  ◌≤◌, ◌<◌, ◌≡◌, refl, ◌∙◌, subst, inl, inr, Bool, true, false, List, [], ◌∷◌, Option, none, some,
  Bytes, arith, ltb, if◌then◌else◌, length, length-append, same, lookup, insert, lookup-insert,
  lookup-remove, bytes_keys, bytes_eq_iff, Bool-cases, Option-cases,
}
use mathlib.Core.Option
use gnata.Env.{
  Slot, Scope, rebind, spill, bind_inline, bind_in, bind_scope, mark_in, mark_plain_array,
  inline_binding_cap,
}
use gnata.Env.View.{
  slot_view, map_view, HasDistinctNames, rebind-none, slot_view-rebind, slot_view-append,
  slot_view-mark, or_else, IsFree, lookup-spill, map_view-spill,
}
use gnata.Env.Names.{rebind-keeps, append-HasDistinctNames, mark-keeps}

-- A scope as a function: the value of a name and whether it is marked plain.
abbrev pub View : Type 0 → Type 0
View V = Bytes → Option (V × Bool)

pub data Op (V : Type 0) : Type 0 where
  bind : Bytes → V → Op V
  mark : Bytes → Op V

module _ {V : Type 0} where
  abbrev pub set_view : Bytes → V → View V → View V
  set_view n v f k = if same n k then some (v, false) else f k

  abbrev pub mark_view : Bytes → View V → View V
  mark_view n f k = if same n k then Option.map (λ (t : V × Bool). (t.0, true)) (f k) else f k

  abbrev pub step_view : Op V → View V → View V
  step_view (bind n v) f = set_view n v f
  step_view (mark n) f = mark_view n f

  abbrev pub run_view : List (Op V) → View V → View V
  run_view [] f = f
  run_view (o ∷ os) f = run_view os (step_view o f)

  abbrev pub step_scope : Op V → Scope V → Scope V
  step_scope (bind n v) e = bind_scope n v e
  step_scope (mark n) e = mark_plain_array n e

  abbrev pub run_scope : List (Op V) → Scope V → Scope V
  run_scope [] e = e
  run_scope (o ∷ os) e = run_scope os (step_scope o e)

  abbrev pub view_in : Option (List (Bytes × V)) → Scope V → View V
  view_in (some m) e k = map_view k m e.plain_arrays
  view_in none e k = slot_view k e.inline

  abbrev pub view : Scope V → View V
  view e k = view_in e.bindings e k

  -- Only a map has marks of its own, and the slots fit and have names of their own.
  abbrev pub IsValidIn : Option (List (Bytes × V)) → Scope V → Type 0
  IsValidIn (some m) e = Unit
  IsValidIn none e =
      (length e.inline ≤ inline_binding_cap) × HasDistinctNames e.inline × (e.plain_arrays ≡ [])

  abbrev pub IsValid : Scope V → Type 0
  IsValid e = IsValidIn e.bindings e

  or_else-none : (o : Option (V × Bool)) → or_else o none ≡ o
  or_else-none o = ground arith

  -- The slots become a map with the marks that they had.
  view-spilled :
      (n : Bytes) (v : V) (e : Scope V) (k : Bytes)
      → slot_view n e.inline ≡ none
      → IsValidIn none e
      → map_view k
          (insert n v (spill e.inline [] e.plain_arrays).0)
          (spill e.inline [] e.plain_arrays).1
        ≡ set_view n v (λ j. slot_view j e.inline) k
  view-spilled n v e k h (_, d, p) =
      (let free : IsFree e.inline e.plain_arrays = λ j t q. rw p refl in
        let spilled = map_view-spill k e.inline [] e.plain_arrays d free in
        let unmarked : lookup n (spill e.inline [] e.plain_arrays).1 ≡ none =
          lookup-spill n e.inline [] e.plain_arrays h ∙ rw p refl in
        let held = lookup-insert n k v (spill e.inline [] e.plain_arrays).0 in
        elim (Bool-cases (same n k)) [
          | inl q ↦
              (let same_key = (bytes_eq_iff n k).0 q in
                let clear =
                  subst (λ i. lookup i (spill e.inline [] e.plain_arrays).1 ≡ none) same_key
                    unmarked in
                rw (held, q, clear) refl)
          | inr q ↦ rw (held, q) (spilled ∙ or_else-none (slot_view k e.inline))
        ])

  bind_inline-view :
      (o : Option (List (Slot V))) (n : Bytes) (v : V) (e : Scope V) (k : Bytes)
      → rebind n v e.inline ≡ o
      → e.bindings ≡ none
      → IsValidIn none e
      → view (bind_inline o n v e) k ≡ set_view n v (λ j. slot_view j e.inline) k
  unfolding bind_inline
  bind_inline-view (some slots) n v e k h b w = rw b (slot_view-rebind n k v e.inline slots h)
  bind_inline-view none n v e k h b w =
      (let free = rebind-none n v e.inline h in
        elim (Bool-cases (ltb (length e.inline) inline_binding_cap)) [
          | inl q ↦ rw (q, b) (slot_view-append n k v e.inline free)
          | inr q ↦ rw q (view-spilled n v e k free w)
        ])

  bind_in-view :
      (o : Option (List (Bytes × V))) (n : Bytes) (v : V) (e : Scope V) (k : Bytes)
      → e.bindings ≡ o
      → IsValidIn o e
      → view (bind_in o n v e) k ≡ set_view n v (view_in o e) k
  unfolding bind_in
  bind_in-view none n v e k b w = bind_inline-view (rebind n v e.inline) n v e k refl b w
  bind_in-view (some m) n v e k b w =
      ground (arith, lookup-insert n k v m, lookup-remove n k e.plain_arrays)

  pub view-bind_scope :
      (n : Bytes) (v : V) (e : Scope V) (k : Bytes)
      → IsValid e
      → view (bind_scope n v e) k ≡ set_view n v (view e) k
  unfolding bind_scope
  view-bind_scope n v e k w = bind_in-view e.bindings n v e k refl w

  mark_in-view :
      (o : Option (List (Bytes × V))) (n : Bytes) (e : Scope V) (k : Bytes)
      → e.bindings ≡ o
      → view (mark_in o n e) k ≡ mark_view n (view_in o e) k
  unfolding mark_in
  mark_in-view none n e k b = rw b (slot_view-mark n k e.inline)
  mark_in-view (some m) n e k b = rw (b, lookup-insert n k tt e.plain_arrays) ground arith

  pub view-mark_plain_array :
      (n : Bytes) (e : Scope V) (k : Bytes) → view (mark_plain_array n e) k ≡ mark_view n (view e) k
  unfolding mark_plain_array
  view-mark_plain_array n e k = mark_in-view e.bindings n e k refl

  bind_in-IsValid :
      (o : Option (List (Bytes × V))) (n : Bytes) (v : V) (e : Scope V)
      → e.bindings ≡ o
      → IsValidIn o e
      → IsValid (bind_in o n v e)
  unfolding bind_in bind_inline
  bind_in-IsValid (some m) n v e b w = tt
  bind_in-IsValid none n v e b (size, d, p) = elim (Option-cases (rebind n v e.inline)) [
    | inl o ↦
        (let free = rebind-none n v e.inline o in
          let names = append-HasDistinctNames n v e.inline d free in
          elim (Bool-cases (ltb (length e.inline) inline_binding_cap)) [
            | inl q ↦
                (let fits : length e.inline < inline_binding_cap = ground (arith, q) in
                  rw (o, q, b)
                    (
                      rw
                          (length-append e.inline
                            (record { name = n; value = v; plain = false } ∷ []))
                          omega arith,
                      names,
                      p,
                    ))
            | inr q ↦ rw (o, q) tt
          ])
    | inr (r, o) ↦
        (let (names, count) = rebind-keeps n v e.inline r d o in
          rw (o, b) (rw count size, names, p))
  ]

  mark_in-IsValid :
      (o : Option (List (Bytes × V))) (n : Bytes) (e : Scope V)
      → e.bindings ≡ o
      → IsValidIn o e
      → IsValid (mark_in o n e)
  unfolding mark_in
  mark_in-IsValid (some m) n e b w = rw b tt
  mark_in-IsValid none n e b (size, d, p) =
      (let (names, count) = mark-keeps n e.inline d in rw b (rw count size, names, p))

  pub step_scope-IsValid : (o : Op V) (e : Scope V) → IsValid e → IsValid (step_scope o e)
  unfolding bind_scope mark_plain_array
  step_scope-IsValid (bind n v) e w = bind_in-IsValid e.bindings n v e refl w
  step_scope-IsValid (mark n) e w = mark_in-IsValid e.bindings n e refl w
