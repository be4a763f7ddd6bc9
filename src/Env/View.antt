-- ===== src/Env/View.antt =====
-- What a scope means: for each name, the value bound to it and whether that is marked plain.
use gnata.Base.{
  is_some, ◌≡◌, refl, sym, ◌∙◌, subst, inl, inr, Bool, true, false, ◌&&◌, List, [], ◌∷◌, ◌++◌,
  Option, none, some, Bytes, arith, if◌then◌else◌, same, lookup, insert, lookup-insert, bytes_keys,
  bytes_eq_iff, Bool-cases, Option-cases, none-ne-some, eq_of_some-eq-some,
}
use mathlib.Core.Option
use gnata.Env.{Slot, rebind, spill, mark_slots}

module _ {V : Type 0} where
  abbrev pub slot_view : Bytes → List (Slot V) → Option (V × Bool)
  slot_view k [] = none
  slot_view k (s ∷ ss) = if same s.name k then some (s.value, s.plain) else slot_view k ss

  abbrev pub map_view : Bytes → List (Bytes × V) → List (Bytes × Unit {0}) → Option (V × Bool)
  map_view k m plain = Option.map (λ v. (v, is_some (lookup k plain))) (lookup k m)

  -- No two slots have one name.
  abbrev pub HasDistinctNames : List (Slot V) → Type 0
  HasDistinctNames [] = Unit
  HasDistinctNames (s ∷ ss) = (slot_view s.name ss ≡ none) × HasDistinctNames ss

  pub rebind-none :
      (n : Bytes) (v : V) (ss : List (Slot V)) → rebind n v ss ≡ none → slot_view n ss ≡ none
  unfolding rebind
  rebind-none n v [] h = refl
  rebind-none n v (s ∷ ss) h = ground (arith, rebind-none n v ss)

  pub slot_view-rebind :
      (n k : Bytes) (v : V) (ss ss' : List (Slot V))
      → rebind n v ss ≡ some ss'
      → slot_view k ss' ≡ (if same n k then some (v, false) else slot_view k ss)
  unfolding rebind
  slot_view-rebind n k v [] ss' h = absurd (none-ne-some (sym h))
  slot_view-rebind n k v (s ∷ ss) ss' h = elim (Bool-cases (same s.name n)) [
    | inl e ↦
        (let q : record s { value = v; plain = false } ∷ ss ≡ ss' =
            eq_of_some-eq-some (rw (e, rebind) at h) in
          rw (sym q) ground (arith, bytes_eq_iff s.name n, bytes_eq_iff s.name k, bytes_eq_iff n k))
    | inr e ↦ elim (Option-cases (rebind n v ss)) [
      | inl o ↦ absurd (none-ne-some (sym (rw (e, o, rebind) at h)))
      | inr (r, o) ↦
          (let q : s ∷ r ≡ ss' = eq_of_some-eq-some (rw (e, o, rebind) at h) in
            let rest = slot_view-rebind n k v ss r o in
            rw (sym q) ground
              (arith, rest, e, bytes_eq_iff s.name n, bytes_eq_iff s.name k, bytes_eq_iff n k))
    ]
  ]

  pub slot_view-append :
      (n k : Bytes) (v : V) (ss : List (Slot V))
      → slot_view n ss ≡ none
      → slot_view k (ss ++ record { name = n; value = v; plain = false } ∷ [])
        ≡ (if same n k then some (v, false) else slot_view k ss)
  slot_view-append n k v [] h = refl
  slot_view-append n k v (s ∷ ss) h = ground (
    arith,
    slot_view-append n k v ss,
    bytes_eq_iff s.name n,
    bytes_eq_iff s.name k,
    bytes_eq_iff n k,
  )

  pub slot_view-mark :
      (n k : Bytes) (ss : List (Slot V))
      → slot_view k (mark_slots n ss) ≡ (
          if same n k
          then Option.map (λ (t : V × Bool). (t.0, true)) (slot_view k ss)
          else slot_view k ss)
  unfolding mark_slots
  slot_view-mark n k [] = ground arith
  slot_view-mark n k (s ∷ ss) =
      ground (
        arith,
        slot_view-mark n k ss,
        bytes_eq_iff s.name n,
        bytes_eq_iff s.name k,
        bytes_eq_iff n k,
      )

  -- No slot has a name that is marked already.
  abbrev pub IsFree : List (Slot V) → List (Bytes × Unit {0}) → Type 0
  IsFree ss plain = (j : Bytes) (t : V × Bool) → slot_view j ss ≡ some t → lookup j plain ≡ none

  abbrev pub or_else : Option (V × Bool) → Option (V × Bool) → Option (V × Bool)
  or_else (some t) o = some t
  or_else none o = o

  abbrev pub mark_next : Slot V → List (Bytes × Unit {0}) → List (Bytes × Unit {0})
  mark_next s plain = if s.plain then insert s.name tt plain else plain

  pub lookup-mark_next :
      (k : Bytes) (s : Slot V) (plain : List (Bytes × Unit {0}))
      → lookup k (mark_next s plain)
        ≡ (if s.plain && same s.name k then some tt else lookup k plain)
  lookup-mark_next k s plain = elim (Bool-cases s.plain) [
    | inl e ↦ rw e (lookup-insert s.name k tt plain)
    | inr e ↦ rw e refl
  ]

  pub lookup-spill :
      (k : Bytes) (ss : List (Slot V)) (m : List (Bytes × V)) (plain : List (Bytes × Unit {0}))
      → slot_view k ss ≡ none
      → lookup k (spill ss m plain).1 ≡ lookup k plain
  unfolding spill
  lookup-spill k [] m plain h = refl
  lookup-spill k (s ∷ ss) m plain h = elim (Bool-cases (same s.name k)) [
    | inl e ↦ absurd (none-ne-some (rw e at h))
    | inr e ↦
        (let rest = lookup-spill k ss (insert s.name s.value m) (mark_next s plain) (rw e at h) in
          let step = lookup-mark_next k s plain in ground (arith, rest, step, e))
  ]

  IsFree-mark_next :
      (s : Slot V) (ss : List (Slot V)) (plain : List (Bytes × Unit {0}))
      → slot_view s.name ss ≡ none
      → IsFree (s ∷ ss) plain
      → IsFree ss (mark_next s plain)
  IsFree-mark_next s ss plain d f j t h = elim (Bool-cases (same s.name j)) [
    | inl e ↦
        (let q = (bytes_eq_iff s.name j).0 e in
          absurd (none-ne-some (sym h ∙ (subst (λ i. slot_view i ss ≡ none) q d))))
    | inr e ↦
        (let free = f j t (rw e h) in
          let step = lookup-mark_next j s plain in ground (arith, free, step, e))
  ]

  pub map_view-spill :
      (k : Bytes) (ss : List (Slot V)) (m : List (Bytes × V)) (plain : List (Bytes × Unit {0}))
      → HasDistinctNames ss
      → IsFree ss plain
      → map_view k (spill ss m plain).0 (spill ss m plain).1
        ≡ or_else (slot_view k ss) (map_view k m plain)
  unfolding spill
  map_view-spill k [] m plain d f = refl
  map_view-spill k (s ∷ ss) m plain (d, ds) f =
      (let rest =
          map_view-spill k ss (insert s.name s.value m) (mark_next s plain) ds
            (IsFree-mark_next s ss plain d f) in
        let step = lookup-mark_next k s plain in
        let held = lookup-insert s.name k s.value m in
        elim (Bool-cases (same s.name k)) [
          | inl e ↦
              (let q = (bytes_eq_iff s.name k).0 e in
                let fresh : slot_view k ss ≡ none = subst (λ i. slot_view i ss ≡ none) q d in
                let free = f k (s.value, s.plain) (rw e refl) in
                rest ∙ (rw (fresh, held, step, e, free) ground arith))
          | inr e ↦ rest ∙ (rw (held, step, e) ground arith)
        ])
