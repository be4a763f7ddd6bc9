-- ===== src/Env/Names.antt =====
-- Slots that are rebound, appended and marked: their names and their number.
use gnata.Base.{
  suc, ◌≡◌, refl, sym, ap, inl, inr, true, false, List, [], ◌∷◌, ◌++◌, none, some, Bytes, arith,
  if◌then◌else◌, length, same, bytes_keys, bytes_eq_iff, Bool-cases, Option-cases, none-ne-some,
  eq_of_some-eq-some,
}
use gnata.Env.{Slot, rebind, mark_slots}
use gnata.Env.View.{slot_view, HasDistinctNames, slot_view-rebind, slot_view-append, slot_view-mark}

module _ {V : Type 0} where
  -- A slot that is rebound keeps its name and place.
  pub rebind-keeps :
      (n : Bytes) (v : V) (ss ss' : List (Slot V))
      → HasDistinctNames ss
      → rebind n v ss ≡ some ss'
      → HasDistinctNames ss' × (length ss' ≡ length ss)
  unfolding rebind
  rebind-keeps n v [] ss' d h = absurd (none-ne-some (sym h))
  rebind-keeps n v (s ∷ ss) ss' (d, ds) h = elim (Bool-cases (same s.name n)) [
    | inl e ↦
        (let q : record s { value = v; plain = false } ∷ ss ≡ ss' =
            eq_of_some-eq-some (rw (e, rebind) at h) in
          rw (sym q) ((d, ds), refl))
    | inr e ↦ elim (Option-cases (rebind n v ss)) [
      | inl o ↦ absurd (none-ne-some (sym (rw (e, o, rebind) at h)))
      | inr (r, o) ↦
          (let q : s ∷ r ≡ ss' = eq_of_some-eq-some (rw (e, o, rebind) at h) in
            let (rest, size) = rebind-keeps n v ss r ds o in
            let seen = slot_view-rebind n s.name v ss r o in
            let fresh : slot_view s.name r ≡ none =
              ground (arith, seen, d, e, bytes_eq_iff s.name n, bytes_eq_iff n s.name) in
            rw (sym q) ((fresh, rest), ap suc size))
    ]
  ]

  pub append-HasDistinctNames :
      (n : Bytes) (v : V) (ss : List (Slot V))
      → HasDistinctNames ss
      → slot_view n ss ≡ none
      → HasDistinctNames (ss ++ record { name = n; value = v; plain = false } ∷ [])
  append-HasDistinctNames n v [] d h = (refl, tt)
  append-HasDistinctNames n v (s ∷ ss) (d, ds) h = elim (Bool-cases (same s.name n)) [
    | inl e ↦ absurd (none-ne-some (rw e at h))
    | inr e ↦
        (let free : slot_view n ss ≡ none = rw e at h in
          let seen = slot_view-append n s.name v ss free in
          (
            ground (arith, seen, d, e, bytes_eq_iff s.name n, bytes_eq_iff n s.name),
            append-HasDistinctNames n v ss ds free,
          ))
  ]

  -- A mark changes no name.
  name-marked :
      (n : Bytes) (s : Slot V)
      → (if same s.name n then record s { plain = true } else s).name ≡ s.name
  name-marked n s = ground arith

  pub mark-keeps :
      (n : Bytes) (ss : List (Slot V))
      → HasDistinctNames ss
      → HasDistinctNames (mark_slots n ss) × (length (mark_slots n ss) ≡ length ss)
  unfolding mark_slots
  mark-keeps n [] d = (tt, refl)
  mark-keeps n (s ∷ ss) (d, ds) =
      (let (rest, size) = mark-keeps n ss ds in
        let seen = slot_view-mark n s.name ss in
        ((rw (name-marked n s, seen, d) ground arith, rest), ap suc size))
