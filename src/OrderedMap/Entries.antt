-- ===== src/OrderedMap/Entries.antt =====
-- Lists of entries with distinct keys.
use gnata.Base.{
  is_some, ◌≡◌, refl, sym, ap, ◌∙◌, subst, inl, inr, List, [], ◌∷◌, ◌++◌, Option, none, some, Bytes,
  if◌then◌else◌, map, same, lookup, insert, remove, lookup-insert, lookup-remove, bytes_keys,
  bytes_eq_iff, bytes_eq_refl, arith, Bool-cases, none-ne-some,
}
use gnata.OrderedMap.{delete_key}

module _ {V : Type 0} where
  abbrev pub keys_of : List (Bytes × V) → List Bytes
  keys_of es = map (λ (p : Bytes × V). p.0) es

  abbrev pub AreDistinct : List (Bytes × V) → Type 0
  AreDistinct [] = Unit
  AreDistinct ((k, v) ∷ es) = (lookup k es ≡ none) × AreDistinct es

  pub keys-insert :
      (k : Bytes) (v : V) (es : List (Bytes × V))
      → keys_of (insert k v es)
        ≡ (if is_some (lookup k es) then keys_of es else keys_of es ++ k ∷ [])
  keys-insert k v [] = refl
  keys-insert k v ((j, w) ∷ es) = elim (Bool-cases (same j k)) [
    | inl e ↦ rw e (ap (λ i. i ∷ keys_of es) (sym ((bytes_eq_iff j k).0 e)))
    | inr e ↦ ground (arith, e, keys-insert k v es)
  ]

  pub keys-remove :
      (k : Bytes) (es : List (Bytes × V)) → keys_of (remove k es) ≡ delete_key k (keys_of es)
  unfolding delete_key
  keys-remove k [] = refl
  keys-remove k ((j, w) ∷ es) = ground (arith, keys-remove k es)

  pub AreDistinct-insert :
      (k : Bytes) (v : V) (es : List (Bytes × V)) → AreDistinct es → AreDistinct (insert k v es)
  AreDistinct-insert k v [] h = (refl, tt)
  AreDistinct-insert k v ((j, w) ∷ es) (h, hs) = elim (Bool-cases (same j k)) [
    | inl e ↦ rw e (subst (λ i. lookup i es ≡ none) ((bytes_eq_iff j k).0 e) h, hs)
    | inr e ↦
        (let seen = lookup-insert k j v es in
          let fresh : lookup j (insert k v es) ≡ none =
            ground (arith, seen, h, e, bytes_eq_iff k j, bytes_eq_iff j k) in
          rw e (fresh, AreDistinct-insert k v es hs))
  ]

  pub AreDistinct-remove :
      (k : Bytes) (es : List (Bytes × V)) → AreDistinct es → AreDistinct (remove k es)
  AreDistinct-remove k [] h = tt
  AreDistinct-remove k ((j, w) ∷ es) (h, hs) = elim (Bool-cases (same j k)) [
    | inl e ↦ rw e (AreDistinct-remove k es hs)
    | inr e ↦
        (let seen = lookup-remove k j es in
          let fresh : lookup j (remove k es) ≡ none = ground (arith, seen, h) in
          rw e (fresh, AreDistinct-remove k es hs))
  ]

  pub remove-absent : (k : Bytes) (es : List (Bytes × V)) → lookup k es ≡ none → remove k es ≡ es
  remove-absent k [] h = refl
  remove-absent k ((j, w) ∷ es) h = ground (arith, h, remove-absent k es)

  -- What Range calls, of the spec.
  abbrev pub all_entries : List (Bytes × V) → List (Bytes × Option V)
  all_entries es = map (λ (p : Bytes × V). (p.0, some p.1)) es

  -- A map that holds every entry gives the entries back.
  pub lookup-keys :
      (d es : List (Bytes × V))
      → AreDistinct es
      → ((k : Bytes) (v : V) → lookup k es ≡ some v → lookup k d ≡ some v)
      → map (λ k. (k, lookup k d)) (keys_of es) ≡ all_entries es
  lookup-keys d [] h f = refl
  lookup-keys d ((k, v) ∷ es) (h, hs) f =
      (let rest = lookup-keys d es hs (λ j w e. f j w (elim (Bool-cases (same k j)) [
        | inl q ↦
            absurd
              (none-ne-some (sym e ∙ subst (λ i. lookup i es ≡ none) ((bytes_eq_iff k j).0 q) h))
        | inr q ↦ rw q e
      ])) in
        let own = f k v (rw (bytes_eq_refl k) refl) in rw (own, rest) refl)
