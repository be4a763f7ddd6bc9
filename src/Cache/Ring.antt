-- ===== src/Cache/Ring.antt =====
-- The ring of entries read from its oldest: what a write at `head` does to that list.
use native.Mathlib.Nat.{mod-add-mod, mod-eq_of_lt, mod-eq-sub-mod}
use native.Mathlib.Decide.{dec_lt}
use gnata.Base.{
  ℕ, zero, suc, ◌+◌, ◌-◌, ◌%◌, ◌≤◌, ◌<◌, ◌≡◌, ◌≢◌, refl, sym, ap, ap₂, subst, ◌∙◌, List, [], ◌∷◌,
  ◌++◌, arith, length, get_or, set, get_or-set_self, get_or-set_ne, tail_of,
}
use gnata.Cache.{CacheEntry, no_entry, rebuild}

-- Stepping `head` on and counting one more entry reads the same slots.
slot_next :
    (size h c i : ℕ)
    → c < size
    → h < size
    → i ≤ c
    → ((h + 1) % size + size + i - suc c) % size ≡ (h + size + i - c) % size
slot_next size h c i hc hh hi =
    let e : (h + 1) % size + size + i - suc c ≡ (h + 1) % size + (size + i - suc c) = omega arith in
    let f : h + 1 + (size + i - suc c) ≡ h + size + i - c = omega arith in rw (e, mod-add-mod, f)

-- In a full ring the next slot is the following one.
slot_full :
    (size h i : ℕ)
    → h < size
    → ((h + 1) % size + size + i - size) % size ≡ (h + size + suc i - size) % size
slot_full size h i hh =
    let e : (h + 1) % size + size + i - size ≡ (h + 1) % size + i = omega arith in
    let f : h + 1 + i ≡ h + size + suc i - size = omega arith in rw (e, mod-add-mod, f)

-- A slot less than a whole turn after `head` is another one.
turn-ne : (size h k : ℕ) → h < size → 0 < k → k < size → (h + k) % size ≢ h
turn-ne size h k hh lo hi = elim (dec_lt (h + k) size) [
  | yes p ↦ λ e. absurd (omega (arith, mod-eq_of_lt p, e))
  | no p ↦ λ e. absurd (
      omega (
        arith,
        e,
        mod-eq-sub-mod {n = h + k} {m = size} (omega arith),
        mod-eq_of_lt {n = h + k - size} {m = size} (omega arith),
      ))
]

slot-ne-head : (size h c i : ℕ) → h < size → i < c → c < size + i → h ≢ (h + size + i - c) % size
slot-ne-head size h c i hh hi hc e =
    let f : h + size + i - c ≡ h + (size + i - c) = omega arith in
    turn-ne size h (size + i - c) hh (omega arith) (omega arith)
      (ap (λ (t : ℕ). t % size) (sym f) ∙ sym e)

whole_turn : (size h : ℕ) → h < size → (h + size) % size ≡ h
whole_turn size h hh =
    let e : h + size - size ≡ h = omega arith in
    mod-eq-sub-mod {n = h + size} {m = size} (omega arith) ∙ rw e (mod-eq_of_lt hh)

module _ {P : Type 0} where
  pub length-rebuild :
      (es : List (CacheEntry P)) (size h c i n : ℕ) → length (rebuild es size h c i n) ≡ n
  unfolding rebuild
  length-rebuild es size h c i zero = refl
  length-rebuild es size h c i (suc n) = ap suc (length-rebuild es size h c (suc i) n)

  module _ (es : List (CacheEntry P)) (size h : ℕ) (e : CacheEntry P) (hs : length es ≡ size)
      (hh : h < size) where
    written : get_or (set es h e) h no_entry ≡ e
    written = get_or-set_self es h e no_entry (omega arith)

    -- With room left the write adds the entry behind the others.
    pub write_room :
        (c i n : ℕ)
        → c < size
        → i + n ≡ c
        → rebuild (set es h e) size ((h + 1) % size) (suc c) i (suc n)
          ≡ rebuild es size h c i n ++ e ∷ []
    unfolding rebuild
    write_room c i zero hc q =
        let f : h + size + i - c ≡ h + size = omega arith in
        rw (slot_next size h c i hc hh (omega arith), f, whole_turn size h hh, written)
    write_room c i (suc n) hc q =
        ap₂ ◌∷◌
          (rw (slot_next size h c i hc hh (omega arith))
            (get_or-set_ne es e no_entry (slot-ne-head size h c i hh (omega arith) (omega arith))))
          (write_room c (suc i) n hc (omega arith))

    -- In a full ring it takes the place of the oldest.
    write_full :
        (i n : ℕ)
        → suc i + n ≡ size
        → rebuild (set es h e) size ((h + 1) % size) size i (suc n)
          ≡ rebuild es size h size (suc i) n ++ e ∷ []
    unfolding rebuild
    write_full i zero q =
        let f : h + size + suc i - size ≡ h + size = omega arith in
        rw (slot_full size h i hh, f, whole_turn size h hh, written)
    write_full i (suc n) q =
        ap₂ ◌∷◌
          (rw (slot_full size h i hh) (
            get_or-set_ne es e no_entry
              (slot-ne-head size h size (suc i) hh (omega arith) (omega arith))))
          (write_full (suc i) n (omega arith))

    pub replace_oldest :
        (c : ℕ)
        → c ≡ size
        → rebuild (set es h e) size ((h + 1) % size) c 0 c
          ≡ tail_of (rebuild es size h c 0 c) ++ e ∷ []
    unfolding rebuild
    replace_oldest zero q = absurd (omega arith)
    replace_oldest (suc m) q =
        subst
          (λ s.
            rebuild (set es h e) size ((h + 1) % size) s 0 (suc m)
            ≡ rebuild es size h s 1 m ++ e ∷ [])
          (sym q) (write_full 0 m (omega arith))
