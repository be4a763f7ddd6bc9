-- ===== src/Cache/Invariant.antt =====
-- The representation invariant of `BoundedCache`: the ring is in bounds, and the snapshot that the
-- readers use is the one of the entries in the ring, whose keys are distinct.
use gnata.Base.{
  ℕ, suc, ◌+◌, ◌≤◌, ◌<◌, ◌≡◌, refl, sym, ap, ◌∙◌, subst, Bool, false, List, [], ◌∷◌, ◌++◌, Option,
  none, some, Bytes, arith, length, get_or, map, length-set, length-replicate, tail_of, lookup,
  lookup-insert, bytes_keys, same, bytes_eq_iff, if◌then◌else◌, Bool-cases, Option-cases, ◌⊎◌, inl,
  inr, ltb, leb, none-ne-some,
}
use gnata.Cache.{
  CacheEntry, BoundedCache, Capacity, positive, zero_or_less, no_entry, rebuild, index_from,
  publish, new_bounded_cache, append_entry, invalidate,
}
use native.Mathlib.Nat.{mod-lt}
use gnata.Cache.Fifo.{find, add, IsFresh, HasDistinctKeys}
use gnata.Cache.Ring.{length-rebuild, write_room, replace_oldest}

module _ {P : Type 0} where
  -- The entries in the ring, oldest first.
  abbrev pub contents : BoundedCache P → List (CacheEntry P)
  contents c = rebuild c.entries c.capacity c.head c.count 0 c.count

  pub record IsValid (c : BoundedCache P) : Type 0 where
    pub storage : length c.entries ≡ c.capacity
    pub head_in : c.head < c.capacity
    pub count_in : c.count ≤ c.capacity
    pub published : c.snapshot ≡ publish (contents c)
    pub distinct : HasDistinctKeys (contents c)

  -- What the loop over `newIndex[key] = i` leaves for a key: its last position.
  last_position : Bytes → ℕ → List (CacheEntry P) → Option ℕ → Option ℕ
  last_position k i [] d = d
  last_position k i (e ∷ es) d = last_position k (suc i) es (if same e.key k then some i else d)

  lookup-index_from :
      (k : Bytes) (es : List (CacheEntry P)) (i : ℕ) (index : List (Bytes × ℕ))
      → lookup k (index_from i es index) ≡ last_position k i es (lookup k index)
  unfolding index_from last_position
  lookup-index_from k [] i index = refl
  lookup-index_from k (e ∷ es) i index =
      lookup-index_from k es (suc i) _ ∙ rw (lookup-insert e.key k i index)

  last_position-fresh :
      (k : Bytes) (es : List (CacheEntry P)) (i : ℕ) (d : Option ℕ)
      → IsFresh k es
      → last_position k i es d ≡ d
  unfolding last_position
  last_position-fresh k [] i d h = refl
  last_position-fresh k (e ∷ es) i d h = elim (Bool-cases (same e.key k)) [
    | inl s ↦ absurd (none-ne-some (rw s at h))
    | inr n ↦ rw n (last_position-fresh k es (suc i) d (rw n at h))
  ]

  last_position-find :
      (k : Bytes) (es : List (CacheEntry P)) (i : ℕ) (d : Option ℕ) (p : Option P)
      → HasDistinctKeys es
      → find k es ≡ some p
      → (j : ℕ) × (last_position k i es d ≡ some (i + j)) × ((get_or es j no_entry).plan ≡ p)
  unfolding last_position
  last_position-find k [] i d p u h = absurd (none-ne-some (sym h))
  last_position-find k (e ∷ es) i d p u h = elim (Bool-cases (same e.key k)) [
    | inl s ↦ (
      0,
      rw s (
          last_position-fresh k es (suc i) (some i) (rw ((bytes_eq_iff e.key k).0 s) at u.0)
          ∙ ap some (omega arith)),
      cc (rw s at h),
    )
    | inr n ↦
        let (j, q, r) = last_position-find k es (suc i) d p u.1 (rw n at h) in
        (suc j, rw n (q ∙ ap some (omega arith)), r)
  ]

  -- The index of a published snapshot leads each key to its plan.
  pub find_by_index :
      (k : Bytes) (es : List (CacheEntry P))
      → HasDistinctKeys es
      → ((lookup k (publish es).index ≡ none) × (find k es ≡ none))
        ⊎ ((i : ℕ) × (lookup k (publish es).index ≡ some i)
            × (find k es ≡ some (get_or es i no_entry).plan))
  unfolding publish
  find_by_index k es u = elim (Option-cases (find k es)) [
    | inl absent ↦
        inl (lookup-index_from k es 0 [] ∙ last_position-fresh k es 0 none absent, absent)
    | inr (p, found) ↦
        let (j, q, r) = last_position-find k es 0 none p u found in
        inr (j, lookup-index_from k es 0 [] ∙ q ∙ ap some (omega arith), found ∙ ap some (sym r))
  ]

  pub IsFresh-append :
      (k : Bytes) (q : List (CacheEntry P)) (e : CacheEntry P)
      → IsFresh k q
      → same e.key k ≡ false
      → IsFresh k (q ++ e ∷ [])
  IsFresh-append k [] e h n = rw n
  IsFresh-append k (f ∷ q) e h n = ground (arith, IsFresh-append k q e)

  -- A key that is not in the queue differs from the first key and is not in the rest.
  IsFresh-cons :
      (k : Bytes) (f : CacheEntry P) (q : List (CacheEntry P))
      → IsFresh k (f ∷ q)
      → (same k f.key ≡ false) × IsFresh k q
  IsFresh-cons k f q h = (ground (arith, bytes_eq_iff k f.key, bytes_eq_iff f.key k), ground arith)

  HasDistinctKeys-append :
      (q : List (CacheEntry P)) (e : CacheEntry P)
      → HasDistinctKeys q
      → IsFresh e.key q
      → HasDistinctKeys (q ++ e ∷ [])
  HasDistinctKeys-append [] e u h = (refl, tt)
  HasDistinctKeys-append (f ∷ q) e u h =
      let (n, h') = IsFresh-cons e.key f q h in
      (IsFresh-append f.key q e u.0 n, HasDistinctKeys-append q e u.1 h')

  pub IsFresh-tail : (k : Bytes) (q : List (CacheEntry P)) → IsFresh k q → IsFresh k (tail_of q)
  IsFresh-tail k [] h = refl
  IsFresh-tail k (f ∷ q) h = (IsFresh-cons k f q h).1

  HasDistinctKeys-tail : (q : List (CacheEntry P)) → HasDistinctKeys q → HasDistinctKeys (tail_of q)
  HasDistinctKeys-tail [] u = tt
  HasDistinctKeys-tail (f ∷ q) u = u.1

  pub new_bounded_cache-IsValid :
      (capacity : Capacity) → IsValid (new_bounded_cache {P = P} capacity)
  unfolding new_bounded_cache rebuild publish index_from
  new_bounded_cache-IsValid (positive n) = record {
    storage = length-replicate (suc n) no_entry;
    head_in = omega arith;
    count_in = omega arith;
    published = refl;
    distinct = tt;
  }
  new_bounded_cache-IsValid zero_or_less = record {
    storage = refl;
    head_in = omega arith;
    count_in = omega arith;
    published = refl;
    distinct = tt;
  }

  length-map :
      (es : List (CacheEntry P)) (f : CacheEntry P → CacheEntry P) → length (map f es) ≡ length es
  length-map [] f = refl
  length-map (e ∷ es) f = ap suc (length-map es f)

  pub invalidate-IsValid : {c : BoundedCache P} → IsValid c → IsValid (invalidate c)
  unfolding invalidate rebuild publish index_from
  invalidate-IsValid {c} v = record {
    storage = length-map c.entries _ ∙ v.storage;
    head_in = omega arith;
    count_in = omega arith;
    published = refl;
    distinct = tt;
  }

  -- `Set` puts a new key behind the others, and drops the oldest entry when the ring is full.
  module _ {c : BoundedCache P} (k : Bytes) (p : Option P) (v : IsValid c) where
    abbrev added : CacheEntry P
    added = record { key = k; plan = p }

    append_room : c.count < c.capacity → contents (append_entry k p c).0 ≡ contents c ++ added ∷ []
    unfolding append_entry
    append_room h = elim (Bool-cases (ltb c.count c.capacity)) [
      | inl t ↦
          let e : c.count + 1 ≡ suc c.count = omega arith in
          rw (t, e)
            (write_room c.entries c.capacity c.head added v.storage v.head_in c.count 0 c.count h
              (omega arith))
      | inr f ↦ absurd (ground arith)
    ]

    append_full :
        c.count ≡ c.capacity → contents (append_entry k p c).0 ≡ tail_of (contents c) ++ added ∷ []
    unfolding append_entry
    append_full h = elim (Bool-cases (ltb c.count c.capacity)) [
      | inl t ↦ absurd (ground arith)
      | inr f ↦
          rw f (replace_oldest c.entries c.capacity c.head added v.storage v.head_in c.count h)
    ]

    evicted_full : (append_entry k p c).1 ≡ leb c.capacity c.count
    unfolding append_entry
    evicted_full = refl

    -- The entries and the result of `Set` on a key that the cache does not hold, as the queue's.
    pub append_entry-add :
        let (c', evicted) = append_entry k p c in
        (contents c', evicted) ≡ add c.capacity added (contents c)
    append_entry-add =
        let n = length-rebuild c.entries c.capacity c.head c.count 0 c.count in
        elim (Bool-cases (leb c.capacity c.count)) [
          | inl full ↦
              rw (n, full)
                (λ i. (append_full (ground (arith, v.count_in)) i, (evicted_full ∙ full) i))
          | inr room ↦
              rw (n, room)
                (λ i. (append_room (ground (arith, v.count_in)) i, (evicted_full ∙ room) i))
        ]

    add-distinct :
        (q : List (CacheEntry P))
        → HasDistinctKeys q
        → IsFresh k q
        → HasDistinctKeys (add c.capacity added q).0
    add-distinct q u h = elim (Bool-cases (leb c.capacity (length q))) [
      | inl full ↦
          rw full (
            HasDistinctKeys-append (tail_of q) added (HasDistinctKeys-tail q u)
              (IsFresh-tail k q h))
      | inr room ↦ rw room (HasDistinctKeys-append q added u h)
    ]

    append_entry-distinct :
        IsFresh k (contents c) → HasDistinctKeys (contents (append_entry k p c).0)
    append_entry-distinct h =
        subst HasDistinctKeys (sym (ap (λ (r : List (CacheEntry P) × Bool). r.0) append_entry-add))
          (add-distinct (contents c) v.distinct h)

    pub append_entry-IsValid : IsFresh k (contents c) → IsValid (append_entry k p c).0
    unfolding append_entry
    append_entry-IsValid h = record {
      storage = length-set c.entries c.head added ∙ v.storage;
      head_in = mod-lt (c.head + 1) (omega arith);
      count_in = ground arith;
      published = refl;
      distinct = append_entry-distinct h;
    }
