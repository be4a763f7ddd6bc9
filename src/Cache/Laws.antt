-- ===== src/Cache/Laws.antt =====
-- What a caller of `BoundedCache` relies on: stored plans and the statistics.
use gnata.Base.{
  ℕ, ◌+◌, ◌%◌, ◌^◌, ◌≡◌, refl, sym, ap, ◌∙◌, Bool, true, false, List, [], ◌∷◌, ◌++◌, Option, none,
  some, Bytes, arith, length, lookup, bytes_keys, bytes_eq_refl, inl, inr, leb, tail_of,
  Option-cases, Bool-cases,
}
use mathlib.Core.Option
use gnata.Cache.{
  CacheEntry, BoundedCache, get, get_at, append_entry, set_plan, set_if_absent, invalidate, stats,
}
use gnata.Cache.Fifo.{find, put, IsFresh}
use gnata.Cache.Invariant.{contents, IsValid, IsFresh-tail}
use gnata.Cache.Refine.{
  Call, read, write, clear, Reply, found, stored, cleared, run, get-find, set_plan-Puts,
}

module _ {P : Type 0} where
  find-append :
      (k : Bytes) (p : Option P) (q : List (CacheEntry P))
      → IsFresh k q
      → find k (q ++ record { key = k; plan = p } ∷ []) ≡ some p
  find-append k p [] h = rw (bytes_eq_refl k)
  find-append k p (e ∷ q) h = ground (arith, find-append k p q)

  find-put :
      (n : ℕ) (k : Bytes) (p : Option P) (q : List (CacheEntry P))
      → find k (put n k p q).0 ≡ some (Option.get_or (find k q) p)
  find-put n k p q = elim (Option-cases (find k q)) [
    | inl unfound ↦ rw unfound (elim (Bool-cases (leb n (length q))) [
      | inl full ↦ rw full (find-append k p (tail_of q) (IsFresh-tail k q unfound))
      | inr room ↦ rw room (find-append k p q unfound)
    ])
    | inr (r, is_found) ↦ rw (is_found) is_found
  ]

  -- After `Set` with a key, `Get` of that key finds a plan: the one that the cache already held
  -- for it, which `Set` does not update, or else the one just given, also when the cache was full.
  pub get-set_plan :
      {c : BoundedCache P} (k : Bytes) (p : Option P)
      → IsValid c
      → (get k (set_plan k p c).0).0 ≡ some (Option.get_or (get k c).0 p)
  get-set_plan {c} k p v =
      let t = set_plan-Puts v k p in
      get-find t.valid k
      ∙ ap (λ (q : List (CacheEntry P) × Bool). find k q.0) t.same_put
      ∙ find-put c.capacity k p (contents c)
      ∙ ap (λ o. some (Option.get_or o p)) (sym (get-find v k))

  abbrev pub reads : List (Call P) → ℕ
  reads [] = 0
  reads (read k ∷ calls) = 1 + reads calls
  reads (write k p ∷ calls) = reads calls
  reads (clear ∷ calls) = reads calls

  abbrev pub evicted : List (Reply P) → ℕ
  evicted [] = 0
  evicted (stored true ∷ rs) = 1 + evicted rs
  evicted (stored false ∷ rs) = evicted rs
  evicted (found r ∷ rs) = evicted rs
  evicted (cleared ∷ rs) = evicted rs

  get_at-count :
      (o : Option ℕ) (c : BoundedCache P) (n : ℕ)
      → let d = (get_at o c).1 in
        ((d.hits + d.misses + n) % 2 ^ 64 ≡ (c.hits + c.misses + (1 + n)) % 2 ^ 64)
        × (d.evictions ≡ c.evictions)
  unfolding get_at
  get_at-count none c n = (omega arith, refl)
  get_at-count (some i) c n = (omega arith, refl)

  set_if_absent-count :
      (o : Option ℕ) (k : Bytes) (p : Option P) (c : BoundedCache P) (rs : List (Reply P))
      → let (d, e) = set_if_absent o k p c in
        (d.hits + d.misses ≡ c.hits + c.misses)
        × ((d.evictions + evicted rs) % 2 ^ 64 ≡ (c.evictions + evicted (stored e ∷ rs)) % 2 ^ 64)
  unfolding append_entry
  set_if_absent-count (some i) k p c rs = (refl, refl)
  set_if_absent-count none k p c rs = ground arith

  get-count :
      (k : Bytes) (c : BoundedCache P) (n : ℕ)
      → let d = (get k c).1 in
        ((d.hits + d.misses + n) % 2 ^ 64 ≡ (c.hits + c.misses + (1 + n)) % 2 ^ 64)
        × (d.evictions ≡ c.evictions)
  unfolding get
  get-count k c n = get_at-count (lookup k c.snapshot.index) c n

  set_plan-count :
      (k : Bytes) (p : Option P) (c : BoundedCache P) (rs : List (Reply P))
      → let (d, e) = set_plan k p c in
        (d.hits + d.misses ≡ c.hits + c.misses)
        × ((d.evictions + evicted rs) % 2 ^ 64 ≡ (c.evictions + evicted (stored e ∷ rs)) % 2 ^ 64)
  unfolding set_plan
  set_plan-count k p c rs = set_if_absent-count (lookup k c.snapshot.index) k p c rs

  invalidate-count :
      (c : BoundedCache P)
      → let d = invalidate c in
        (d.hits + d.misses ≡ c.hits + c.misses) × (d.evictions ≡ c.evictions)
  unfolding invalidate
  invalidate-count c = (refl, refl)

  -- Over any sequence of calls, hits and misses together grow by the number of `Get` calls and
  -- evictions by the number of `Set` calls that report one, as 64-bit counters.
  pub stats-run :
      (calls : List (Call P)) (c : BoundedCache P)
      → let (rs, d) = run calls c in
        (((stats d).hits + (stats d).misses) % 2 ^ 64
          ≡ ((stats c).hits + (stats c).misses + reads calls) % 2 ^ 64)
        × ((stats d).evictions % 2 ^ 64 ≡ ((stats c).evictions + evicted rs) % 2 ^ 64)
  unfolding run stats
  stats-run [] c = (omega arith, omega arith)
  stats-run (read k ∷ calls) c =
      let (a, b) = stats-run calls (get k c).1 in
      let (a', b') = get-count k c (reads calls) in
      (a ∙ a', b ∙ ap (λ (n : ℕ). (n + evicted (run calls (get k c).1).0) % 2 ^ 64) b')
  stats-run (write k p ∷ calls) c =
      let d = (set_plan k p c).0 in
      let (a, b) = stats-run calls d in
      let (a', b') = set_plan-count k p c (run calls d).0 in
      (a ∙ ap (λ (n : ℕ). (n + reads calls) % 2 ^ 64) a', b ∙ b')
  stats-run (clear ∷ calls) c =
      let (a, b) = stats-run calls (invalidate c) in
      let (a', b') = invalidate-count c in
      (
        a ∙ ap (λ (n : ℕ). (n + reads calls) % 2 ^ 64) a',
        b ∙ ap (λ (n : ℕ). (n + evicted (run calls (invalidate c)).0) % 2 ^ 64) b',
      )
