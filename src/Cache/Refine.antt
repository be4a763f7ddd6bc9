-- ===== src/Cache/Refine.antt =====
-- `BoundedCache` against the bounded queue of its entries, call by call.
use gnata.Base.{
  ℕ, ◌≡◌, refl, ap, ap₂, ◌∙◌, Bool, List, [], ◌∷◌, Option, none, some, Bytes, lookup, bytes_keys,
  inl, inr, get_or,
}
use gnata.Cache.{
  CacheEntry, CacheSnapshot, BoundedCache, no_entry, rebuild, publish, get, get_at, append_entry,
  set_plan, invalidate,
}
use gnata.Cache.Fifo.{find, put}
use gnata.Cache.Invariant.{
  contents, IsValid, find_by_index, append_entry-add, append_entry-IsValid, invalidate-IsValid,
}

-- A caller's calls, and what it sees of each.
pub data Call (P : Type 0) : Type 0 where
  read : Bytes → Call P
  write : Bytes → Option P → Call P
  clear : Call P

pub data Reply (P : Type 0) : Type 0 where
  found : Option (Option P) → Reply P
  stored : Bool → Reply P
  cleared : Reply P

module _ {P : Type 0} where
  unfoldable pub run : List (Call P) → BoundedCache P → List (Reply P) × BoundedCache P
  run [] c = ([], c)
  run (read k ∷ calls) c = let (r, c') = get k c in let (rs, d) = run calls c' in (found r ∷ rs, d)
  run (write k p ∷ calls) c =
      let (c', e) = set_plan k p c in let (rs, d) = run calls c' in (stored e ∷ rs, d)
  run (clear ∷ calls) c = let (rs, d) = run calls (invalidate c) in (cleared ∷ rs, d)

  pub run_queue : ℕ → List (Call P) → List (CacheEntry P) → List (Reply P) × List (CacheEntry P)
  run_queue n [] q = ([], q)
  run_queue n (read k ∷ calls) q = let (rs, q') = run_queue n calls q in (found (find k q) ∷ rs, q')
  run_queue n (write k p ∷ calls) q =
      let (q', e) = put n k p q in let (rs, q'') = run_queue n calls q' in (stored e ∷ rs, q'')
  run_queue n (clear ∷ calls) q = let (rs, q') = run_queue n calls [] in (cleared ∷ rs, q')

  record Keeps (c c' : BoundedCache P) : Type 0 where
    valid : IsValid c'
    same_entries : contents c' ≡ contents c
    same_capacity : c'.capacity ≡ c.capacity

  get_at-Keeps : (o : Option ℕ) {c : BoundedCache P} → IsValid c → Keeps c (get_at o c).1
  unfolding get_at
  get_at-Keeps none v = record {
    valid = record {
      storage = v.storage;
      head_in = v.head_in;
      count_in = v.count_in;
      published = v.published;
      distinct = v.distinct;
    };
    same_entries = refl;
    same_capacity = refl;
  }
  get_at-Keeps (some i) v = record {
    valid = record {
      storage = v.storage;
      head_in = v.head_in;
      count_in = v.count_in;
      published = v.published;
      distinct = v.distinct;
    };
    same_entries = refl;
    same_capacity = refl;
  }

  module _ {c : BoundedCache P} (v : IsValid c) where
    get-Keeps : (k : Bytes) → Keeps c (get k c).1
    unfolding get
    get-Keeps k = get_at-Keeps (lookup k c.snapshot.index) v

    index_of : (k : Bytes) → lookup k c.snapshot.index ≡ lookup k (publish (contents c)).index
    index_of k = ap (λ (s : CacheSnapshot P). lookup k s.index) v.published

    entries_of : c.snapshot.entries ≡ contents c
    unfolding publish
    entries_of = ap (λ (s : CacheSnapshot P). s.entries) v.published

    -- `Get` returns the plan that the queue holds for the key.
    pub get-find : (k : Bytes) → (get k c).0 ≡ find k (contents c)
    unfolding get get_at
    get-find k = elim (find_by_index k (contents c) v.distinct) [
      | inl (absent, unfound) ↦ rw (index_of k ∙ absent, unfound)
      | inr (i, present, is_found) ↦
          rw (index_of k ∙ present, is_found)
            (ap (λ (es : List (CacheEntry P)). some (get_or es i no_entry).plan) entries_of)
    ]

    -- `Set` does what the queue's `put` does.
    pub record Puts (k : Bytes) (p : Option P) (out : BoundedCache P × Bool) : Type 0 where
      pub valid : IsValid out.0
      pub same_put : (contents out.0, out.1) ≡ put c.capacity k p (contents c)
      pub same_capacity : out.0.capacity ≡ c.capacity

    pub set_plan-Puts : (k : Bytes) (p : Option P) → Puts k p (set_plan k p c)
    unfolding set_plan
    set_plan-Puts k p = elim (find_by_index k (contents c) v.distinct) [
      | inl (absent, unfound) ↦ rw (index_of k ∙ absent) (record {
        valid = append_entry-IsValid k p v unfound;
        same_put = rw unfound (append_entry-add k p v);
        same_capacity = unfold append_entry in refl;
      })
      | inr (i, present, is_found) ↦
          rw (index_of k ∙ present)
            (record { valid = v; same_put = rw is_found; same_capacity = refl })
    ]

  contents-invalidate : (c : BoundedCache P) → contents (invalidate c) ≡ []
  unfolding invalidate rebuild
  contents-invalidate c = refl

  capacity-invalidate : (c : BoundedCache P) → (invalidate c).capacity ≡ c.capacity
  unfolding invalidate
  capacity-invalidate c = refl

  -- Every sequence of `Get`, `Set` and `Invalidate` calls on a valid cache gets the replies of a
  -- bounded first-in-first-out queue that starts with the cache's entries, and leaves a valid
  -- cache whose entries, oldest first, are those of the queue. `Set` of a key that is held changes
  -- nothing, in the cache as in the queue.
  pub run_refines :
      (calls : List (Call P)) {c : BoundedCache P}
      → IsValid c
      → let (replies, d) = run calls c in
        IsValid d × ((replies, contents d) ≡ run_queue c.capacity calls (contents c))
  unfolding run run_queue
  run_refines [] v = (v, refl)
  run_refines (read k ∷ calls) {c} v =
      let g = get-Keeps v k in
      let (w, e) = run_refines calls g.valid in
      let e' = e ∙ ap₂ (λ n q. run_queue n calls q) g.same_capacity g.same_entries in
      (w, λ i. (found (get-find v k i) ∷ (e' i).0, (e' i).1))
  run_refines (write k p ∷ calls) {c} v =
      let t = set_plan-Puts v k p in
      let (w, e) = run_refines calls t.valid in
      let e' = e ∙ ap₂ (λ n q. run_queue n calls q) t.same_capacity (λ i. (t.same_put i).0) in
      (w, λ i. (stored (t.same_put i).1 ∷ (e' i).0, (e' i).1))
  run_refines (clear ∷ calls) {c} v =
      let (w, e) = run_refines calls (invalidate-IsValid v) in
      let e' =
        e ∙ ap₂ (λ n q. run_queue n calls q) (capacity-invalidate c) (contents-invalidate c) in
      (w, λ i. (cleared ∷ (e' i).0, (e' i).1))
