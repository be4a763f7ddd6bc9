-- ===== src/Cache.antt =====
-- bounded_cache.go: `BoundedCache`, the ring buffer of evaluation plans behind `StreamEvaluator`.
-- A key is a Go string; a plan is only stored and returned, so its type is a parameter, and
-- `none` is the nil plan of an empty slot. Each operation is one step of the shared state: the
-- writers hold the mutex, and a reader loads the snapshot once. The counters are the bit patterns
-- of `atomic.Int64`.
pub mod Fifo
pub mod Ring
pub mod Invariant
pub mod Refine
pub mod Laws
mod Tests
use gnata.Base.{
  ℕ, zero, suc, ◌+◌, ◌-◌, ◌%◌, ◌^◌, Bool, true, false, List, [], ◌∷◌, Option, none, some, Bytes,
  ltb, leb, if◌then◌else◌, get_or, set, replicate, map, lookup, insert, bytes_keys, length,
}

-- `cacheEntry`
pub record CacheEntry (P : Type 0) : Type 0 where
  pub key : Bytes
  pub plan : Option P

-- `cacheSnapshot`
pub record CacheSnapshot (P : Type 0) : Type 0 where
  pub entries : List (CacheEntry P)
  pub index : List (Bytes × ℕ)

pub record BoundedCache (P : Type 0) : Type 0 where
  pub capacity : ℕ
  pub entries : List (CacheEntry P)
  pub head : ℕ
  pub count : ℕ
  pub snapshot : CacheSnapshot P
  pub hits : ℕ
  pub misses : ℕ
  pub evictions : ℕ

-- `StreamStats`
pub record StreamStats : Type 0 where
  pub hits : ℕ
  pub misses : ℕ
  pub entries : ℕ
  pub evictions : ℕ

-- `Add(1)` on an `atomic.Int64`
abbrev pub count_one : ℕ → ℕ
count_one n = (n + 1) % 2 ^ 64

-- The sign of the argument of `NewBoundedCache`: `positive n` is n + 1.
pub data Capacity : Type 0 where
  positive : ℕ → Capacity
  zero_or_less : Capacity

abbrev pub clamp_capacity : Capacity → ℕ
clamp_capacity (positive n) = suc n
clamp_capacity zero_or_less = 1

module _ {P : Type 0} where
  -- `cacheEntry{}`
  abbrev pub no_entry : CacheEntry P
  no_entry = record { key = []; plan = none }

  abbrev pub empty_snapshot : CacheSnapshot P
  empty_snapshot = record { entries = []; index = [] }

  pub new_bounded_cache : Capacity → BoundedCache P
  new_bounded_cache capacity = record {
    capacity = clamp_capacity capacity;
    entries = replicate (clamp_capacity capacity) no_entry;
    head = 0;
    count = 0;
    snapshot = empty_snapshot;
    hits = 0;
    misses = 0;
    evictions = 0;
  }

  -- `Get` and `getBytes`, on the index that the map gives for the key
  pub get_at : Option ℕ → BoundedCache P → Option (Option P) × BoundedCache P
  get_at (some i) c =
      (some (get_or c.snapshot.entries i no_entry).plan, record c { hits = count_one c.hits })
  get_at none c = (none, record c { misses = count_one c.misses })

  pub get : Bytes → BoundedCache P → Option (Option P) × BoundedCache P
  unfolding get_at
  get key c = get_at (lookup key c.snapshot.index) c

  -- `newEntries[i]` for the `n` values of `i` from `i` on: the ring read from its oldest entry.
  -- `head - count + i + capacity` is never below 0, as `count <= capacity`.
  pub rebuild : List (CacheEntry P) → ℕ → ℕ → ℕ → ℕ → ℕ → List (CacheEntry P)
  rebuild entries capacity head count i zero = []
  rebuild entries capacity head count i (suc n) =
      get_or entries ((head + capacity + i - count) % capacity) no_entry
      ∷ rebuild entries capacity head count (suc i) n

  -- `newIndex[newEntries[i].key] = i`
  pub index_from : ℕ → List (CacheEntry P) → List (Bytes × ℕ) → List (Bytes × ℕ)
  index_from i [] index = index
  index_from i (e ∷ es) index = index_from (suc i) es (insert e.key i index)

  -- the loop that builds the new snapshot
  pub publish : List (CacheEntry P) → CacheSnapshot P
  unfolding index_from
  publish entries = record { entries = entries; index = index_from 0 entries [] }

  -- the body of `Set` for a key that is not there
  pub append_entry : Bytes → Option P → BoundedCache P → BoundedCache P × Bool
  append_entry key plan c =
      let evicted = leb c.capacity c.count in
      let entries = set c.entries c.head (record { key = key; plan = plan }) in
      let head = (c.head + 1) % c.capacity in
      let count = if ltb c.count c.capacity then c.count + 1 else c.count in
      (
        record c {
          entries = entries;
          head = head;
          count = count;
          snapshot = publish (rebuild entries c.capacity head count 0 count);
          evictions = if evicted then count_one c.evictions else c.evictions;
        },
        evicted,
      )

  abbrev pub set_if_absent : Option ℕ → Bytes → Option P → BoundedCache P → BoundedCache P × Bool
  set_if_absent (some _) key plan c = (c, false)
  set_if_absent none key plan c = append_entry key plan c

  -- `Set`. A key that is held keeps its plan.
  pub set_plan : Bytes → Option P → BoundedCache P → BoundedCache P × Bool
  set_plan key plan c = set_if_absent (lookup key c.snapshot.index) key plan c

  -- `Invalidate`
  pub invalidate : BoundedCache P → BoundedCache P
  invalidate c = record c {
    entries = map (λ _. no_entry) c.entries;
    count = 0;
    head = 0;
    snapshot = empty_snapshot;
  }

  -- `Stats`
  pub stats : BoundedCache P → StreamStats
  stats c = record { hits = c.hits; misses = c.misses; entries = c.count; evictions = c.evictions }
