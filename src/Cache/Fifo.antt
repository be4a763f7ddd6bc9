-- ===== src/Cache/Fifo.antt =====
-- What `BoundedCache` promises: a bounded queue of plans, oldest first, that drops its oldest entry
-- for a new key when it is full and never replaces the plan of a key that it holds.
use gnata.Base.{
  ℕ, Bool, true, false, List, [], ◌∷◌, ◌++◌, ◌≡◌, Option, none, some, Bytes, leb, if◌then◌else◌,
  same, tail_of, length, bytes_keys,
}
use gnata.Cache.{CacheEntry}

module _ {P : Type 0} where
  abbrev pub find : Bytes → List (CacheEntry P) → Option (Option P)
  find k [] = none
  find k (e ∷ q) = if same e.key k then some e.plan else find k q

  abbrev pub add : ℕ → CacheEntry P → List (CacheEntry P) → List (CacheEntry P) × Bool
  add capacity e q =
      if leb capacity (length q) then (tail_of q ++ e ∷ [], true) else (q ++ e ∷ [], false)

  abbrev pub put_found :
      Option (Option P) → ℕ → CacheEntry P → List (CacheEntry P) → List (CacheEntry P) × Bool
  put_found (some _) capacity e q = (q, false)
  put_found none capacity e q = add capacity e q

  abbrev pub put : ℕ → Bytes → Option P → List (CacheEntry P) → List (CacheEntry P) × Bool
  put capacity k p q = put_found (find k q) capacity (record { key = k; plan = p }) q

  -- No two entries have one key.
  abbrev pub IsFresh : Bytes → List (CacheEntry P) → Type 0
  IsFresh k q = find k q ≡ none

  abbrev pub HasDistinctKeys : List (CacheEntry P) → Type 0
  HasDistinctKeys [] = Unit
  HasDistinctKeys (e ∷ q) = IsFresh e.key q × HasDistinctKeys q
