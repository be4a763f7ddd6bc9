-- ===== src/OrderedMap.antt =====
-- internal/evaluator/ordered_map.go: `OrderedMap`, an object that keeps its keys in the order in
-- which they were set. `entries_map` is `data`. Its Go map is an association list; a value and a normalized view are opaque.
pub mod Entries
pub mod Refine
mod Tests
use gnata.Base.{
  is_some, ℕ, Bool, true, false, not, List, [], ◌∷◌, ◌++◌, Option, none, some, Bytes, if◌then◌else◌,
  length, map, same, lookup, insert, remove, bytes_keys,
}

pub record OrderedMap (V W : Type 0) : Type 0 where
  pub keys : List Bytes
  pub entries_map : List (Bytes × V)
  pub frozen : Bool
  pub norm : Option W

-- `slices.DeleteFunc` of one key
pub delete_key : Bytes → List Bytes → List Bytes
delete_key key [] = []
delete_key key (k ∷ keys) = if same k key then delete_key key keys else k ∷ delete_key key keys

module _ {V W : Type 0} where
  -- `NewOrderedMap`
  abbrev pub new_ordered_map : OrderedMap V W
  new_ordered_map = record { keys = []; entries_map = []; frozen = false; norm = none }

  -- A write ends the sharing of a frozen map: the first lines of `Set` and of `Delete`.
  pub thaw : OrderedMap V W → OrderedMap V W
  thaw m = if m.frozen then record m { frozen = false; norm = none } else m

  -- `Set`
  pub set : Bytes → V → OrderedMap V W → OrderedMap V W
  set key val m = record (thaw m) {
    keys = (if is_some (lookup key m.entries_map) then m.keys else m.keys ++ key ∷ []);
    entries_map = insert key val m.entries_map;
  }

  -- `Get`
  pub get : Bytes → OrderedMap V W → Option V
  get key m = lookup key m.entries_map

  -- `Has`
  pub has : Bytes → OrderedMap V W → Bool
  has key m = is_some (lookup key m.entries_map)

  -- `Delete`
  pub delete : Bytes → OrderedMap V W → OrderedMap V W
  delete key m =
      if is_some (lookup key m.entries_map)
      then record (thaw m) { keys = delete_key key m.keys; entries_map = remove key m.entries_map }
      else thaw m

  -- `cachedNormalizedView`
  pub cached_normalized_view : OrderedMap V W → Option W × Bool
  cached_normalized_view m = if m.frozen then (m.norm, true) else (none, false)

  -- `cacheNormalizedView`
  pub cache_normalized_view : W → OrderedMap V W → OrderedMap V W
  cache_normalized_view view m = if m.frozen then record m { norm = some view } else m

  -- `freeze`
  pub freeze : OrderedMap V W → OrderedMap V W
  freeze m = record m { frozen = true }

  -- `Len`
  pub len : OrderedMap V W → ℕ
  len m = length m.keys

  -- The calls of `Range`'s function, as long as it returns true.
  pub range : OrderedMap V W → List (Bytes × Option V)
  range m = map (λ k. (k, lookup k m.entries_map)) m.keys
