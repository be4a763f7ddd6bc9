-- ===== src/OrderedMap/Tests.antt =====
-- Runs of an ordered map, and the refinement at a sequence of calls.
use gnata.Base.{◌≡◌, refl, ℕ, Bytes, List, [], ◌∷◌, some, none, true}
use gnata.OrderedMap.{
  new_ordered_map, range, get, cached_normalized_view, set, delete, delete_key, thaw, freeze,
  cache_normalized_view,
}
use gnata.OrderedMap.Refine.{
  Op, put, drop_key, freeze_map, cache_view, Spec, run_map, Models, run_map-observed,
}

abbrev key_a : Bytes
key_a = b'a' ∷ []

abbrev key_b : Bytes
key_b = b'b' ∷ []

-- b keeps its place, a is deleted and comes back behind it; the last write ends the caching
abbrev object_ops : List (Op ℕ ℕ)
object_ops =
    put key_a 1
    ∷ put key_b 2
    ∷ freeze_map
    ∷ cache_view 7
    ∷ drop_key key_a
    ∷ put key_b 3
    ∷ freeze_map
    ∷ put key_a 4
    ∷ []

object_range : range (run_map object_ops new_ordered_map) ≡ (key_b, some 3) ∷ (key_a, some 4) ∷ []
unfolding range set delete delete_key thaw freeze cache_normalized_view
object_range = refl

object_cached :
    cached_normalized_view
      (run_map (put key_a 1 ∷ freeze_map ∷ cache_view 7 ∷ []) (new_ordered_map {V = ℕ} {W = ℕ}))
    ≡ (some 7, true)
unfolding cached_normalized_view set thaw freeze cache_normalized_view
object_cached = refl

abbrev empty_spec : Spec ℕ ℕ
empty_spec = record { entries = []; cache = none }

new-Models : Models new_ordered_map empty_spec
new-Models = (refl, λ k. refl, tt, (refl, refl))

run_map-observed_example : get key_b (run_map object_ops new_ordered_map) ≡ some 3
run_map-observed_example =
    (run_map-observed object_ops new_ordered_map empty_spec key_b new-Models).0
