-- ===== src/Cache/Tests.antt =====
-- Runs of the cache at concrete calls, and the theorems at inputs that meet their hypotheses.
use gnata.Base.{ℕ, ◌≡◌, refl, ◌+◌, ◌%◌, ◌^◌, List, [], ◌∷◌, none, some, codes, true, false}
use mathlib.Core.Option
use gnata.Cache.{
  BoundedCache, positive, new_bounded_cache, get, append_entry, set_plan, rebuild, publish,
  invalidate, stats,
}
use gnata.Cache.Invariant.{IsValid, contents, new_bounded_cache-IsValid}
use gnata.Cache.Refine.{
  Call, read, write, clear, found, stored, cleared, run, run_queue, run_refines,
}
use gnata.Cache.Laws.{get-set_plan, reads, evicted, stats-run}

abbrev two_slots : BoundedCache ℕ
two_slots = new_bounded_cache (positive 1)

abbrev calls : List (Call ℕ)
calls =
    write (codes "a") (some 1)
    ∷ write (codes "b") (some 2)
    ∷ write (codes "a") (some 9)
    ∷ write (codes "c") (some 3)
    ∷ read (codes "a")
    ∷ read (codes "b")
    ∷ read (codes "c")
    ∷ clear
    ∷ read (codes "c")
    ∷ []

run-calls :
    (run calls two_slots).0
    ≡ stored false
      ∷ stored false
      ∷ stored false
      ∷ stored true
      ∷ found none
      ∷ found (some (some 2))
      ∷ found (some (some 3))
      ∷ cleared
      ∷ found none
      ∷ []
unfolding run get set_plan append_entry rebuild publish invalidate new_bounded_cache
run-calls = refl

run_refines_example :
    let (replies, d) = run calls two_slots in
    IsValid d × ((replies, contents d) ≡ run_queue two_slots.capacity calls (contents two_slots))
run_refines_example = run_refines calls (new_bounded_cache-IsValid (positive 1))

get-set_plan_example :
    (get (codes "k") (set_plan (codes "k") (some 4) two_slots).0).0
    ≡ some (Option.get_or (get (codes "k") two_slots).0 (some 4))
get-set_plan_example = get-set_plan (codes "k") (some 4) (new_bounded_cache-IsValid (positive 1))

stats-run_example :
    let (rs, d) = run calls two_slots in
    (((stats d).hits + (stats d).misses) % 2 ^ 64
      ≡ ((stats two_slots).hits + (stats two_slots).misses + reads calls) % 2 ^ 64)
    × ((stats d).evictions % 2 ^ 64 ≡ ((stats two_slots).evictions + evicted rs) % 2 ^ 64)
stats-run_example = stats-run calls two_slots
