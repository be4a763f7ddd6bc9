-- ===== src/OrderedMap/Refine.antt =====
-- An ordered map against a list of entries with distinct keys, and the cache of its normalized view.
use gnata.Base.{
  is_some, ◌≡◌, refl, sym, ap, ◌∙◌, inl, inr, Bool, true, false, List, [], ◌∷◌, Option, none, some,
  Bytes, if◌then◌else◌, length, map, lookup, insert, remove, lookup-insert, lookup-remove,
  bytes_keys, Bool-cases, Option-cases,
}
use gnata.OrderedMap.{
  OrderedMap, delete_key, thaw, set, get, has, delete, cached_normalized_view,
  cache_normalized_view, freeze, len, range,
}
use gnata.OrderedMap.Entries.{
  keys_of, all_entries, lookup-keys, AreDistinct, keys-insert, keys-remove, AreDistinct-insert,
  AreDistinct-remove, remove-absent,
}

-- The entries in order, and the cache: `none` where nothing is cached for the map.
pub record Spec (V W : Type 0) : Type 0 where
  pub entries : List (Bytes × V)
  pub cache : Option (Option W)

pub data Op (V W : Type 0) : Type 0 where
  put : Bytes → V → Op V W
  drop_key : Bytes → Op V W
  freeze_map : Op V W
  cache_view : W → Op V W

module _ {W : Type 0} where
  -- What is cached, if the map may cache.
  abbrev pub cached : Option (Option W) → Option W
  cached none = none
  cached (some c) = c

  abbrev pub replace : W → Option (Option W) → Option (Option W)
  replace w none = none
  replace w (some c) = some (some w)

  -- The cache of a map: its flag, and what is stored.
  abbrev pub CacheIs : Bool → Option W → Option (Option W) → Type 0
  CacheIs f n none = (f ≡ false) × (n ≡ none)
  CacheIs f n (some c) = (f ≡ true) × (n ≡ c)

  CacheIs-freeze :
      (f : Bool) (n : Option W) (c : Option (Option W))
      → CacheIs f n c
      → CacheIs true n (some (cached c))
  CacheIs-freeze f n none (_, h) = (refl, h)
  CacheIs-freeze f n (some c) (_, h) = (refl, h)

  CacheIs-replace :
      (w : W) (f : Bool) (n : Option W) (c : Option (Option W))
      → f ≡ true
      → CacheIs f n c
      → CacheIs true (some w) (replace w c)
  CacheIs-replace w f n none e (g, _) = absurd (cc)
  CacheIs-replace w f n (some c) e h = (refl, refl)

  CacheIs-none :
      (w : W) (f : Bool) (n : Option W) (c : Option (Option W))
      → f ≡ false
      → CacheIs f n c
      → CacheIs false n (replace w c)
  CacheIs-none w f n none e (_, h) = (refl, h)
  CacheIs-none w f n (some c) e (g, _) = absurd (cc)

  abbrev pub view_of : Option (Option W) → Option W × Bool
  view_of none = (none, false)
  view_of (some c) = (c, true)

  cached-view :
      (f : Bool) (n : Option W) (c : Option (Option W))
      → CacheIs f n c
      → (if f then (n, true) else (none, false)) ≡ view_of c
  cached-view f n none (e, h) = rw e refl
  cached-view f n (some c) (e, h) = rw (e, h) refl

module _ {V W : Type 0} where
  abbrev pub step_spec : Op V W → Spec V W → Spec V W
  step_spec (put k v) s = record { entries = insert k v s.entries; cache = none }
  step_spec (drop_key k) s = record { entries = remove k s.entries; cache = none }
  step_spec freeze_map s = record s { cache = some (cached s.cache) }
  step_spec (cache_view w) s = record s { cache = replace w s.cache }

  abbrev pub step_map : Op V W → OrderedMap V W → OrderedMap V W
  step_map (put k v) m = set k v m
  step_map (drop_key k) m = delete k m
  step_map freeze_map m = freeze m
  step_map (cache_view w) m = cache_normalized_view w m

  abbrev pub run_spec : List (Op V W) → Spec V W → Spec V W
  run_spec [] s = s
  run_spec (o ∷ os) s = run_spec os (step_spec o s)

  abbrev pub run_map : List (Op V W) → OrderedMap V W → OrderedMap V W
  run_map [] m = m
  run_map (o ∷ os) m = run_map os (step_map o m)

  abbrev pub Models : OrderedMap V W → Spec V W → Type 0
  Models m s =
      (m.keys ≡ keys_of s.entries)
      × ((k : Bytes) → lookup k m.entries_map ≡ lookup k s.entries)
      × AreDistinct s.entries
      × CacheIs m.frozen m.norm s.cache

  CacheIs-thaw :
      (m : OrderedMap V W) (c : Option (Option W))
      → CacheIs m.frozen m.norm c
      → CacheIs (thaw m).frozen (thaw m).norm none
  unfolding thaw
  CacheIs-thaw m none (f, n) = rw f (refl, n)
  CacheIs-thaw m (some c) (f, n) = rw f (refl, refl)

  thaw-keeps :
      (m : OrderedMap V W) → ((thaw m).keys ≡ m.keys) × ((thaw m).entries_map ≡ m.entries_map)
  unfolding thaw
  thaw-keeps m = elim (Bool-cases m.frozen) [
    | inl e ↦ rw e (refl, refl)
    | inr e ↦ rw e (refl, refl)
  ]

  step-Models :
      (o : Op V W) (m : OrderedMap V W) (s : Spec V W)
      → Models m s
      → Models (step_map o m) (step_spec o s)
  unfolding set delete freeze cache_normalized_view
  step-Models (put k v) m s (hk, hd, hu, hc) =
      (let (tk, td) = thaw-keeps m in
        let seen = hd k in
        (
          rw (seen, hk) (sym (keys-insert k v s.entries)),
          (λ j.
              lookup-insert k j v m.entries_map ∙ rw (hd j) (sym (lookup-insert k j v s.entries))),
          AreDistinct-insert k v s.entries hu,
          CacheIs-thaw m s.cache hc,
        ))
  step-Models (drop_key k) m s (hk, hd, hu, hc) =
      (let (tk, td) = thaw-keeps m in
        elim (Option-cases (lookup k m.entries_map)) [
          | inl e ↦
              (let gone = remove-absent k s.entries (sym (hd k) ∙ e) in
                rw (e, gone)
                  (tk ∙ hk, (λ j. ap (λ d. lookup j d) td ∙ hd j), hu, CacheIs-thaw m s.cache hc))
          | inr (v, e) ↦ rw e (
            ap (delete_key k) hk ∙ sym (keys-remove k s.entries),
            (λ j. lookup-remove k j m.entries_map ∙ rw (hd j) (sym (lookup-remove k j s.entries))),
            AreDistinct-remove k s.entries hu,
            CacheIs-thaw m s.cache hc,
          )
        ])
  step-Models freeze_map m s (hk, hd, hu, hc) =
      (hk, hd, hu, CacheIs-freeze m.frozen m.norm s.cache hc)
  step-Models (cache_view w) m s (hk, hd, hu, hc) = elim (Bool-cases m.frozen) [
    | inl e ↦ rw e (hk, hd, hu, CacheIs-replace w m.frozen m.norm s.cache e hc)
    | inr e ↦ rw e (hk, hd, hu, CacheIs-none w m.frozen m.norm s.cache e hc)
  ]

  run-Models :
      (os : List (Op V W)) (m : OrderedMap V W) (s : Spec V W)
      → Models m s
      → Models (run_map os m) (run_spec os s)
  run-Models [] m s h = h
  run-Models (o ∷ os) m s h = run-Models os (step_map o m) (step_spec o s) (step-Models o m s h)

  -- Any sequence of Set, Delete, freeze and cacheNormalizedView on a map that models a list of
  -- entries leaves one that models the list behind the same sequence, where Set of a new key
  -- appends, Set of a held key replaces in place, and both Set and Delete end the caching: Get, Has,
  -- Len, Range and cachedNormalizedView answer for it.
  pub run_map-observed :
      (os : List (Op V W)) (m : OrderedMap V W) (s : Spec V W) (k : Bytes)
      → Models m s
      → (get k (run_map os m) ≡ lookup k (run_spec os s).entries)
        × (has k (run_map os m) ≡ is_some (lookup k (run_spec os s).entries))
        × (len (run_map os m) ≡ length (keys_of (run_spec os s).entries))
        × (range (run_map os m) ≡ all_entries (run_spec os s).entries)
        × (cached_normalized_view (run_map os m) ≡ view_of (run_spec os s).cache)
        × Models (run_map os m) (run_spec os s)
  unfolding get has len range cached_normalized_view
  run_map-observed os m s k h =
      (let after = run-Models os m s h in
        let (hk, hd, hu, hc) = after in
        let n = run_map os m in
        let t = run_spec os s in
        (
          hd k,
          ap is_some (hd k),
          ap length hk,
          ap (λ ks. map (λ j. (j, lookup j n.entries_map)) ks) hk
              ∙ lookup-keys n.entries_map t.entries hu (λ j v e. hd j ∙ e),
          cached-view n.frozen n.norm t.cache hc,
          after,
        ))
