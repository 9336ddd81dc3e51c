-- ===== src/HashDedup/Bounded.antt =====
-- The deduplicator's cache stays within its size, and finds what was added last.
use tobs.Prelude.{
  suc, ◌+◌, ◌≤◌, ◌≡◌, refl, some, Bool, true, List, [], ◌∷◌, length, leb, arith, inl, inr,
  Bool-cases, if◌then◌else◌,
}
use tobs.Dict.{lookup, set_item}
use tobs.Dict.Laws.{lookup-set_item, length-set_item-le}
use tobs.HashDedup.{Deduplicator, check_cache, evict, store, add_to_cache}

-- The cache after the eviction, with room for one more entry.
record Evicted {H P : Type 0} (d : Deduplicator H P) : Type 0 where
  room : Deduplicator H P
  made : (if leb d.max_cache_size (length d.hash_cache) then evict d else some d) ≡ some room
  fits : suc (length room.hash_cache) ≤ d.max_cache_size

evict-Evicted :
    {H P : Type 0} (d : Deduplicator H P) (entries : List (H × P))
    → 1 ≤ d.max_cache_size
    → length entries ≤ d.max_cache_size
    → Evicted (record d { hash_cache = entries })
evict-Evicted d [] positive bounded = record {
  room = record d { hash_cache = [] };
  made = ground arith;
  fits = omega arith;
}
evict-Evicted d (oldest ∷ rest) positive bounded =
    elim (Bool-cases (leb d.max_cache_size (length (oldest ∷ rest)))) [
      | inl full ↦ record {
        room = record d { hash_cache = rest; evictions = d.evictions + 1 };
        made = rw full refl;
        fits = omega arith;
      }
      | inr free ↦ record {
        room = record d { hash_cache = oldest ∷ rest };
        made = rw free refl;
        fits = ground arith;
      }
    ]

module _ {H P : Type 0} (dec : Discrete H) where
  -- In a cache with a positive bound that is kept, adding a file succeeds and keeps the bound, and a
  -- check of its hash finds the path, provided the file still exists.
  pub check_cache-add_to_cache :
      (d : Deduplicator H P) (file_hash : H) (path : P) (exists : P → Bool)
      → 1 ≤ d.max_cache_size
      → length d.hash_cache ≤ d.max_cache_size
      → exists path ≡ true
      → (added : Deduplicator H P) × (add_to_cache dec file_hash path d ≡ some added)
        × (length added.hash_cache ≤ d.max_cache_size)
        × ((check_cache dec exists file_hash added).0 ≡ some path)
  unfolding check_cache add_to_cache
  check_cache-add_to_cache d file_hash path exists positive bounded there =
      let h = evict-Evicted d d.hash_cache positive bounded in
      let size = length-set_item-le dec file_hash path h.room.hash_cache in
      let found : lookup dec file_hash (set_item dec file_hash path h.room.hash_cache) ≡ some path =
        ground (arith, lookup-set_item dec file_hash file_hash path h.room.hash_cache) in
      (
        store dec file_hash path h.room,
        rw (h.made, add_to_cache) refl,
        omega (arith, size, h.fits),
        rw (found, check_cache, there) refl,
      )
