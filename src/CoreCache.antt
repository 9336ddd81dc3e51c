-- ===== src/CoreCache.antt =====
-- `CacheManager` of src/core/cache.py: a dictionary of compressed entries with an age limit and an
-- eviction strategy. The clock is an argument. The lock makes each operation one step.
pub mod Codec
pub mod Entry
pub mod Victims
pub mod Bounded
pub mod Placed
pub mod Refines
pub mod Runs
pub mod Saved
mod Tests
use tobs.Prelude.{
  ℕ, zero, suc, ◌+◌, ◌-◌, Option, none, some, Bool, true, false, not, List, [], ◌∷◌, length, take,
  keep, map, ltb, leb, ◌==◌, if◌then◌else◌,
}
use tobs.Dict.{lookup, delete, set_item, move_to_end, pop_first}
use tobs.CoreCache.Entry.{
  CacheStrategy, simple, lru, ttl_strategy, CacheEntry, CacheStats, Manager, is_expired,
  update_access, ttl_or, sort_by_access, counts_eviction, pop_times,
}
use tobs.CoreCache.Codec.{Value, Tag, Codecs, Settings, Packed, compress_data, decompress_data}

pub data Op (K B O : Type 0) : Type 0 where
  get_op : K → Op K B O
  set_op : K → Value B O → Option ℕ → Op K B O
  delete_op : K → Op K B O
  clear_op : Op K B O
  cleanup_op : Op K B O

module _ {K B O : Type 0} (dec : Discrete K) where
  unfoldable pub evict_items : List (K × CacheEntry B O) → Manager K B O → Manager K B O
  unfolding delete
  evict_items [] m = m
  evict_items (item ∷ items) m =
      evict_items items (counts_eviction (record m { cache = delete dec item.0 m.cache }))

  abbrev pub evict_by_access : ℕ → Manager K B O → Manager K B O
  evict_by_access evict_count m = evict_items (take evict_count (sort_by_access m.cache)) m

  abbrev pub evict_by_strategy : CacheStrategy → ℕ → Manager K B O → Manager K B O
  evict_by_strategy lru evict_count m = pop_times evict_count m
  evict_by_strategy simple evict_count m = evict_by_access evict_count m
  evict_by_strategy ttl_strategy evict_count m = evict_by_access evict_count m

  unfoldable pub evict_if_needed : Manager K B O → Manager K B O
  unfolding pop_times evict_items sort_by_access
  evict_if_needed m =
      if leb (length m.cache) m.max_size
      then m
      else evict_by_strategy m.strategy (length m.cache - m.max_size + 1) m

  -- An entry in its place, and at the end with LRU
  abbrev pub placed :
      CacheStrategy → K → CacheEntry B O → List (K × CacheEntry B O) → List (K × CacheEntry B O)
  placed lru key entry entries = move_to_end dec key entry entries
  placed simple key entry entries = set_item dec key entry entries
  placed ttl_strategy key entry entries = set_item dec key entry entries

  abbrev pub place : K → CacheEntry B O → Manager K B O → Manager K B O
  place key entry m = record m { cache = placed m.strategy key entry m.cache }

  abbrev pub drop_expired : K → Manager K B O → Manager K B O
  drop_expired key m = record m {
    cache = delete dec key m.cache;
    stats = record m.stats { misses = m.stats.misses + 1; evictions = m.stats.evictions + 1 };
    dirty = true;
  }

  -- The loop over `expired_keys`
  unfoldable pub remove_expired : List K → Manager K B O → Manager K B O
  unfolding delete
  remove_expired [] m = m
  remove_expired (key ∷ keys) m =
      remove_expired keys
        (counts_eviction (record m { cache = delete dec key m.cache; dirty = true }))

  abbrev pub expired_keys : ℕ → Manager K B O → List K
  expired_keys now m = map (λ e. e.0) (keep (λ e. is_expired now e.1) m.cache)

  -- `self.strategy != CacheStrategy.TTL and self.default_ttl is None`
  abbrev pub never_cleans : Manager K B O → Bool
  never_cleans m = elim m.strategy [
    | ttl_strategy ↦ false
    | _ ↦ elim m.default_ttl [ none ↦ true | some limit ↦ false ]
  ]

  unfoldable pub cleanup_expired : ℕ → Manager K B O → Manager K B O
  unfolding remove_expired
  cleanup_expired now m = if never_cleans m then m else remove_expired (expired_keys now m) m

  unfoldable pub delete_key : K → Manager K B O → Bool × Manager K B O
  unfolding lookup delete
  delete_key key m = elim (lookup dec key m.cache) [
    | none ↦ (false, m)
    | some entry ↦ (
      true,
      record m {
        cache = delete dec key m.cache;
        stats = record m.stats { deletes = m.stats.deletes + 1 };
        dirty = true;
      },
    )
  ]

  abbrev pub clear : Manager K B O → Manager K B O
  clear m = record m {
    cache = [];
    stats = record m.stats { deletes = m.stats.deletes + length m.cache };
    dirty = true;
  }

  module _ (c : Codecs B O) (s : Settings) where
    unfoldable pub get : ℕ → K → Manager K B O → Option (Value B O) × Manager K B O
    unfolding lookup delete set_item move_to_end decompress_data
    get now key m = elim (lookup dec key m.cache) [
      | none ↦ (none, record m { stats = record m.stats { misses = m.stats.misses + 1 } })
      | some entry ↦ if is_expired now entry then (none, drop_expired key m) else (
        some (decompress_data c entry.compression_type entry.content),
        place key (update_access now entry)
            (record m { stats = record m.stats { hits = m.stats.hits + 1 } }),
      )
    ]

    abbrev pub new_entry : ℕ → Option ℕ → Packed B O → CacheEntry B O
    new_entry now ttl p = record {
      content = p.content;
      created_at = now;
      last_accessed = now;
      access_count = 1;
      ttl = ttl;
      compressed = p.compressed;
      compression_type = p.compression_type;
    }

    unfoldable pub set : ℕ → K → Value B O → Option ℕ → Manager K B O → Manager K B O
    unfolding set_item move_to_end compress_data evict_if_needed
    set now key value ttl m =
        let p = compress_data c s value in
        let entry = new_entry now (ttl_or ttl m.default_ttl) p in
        let counted = record m {
          stats = record m.stats {
            sets = m.stats.sets + 1;
            compression_saves = m.stats.compression_saves + p.compression_saves;
            compression_fallbacks = m.stats.compression_fallbacks + p.compression_fallbacks;
          };
          dirty = true;
        } in
        evict_if_needed (place key entry counted)

    -- A call at the time `now`
    abbrev pub apply : ℕ × Op K B O → Manager K B O → Manager K B O
    apply (now, get_op key) m = (get now key m).1
    apply (now, set_op key value ttl) m = set now key value ttl m
    apply (now, delete_op key) m = (delete_key key m).1
    apply (now, clear_op) m = clear m
    apply (now, cleanup_op) m = cleanup_expired now m

    abbrev pub run : List (ℕ × Op K B O) → Manager K B O → Manager K B O
    run [] m = m
    run (call ∷ calls) m = run calls (apply call m)
