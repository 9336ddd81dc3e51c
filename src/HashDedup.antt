-- ===== src/HashDedup.antt =====
-- `HashBasedDeduplicator` of src/media/hash_dedup.py: a bounded dictionary from file hashes to
-- paths. Whether a path names a file that is not empty is an argument. The copy on disk is left out.
pub mod Bounded
mod Tests
use tobs.Prelude.{ℕ, suc, ◌+◌, Option, none, some, Bool, List, [], ◌∷◌, length, leb, if◌then◌else◌}
use tobs.Dict.{lookup, delete, set_item}

pub record Deduplicator (H P : Type 0) : Type 0 where
  pub max_cache_size : ℕ
  pub hash_cache : List (H × P)
  pub hits : ℕ
  pub misses : ℕ
  pub evictions : ℕ

-- `next(iter(cache))` of an empty cache raises StopIteration, which is `none`.
abbrev pub evict : {H P : Type 0} → Deduplicator H P → Option (Deduplicator H P)
evict d = elim d.hash_cache [
  | [] ↦ none
  | oldest ∷ rest ↦ some (record d { hash_cache = rest; evictions = d.evictions + 1 })
]

module _ {H P : Type 0} (dec : Discrete H) where
  unfoldable pub check_cache : (P → Bool) → H → Deduplicator H P → Option P × Deduplicator H P
  unfolding lookup delete
  check_cache exists file_hash d = elim (lookup dec file_hash d.hash_cache) [
    | none ↦ (none, record d { misses = d.misses + 1 })
    | some path ↦ if exists path then (some path, record d { hits = d.hits + 1 }) else (
      none,
      record d { hash_cache = delete dec file_hash d.hash_cache; misses = d.misses + 1 },
    )
  ]

  abbrev pub store : H → P → Deduplicator H P → Deduplicator H P
  store file_hash path d = record d { hash_cache = set_item dec file_hash path d.hash_cache }

  unfoldable pub add_to_cache : H → P → Deduplicator H P → Option (Deduplicator H P)
  unfolding set_item
  add_to_cache file_hash path d =
      elim (if leb d.max_cache_size (length d.hash_cache) then evict d else some d) [
        | none ↦ none
        | some room ↦ some (store file_hash path room)
      ]
