-- ===== src/CoreCache/Entry.antt =====
-- The state of `CacheManager` in src/core/cache.py, what an entry tells about its age, and the order
-- in which entries are evicted.
use tobs.Prelude.{
  ℕ, zero, suc, ◌+◌, ◌-◌, Option, none, some, Bool, false, List, [], ◌∷◌, ltb, leb, ◌==◌,
  if◌then◌else◌,
}
use tobs.CoreCache.Codec.{Value, Tag}

pub data CacheStrategy : Type 0 where
  simple lru ttl_strategy : CacheStrategy

pub record CacheEntry (B O : Type 0) : Type 0 where
  pub content : Value B O
  pub created_at : ℕ
  pub last_accessed : ℕ
  pub access_count : ℕ
  pub ttl : Option ℕ
  pub compressed : Bool
  pub compression_type : Tag

pub record CacheStats : Type 0 where
  pub hits : ℕ
  pub misses : ℕ
  pub sets : ℕ
  pub deletes : ℕ
  pub evictions : ℕ
  pub compression_saves : ℕ
  pub compression_fallbacks : ℕ

pub record Manager (K B O : Type 0) : Type 0 where
  pub strategy : CacheStrategy
  pub max_size : ℕ
  pub default_ttl : Option ℕ
  pub cache : List (K × CacheEntry B O)
  pub stats : CacheStats
  pub dirty : Bool

-- `ttl or self.default_ttl`, where 0 is false
abbrev pub ttl_or : Option ℕ → Option ℕ → Option ℕ
ttl_or none default_ttl = default_ttl
ttl_or (some limit) default_ttl = if limit == 0 then default_ttl else some limit

module _ {B O : Type 0} where
  abbrev pub is_expired : ℕ → CacheEntry B O → Bool
  is_expired now entry = elim entry.ttl [
    | none ↦ false
    | some limit ↦ ltb limit (now - entry.created_at)
  ]

  abbrev pub update_access : ℕ → CacheEntry B O → CacheEntry B O
  update_access now entry = record entry {
    last_accessed = now;
    access_count = entry.access_count + 1;
  }

module _ {K B O : Type 0} where
  abbrev pub new_manager : CacheStrategy → ℕ → Option ℕ → Manager K B O
  new_manager strategy max_size default_ttl = record {
    strategy = strategy;
    max_size = max_size;
    default_ttl = default_ttl;
    cache = [];
    stats = record {
      hits = 0;
      misses = 0;
      sets = 0;
      deletes = 0;
      evictions = 0;
      compression_saves = 0;
      compression_fallbacks = 0;
    };
    dirty = false;
  }

  -- `items.sort(key=lambda x: x[1].last_accessed)`, which is stable
  unfoldable pub insert_by_access :
      K × CacheEntry B O → List (K × CacheEntry B O) → List (K × CacheEntry B O)
  insert_by_access e [] = e ∷ []
  insert_by_access e (f ∷ items) =
      if leb e.1.last_accessed f.1.last_accessed
      then e ∷ f ∷ items
      else f ∷ insert_by_access e items

  unfoldable pub sort_by_access : List (K × CacheEntry B O) → List (K × CacheEntry B O)
  unfolding insert_by_access
  sort_by_access [] = []
  sort_by_access (e ∷ items) = insert_by_access e (sort_by_access items)

  abbrev pub counts_eviction : Manager K B O → Manager K B O
  counts_eviction m = record m { stats = record m.stats { evictions = m.stats.evictions + 1 } }

  -- `if self._cache: self._cache.popitem(last=False)`
  abbrev pub pop_oldest : Manager K B O → Manager K B O
  pop_oldest m = elim m.cache [
    | [] ↦ m
    | oldest ∷ rest ↦ counts_eviction (record m { cache = rest })
  ]

  unfoldable pub pop_times : ℕ → Manager K B O → Manager K B O
  pop_times zero m = m
  pop_times (suc count) m = pop_times count (pop_oldest m)
