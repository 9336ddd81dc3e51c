-- ===== src/PeerCache.antt =====
-- `InputPeerCache` of src/input_peer_cache.py: an ordered dictionary of peers with the time of
-- their entry, bounded in size and in age. The clock `time.time()` is an argument.
pub mod Bounded
pub mod Expiry
pub mod Lookup
mod Tests
use tobs.Prelude.{
  ℕ, suc, ◌+◌, ◌-◌, Option, none, some, Bool, List, [], ◌∷◌, length, ltb, if◌then◌else◌, map,
  ℕ_discrete, keep,
}
use tobs.Dict.{lookup, delete, set_item, move_to_end, pop_first}

pub record Cache (P : Type 0) : Type 0 where
  pub max_size : ℕ
  pub ttl_seconds : ℕ
  pub cache : List (ℕ × (P × ℕ))
  pub hits : ℕ
  pub misses : ℕ
  pub evictions : ℕ
  pub expirations : ℕ

pub data Op (P : Type 0) : Type 0 where
  get_op : ℕ → Op P
  set_op : ℕ → P → Op P
  clear_op : Op P
  evict_op : Op P

module _ {P : Type 0} where
  abbrev pub new_cache : ℕ → ℕ → Cache P
  new_cache max_size ttl_seconds = record {
    max_size = max_size;
    ttl_seconds = ttl_seconds;
    cache = [];
    hits = 0;
    misses = 0;
    evictions = 0;
    expirations = 0;
  }

  -- `current_time - timestamp > self._ttl_seconds`
  abbrev pub expired : ℕ → ℕ → P × ℕ → Bool
  expired now ttl_seconds entry = ltb ttl_seconds (now - entry.1)

  unfoldable pub get : ℕ → ℕ → Cache P → Option P × Cache P
  unfolding lookup delete move_to_end
  get now entity_id c = elim (lookup ℕ_discrete entity_id c.cache) [
    | none ↦ (none, record c { misses = c.misses + 1 })
    | some entry ↦
        if expired now c.ttl_seconds entry
        then (
          none,
          record c {
            expirations = c.expirations + 1;
            misses = c.misses + 1;
            cache = delete ℕ_discrete entity_id c.cache;
          },
        )
        else (
          some entry.0,
          record c { cache = move_to_end ℕ_discrete entity_id entry c.cache; hits = c.hits + 1 },
        )
  ]

  abbrev pub evict_oldest : Cache P → Cache P
  evict_oldest c =
      if ltb c.max_size (length c.cache)
      then record c { cache = pop_first c.cache; evictions = c.evictions + 1 }
      else c

  unfoldable pub set : ℕ → ℕ → P → Cache P → Cache P
  unfolding delete set_item pop_first
  set now entity_id peer c =
      let rest = delete ℕ_discrete entity_id c.cache in
      evict_oldest (record c { cache = set_item ℕ_discrete entity_id (peer, now) rest })

  abbrev pub clear : Cache P → Cache P
  clear c = record c { cache = [] }

  -- The loop `for entity_id in expired_ids`
  unfoldable pub remove_all : List ℕ → Cache P → Cache P
  unfolding delete
  remove_all [] c = c
  remove_all (entity_id ∷ ids) c =
      remove_all ids
        (record c { cache = delete ℕ_discrete entity_id c.cache; expirations = c.expirations + 1 })

  abbrev pub expired_ids : ℕ → Cache P → List ℕ
  expired_ids now c = map (λ e. e.0) (keep (λ e. expired now c.ttl_seconds e.1) c.cache)

  abbrev pub evict_expired : ℕ → Cache P → ℕ × Cache P
  evict_expired now c = (length (expired_ids now c), remove_all (expired_ids now c) c)

  -- A call at the time `now`
  abbrev pub apply : ℕ × Op P → Cache P → Cache P
  apply (now, get_op entity_id) c = (get now entity_id c).1
  apply (now, set_op entity_id peer) c = set now entity_id peer c
  apply (now, clear_op) c = clear c
  apply (now, evict_op) c = (evict_expired now c).1

  abbrev pub run : List (ℕ × Op P) → Cache P → Cache P
  run [] c = c
  run (call ∷ calls) c = run calls (apply call c)
