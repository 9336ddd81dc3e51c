-- ===== src/Exporter.antt =====
-- `TelegramExporter` of src/export/exporter.py: what an export of one chat keeps (`EntityCacheData`, the
-- counts, the file), how the results of a batch are written, and the batched updates of the cache.
-- Reporters, statistics, the progress display and the log are left out. A text is a list of characters.
pub mod Batches
pub mod Written
pub mod Loop
pub mod Stops
pub mod Unbound
pub mod Consumed
pub mod Unsaved
pub mod Saver
pub mod Saved
pub mod Crash
pub mod File
pub mod Whole
pub mod Bloom
mod Tests
use tobs.Prelude.{
  String, ℕ, ◌+◌, ◌%◌, Option, none, some, Bool, true, false, List, [], ◌∷◌, ◌++◌, length, map, leb,
  ◌==◌, if◌then◌else◌,
}
use tobs.Dict.{set_item}

-- `processed_message_ids` is a set; here it has its members, each as often as it was added.
pub record EntityCacheData : Type 0 where
  pub entity_id : String
  pub entity_name : String
  pub entity_type : String
  pub total_messages : ℕ
  pub processed_messages : ℕ
  pub last_message_id : Option ℕ
  pub processed_message_ids : List ℕ

pub record EntityDict : Type 0 where
  pub entity_id : String
  pub entity_name : String
  pub entity_type : String
  pub total_messages : ℕ
  pub processed_messages : ℕ
  pub last_message_id : Option ℕ

abbrev pub to_dict : EntityCacheData → EntityDict
to_dict e = record {
  entity_id = e.entity_id;
  entity_name = e.entity_name;
  entity_type = e.entity_type;
  total_messages = e.total_messages;
  processed_messages = e.processed_messages;
  last_message_id = e.last_message_id;
}

-- What the processing of a message gives: an exception, or its text (empty where it failed), its id,
-- whether it has media, and the number of files
pub data Processed (A : Type 0) : Type 0 where
  raised : Processed A
  processed : List A → ℕ → Bool → ℕ → Processed A

-- `writes` are the texts written to the file so far.
pub record Progress (A : Type 0) : Type 0 where
  pub writes : List (List A)
  pub processed_count : ℕ
  pub media_count : ℕ
  pub entity_data : EntityCacheData

module _ {A : Type 0} where
  abbrev pub record_processed : List A → ℕ → ℕ → Progress A → Progress A
  record_processed content msg_id media_cnt p = record {
    writes = p.writes ++ content ∷ [];
    processed_count = p.processed_count + 1;
    media_count = p.media_count + media_cnt;
    entity_data = record (p.entity_data) {
      processed_message_ids = p.entity_data.processed_message_ids ++ msg_id ∷ [];
      last_message_id = some msg_id;
    };
  }

  abbrev pub write_result : Processed A → Progress A → Progress A
  write_result raised p = p
  write_result (processed [] msg_id has_media media_cnt) p = p
  write_result (processed (c ∷ content) msg_id has_media media_cnt) p =
      record_processed (c ∷ content) msg_id media_cnt p

  unfoldable pub write_results : List (Processed A) → Progress A → Progress A
  write_results [] p = p
  write_results (result ∷ results) p = write_results results (write_result result p)

-- The updates that wait for the cache manager, and the cache manager
pub record Saves (K S : Type 0) : Type 0 where
  pub pending_cache_updates : List (K × EntityDict)
  pub cache : S

-- `cache_set` is `cache_manager.set`, with whether it raised.
module _ {K S : Type 0} (dec : Discrete K) (cache_set : K → EntityDict → S → S × Bool) where
  abbrev pub set_all : List (K × EntityDict) → S → S
  set_all [] cache = cache
  set_all ((key, value) ∷ updates) cache =
      let (cache', failed) = cache_set key value cache in
      if failed then cache' else set_all updates cache'

  abbrev pub flush_cache_batch : Saves K S → Saves K S
  flush_cache_batch v = record {
    pending_cache_updates = [];
    cache = set_all v.pending_cache_updates v.cache;
  }

  abbrev pub flush_if_full : ℕ → Saves K S → Saves K S
  flush_if_full cache_batch_size v =
      if leb cache_batch_size (length v.pending_cache_updates) then flush_cache_batch v else v

  -- `_cache_batch_size` is 10.
  unfoldable pub batch_cache_set : K → EntityCacheData → Saves K S → Saves K S
  unfolding set_item
  batch_cache_set key value v = flush_if_full 10 (record v {
    pending_cache_updates = set_item dec key (to_dict value) v.pending_cache_updates;
  })

  -- `if processed_count % 100 == 0`
  abbrev pub periodic_save : {A : Type 0} → K → Progress A → Saves K S → Saves K S
  periodic_save key p v =
      if p.processed_count % 100 == 0 then batch_cache_set key p.entity_data v else v

  -- The end of an export: `_flush_cache_batch` and the last `cache_manager.set`
  abbrev pub final_save : {A : Type 0} → K → Progress A → Saves K S → Saves K S
  final_save key p v =
      let flushed = flush_cache_batch v in
      record flushed { cache = (cache_set key (to_dict p.entity_data) flushed.cache).0 }

  -- The end of an export that failed
  abbrev pub emergency_save : {A : Type 0} → K → Progress A → Saves K S → Saves K S
  emergency_save key p v = record v { cache = (cache_set key (to_dict p.entity_data) v.cache).0 }
