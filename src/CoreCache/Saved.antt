-- ===== src/CoreCache/Saved.antt =====
-- `_save_cache`, `_load_cache`, `_try_restore_from_backup` and `shutdown` of src/core/cache.py, with
-- the two files. JSON, base64, `dataclasses.asdict` and what Python tells of an object are parameters; a
-- call that raises is `none`.
pub mod Reload
pub mod Crash
use tobs.Prelude.{
  ℕ, zero, suc, Option, none, some, String, Bool, true, false, not, List, [], ◌∷◌, keep, map,
  if◌then◌else◌,
}
use tobs.Dict.{set_item}
use tobs.CoreCache.Entry.{CacheEntry, Manager, is_expired}
use tobs.CoreCache.Codec.{Value, Tag, plain, text, binary, object}

-- What JSON holds of the data: bytes are base64 text.
pub data Json (O : Type 0) : Type 0 where
  json_text : String → Json O
  json_object : O → Json O

-- An entry of the file; a field may be missing.
pub record SavedEntry (O : Type 0) : Type 0 where
  pub data_field : Option (Json O)
  pub is_base64 : Bool
  pub created_at : Option ℕ
  pub last_accessed : Option ℕ
  pub access_count : Option ℕ
  pub ttl : Option ℕ
  pub compressed : Option Bool
  pub compression_type : Option Tag

-- A document with the key "entries", or another one
pub data Document (K O : Type 0) : Type 0 where
  entries_document : List (K × SavedEntry O) → Document K O
  other_document : Document K O

-- `dumps` is `orjson.dumps` with its options and the function `default`, which it calls on an object it
-- does not know; `asdict_value` is what `asdict` makes of the data of an entry: it goes into dictionaries,
-- lists and dataclasses, and copies the rest.
pub record Formats (K B O F : Type 0) : Type 0 where
  pub b64encode : B → String
  pub b64decode : String → Option B
  pub asdict_value : O → O
  pub has_to_dict : O → Bool
  pub to_dict : O → Option O
  pub is_set : O → Bool
  pub list_of : O → O
  pub dumps : (O → Option O) → Document K O → Option F
  pub loads : F → Option (Document K O)
  pub is_blank : F → Bool
  -- Python's None
  pub null : O

-- The contents of `cache_path` and `backup_path`, where they exist.
pub record Files (F : Type 0) : Type 0 where
  pub cache_file : Option F
  pub backup_file : Option F

abbrev pub or_else : {A : Type 0} → A → Option A → A
or_else default none = default
or_else default (some x) = x

module _ {K B O F : Type 0} (dec : Discrete K) (fmt : Formats K B O F) where
  -- `_json_default`; the call of `to_dict` may raise too.
  abbrev pub json_default : O → Option O
  json_default o =
      if fmt.has_to_dict o
      then fmt.to_dict o
      else if fmt.is_set o
      then some (fmt.list_of o)
      else none

  -- The field `data` after `asdict`, bytes in base64, and whether `data_encoding` is set
  abbrev pub json_data : Value B O → Json O
  json_data (text t) = json_text t
  json_data (binary b) = json_text (fmt.b64encode b)
  json_data (object o) = json_object (fmt.asdict_value o)

  abbrev pub is_bytes : Value B O → Bool
  is_bytes (text t) = false
  is_bytes (binary b) = true
  is_bytes (object o) = false

  -- `asdict(entry)`
  abbrev pub save_entry : CacheEntry B O → SavedEntry O
  save_entry entry = record {
    data_field = some (json_data entry.content);
    is_base64 = is_bytes entry.content;
    created_at = some entry.created_at;
    last_accessed = some entry.last_accessed;
    access_count = some entry.access_count;
    ttl = entry.ttl;
    compressed = some entry.compressed;
    compression_type = some entry.compression_type;
  }

  -- The document made under the lock
  abbrev pub cache_data : ℕ → List (K × CacheEntry B O) → Document K O
  cache_data now entries =
      entries_document
        (map (λ e. (e.0, save_entry e.1)) (keep (λ e. not (is_expired now e.1)) entries))

  -- `_save_cache` until it writes the file: the files with the backup, and the bytes to be written
  unfoldable pub save_begin : ℕ → Manager K B O → Files F → Files F × Option F
  save_begin now m files = (
    elim files.cache_file [
      | none ↦ files
      | some content ↦ record files { backup_file = some content }
    ],
    fmt.dumps json_default (cache_data now m.cache),
  )

  -- The rest of it, for the bytes
  unfoldable pub save_end : F → Manager K B O → Files F → Manager K B O × Files F
  save_end json_bytes m files =
      (record m { dirty = false }, record files { cache_file = some json_bytes })

  -- The whole of it with nothing between; `false` where it raises
  unfoldable pub save_cache : ℕ → Manager K B O → Files F → Bool × Manager K B O × Files F
  unfolding save_begin save_end
  save_cache now m files =
      if m.dirty
      then (let (backed_up, bytes) = save_begin now m files in
          elim bytes [
            | none ↦ (false, m, backed_up)
            | some json_bytes ↦
                (let (m', files') = save_end json_bytes m backed_up in (true, m', files'))
          ])
      else (true, m, files)

  -- `processed_data`
  abbrev pub processed_data : Bool → Json O → Value B O
  processed_data is_base64 (json_object o) = object o
  processed_data is_base64 (json_text t) =
      if is_base64 then elim (fmt.b64decode t) [ none ↦ text t | some b ↦ binary b ] else text t

  abbrev pub load_entry : ℕ → SavedEntry O → Json O → CacheEntry B O
  load_entry now saved raw_data = record {
    content = processed_data saved.is_base64 raw_data;
    created_at = or_else now saved.created_at;
    last_accessed = or_else now saved.last_accessed;
    access_count = or_else 0 saved.access_count;
    ttl = saved.ttl;
    compressed = or_else false saved.compressed;
    compression_type = or_else plain saved.compression_type;
  }

  abbrev pub add_unexpired :
      ℕ → K → CacheEntry B O → List (K × CacheEntry B O) → List (K × CacheEntry B O)
  add_unexpired now key entry entries =
      if is_expired now entry then entries else set_item dec key entry entries

  -- An entry without data is skipped.
  unfoldable pub load_entries :
      ℕ → List (K × SavedEntry O) → List (K × CacheEntry B O) → List (K × CacheEntry B O)
  unfolding set_item
  load_entries now [] entries = entries
  load_entries now ((key, saved) ∷ rest) entries = elim saved.data_field [
    | none ↦ load_entries now rest entries
    | some raw_data ↦
        load_entries now rest (add_unexpired now key (load_entry now saved raw_data) entries)
  ]

  -- In the backup it has the data None.
  unfoldable pub restore_entries :
      ℕ → List (K × SavedEntry O) → List (K × CacheEntry B O) → List (K × CacheEntry B O)
  unfolding set_item
  restore_entries now [] entries = entries
  restore_entries now ((key, saved) ∷ rest) entries =
      let raw_data = or_else (json_object fmt.null) saved.data_field in
      restore_entries now rest (add_unexpired now key (load_entry now saved raw_data) entries)

  unfoldable pub try_restore_from_backup : ℕ → Files F → Manager K B O → Manager K B O
  unfolding restore_entries
  try_restore_from_backup now files m = elim files.backup_file [
    | none ↦ m
    | some content ↦ elim (fmt.loads content) [
      | none ↦ m
      | some (other_document) ↦ m
      | some (entries_document entries_data) ↦ record m {
        cache = restore_entries now entries_data m.cache;
      }
    ]
  ]

  unfoldable pub load_cache : ℕ → Files F → Manager K B O → Manager K B O
  unfolding load_entries try_restore_from_backup
  load_cache now files m = elim files.cache_file [
    | none ↦ m
    | some content ↦ if fmt.is_blank content then m else elim (fmt.loads content) [
      | none ↦ try_restore_from_backup now files m
      | some (other_document) ↦ m
      | some (entries_document entries_data) ↦ record m {
        cache = load_entries now entries_data m.cache;
      }
    ]
  ]

  -- The last save of `shutdown`
  abbrev pub shutdown : ℕ → Manager K B O → Files F → Bool × Manager K B O × Files F
  shutdown now m files = if m.dirty then save_cache now m files else (true, m, files)
