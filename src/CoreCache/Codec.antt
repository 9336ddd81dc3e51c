-- ===== src/CoreCache/Codec.antt =====
-- `_compress_data` and `_decompress_data` of src/core/cache.py. The byte strings, the objects and the
-- libraries (UTF-8, orjson, msgpack, zlib, pickle) are parameters; a call that raises is `none`.
pub mod Roundtrip
use tobs.Prelude.{
  ℕ, ◌+◌, ◌*◌, ◌≡◌, Bool, true, false, Option, none, some, String, ltb, if◌then◌else◌,
}

pub data CompressionType : Type 0 where
  no_compression gzip msgpack : CompressionType

-- The texts of `compression_type` in an entry.
pub data Tag : Type 0 where
  plain gzip_tag msgpack_tag pickle_tag : Tag

-- What a caller stores: text, bytes, or any other object.
pub data Value (B O : Type 0) : Type 0 where
  text : String → Value B O
  binary : B → Value B O
  object : O → Value B O

pub record Codecs (B O : Type 0) : Type 0 where
  pub size : B → ℕ
  pub encode : String → B
  pub decode : B → Option String
  pub json_dumps : O → Option B
  pub json_loads : B → Option (Value B O)
  pub packb : Value B O → Option B
  pub unpackb : B → Option (Value B O)
  pub compress : B → B
  pub decompress : B → Option B
  pub pickle_loads : B → Option (Value B O)

pub record Settings : Type 0 where
  pub compression : CompressionType
  pub compression_threshold : ℕ

-- `(data, compressed, compression_type)`, with what is added to the statistics.
pub record Packed (B O : Type 0) : Type 0 where
  pub content : Value B O
  pub compressed : Bool
  pub compression_type : Tag
  pub compression_saves : ℕ
  pub compression_fallbacks : ℕ

module _ {B O : Type 0} (c : Codecs B O) (s : Settings) where
  abbrev pub unpacked : ℕ → Value B O → Packed B O
  unpacked fallbacks v = record {
    content = v;
    compressed = false;
    compression_type = plain;
    compression_saves = 0;
    compression_fallbacks = fallbacks;
  }

  abbrev pub packed : ℕ → Tag → B → Packed B O
  packed fallbacks tag raw = record {
    content = binary (c.compress raw);
    compressed = true;
    compression_type = tag;
    compression_saves = 1;
    compression_fallbacks = fallbacks;
  }

  -- `len(compressed) < len(raw_data) * 0.9`
  abbrev pub worthwhile : B → Bool
  worthwhile raw = ltb (10 * c.size (c.compress raw)) (9 * c.size raw)

  -- Compression of raw data that is long enough
  abbrev pub pack_raw : ℕ → Tag → Value B O → B → Packed B O
  pack_raw fallbacks tag v raw =
      if ltb (c.size raw) s.compression_threshold
      then unpacked fallbacks v
      else if worthwhile raw
      then packed fallbacks tag raw
      else unpacked fallbacks v

  -- `except TypeError`: an object that is no JSON goes to msgpack
  abbrev pub pack_fallback : Value B O → Packed B O
  pack_fallback v = elim (c.packb v) [
    | none ↦ unpacked 0 v
    | some raw ↦ pack_raw 1 msgpack_tag v raw
  ]

  abbrev pub pack_gzip : Value B O → Packed B O
  pack_gzip (text t) = pack_raw 0 gzip_tag (text t) (c.encode t)
  pack_gzip (binary b) = pack_raw 0 gzip_tag (binary b) b
  pack_gzip (object o) = elim (c.json_dumps o) [
    | none ↦ pack_fallback (object o)
    | some raw ↦ pack_raw 0 gzip_tag (object o) raw
  ]

  -- The bytes whose length decides, with the configuration MSGPACK
  abbrev pub raw_msgpack : Value B O → Option B
  raw_msgpack (text t) = some (c.encode t)
  raw_msgpack (binary b) = some b
  raw_msgpack (object o) = c.packb (object o)

  abbrev pub pack_msgpack : Value B O → Packed B O
  pack_msgpack v = elim (raw_msgpack v) [
    | none ↦ unpacked 0 v
    | some raw ↦
        if ltb (c.size raw) s.compression_threshold then unpacked 0 v else elim (c.packb v) [
          | none ↦ unpacked 0 v
          | some packed_raw ↦ packed 0 msgpack_tag packed_raw
        ]
  ]

  unfoldable pub compress_data : Value B O → Packed B O
  compress_data v = elim s.compression [
    | no_compression ↦ unpacked 0 v
    | gzip ↦ pack_gzip v
    | msgpack ↦ pack_msgpack v
  ]

module _ {B O : Type 0} (c : Codecs B O) where
  abbrev pub or_data : B → Option (Value B O) → Value B O
  or_data stored none = binary stored
  or_data stored (some v) = v

  -- JSON, and text where it is none
  abbrev pub parse_gzip : B → Option (Value B O)
  parse_gzip raw = elim (c.json_loads raw) [
    | some v ↦ some v
    | none ↦ elim (c.decode raw) [ none ↦ none | some t ↦ some (text t) ]
  ]

  abbrev pub parse : Tag → B → Option (Value B O)
  parse plain raw = none
  parse gzip_tag raw = parse_gzip raw
  parse msgpack_tag raw = c.unpackb raw
  parse pickle_tag raw = c.pickle_loads raw

  abbrev pub decompress_binary : Tag → B → Value B O
  decompress_binary tag stored =
      or_data stored (elim (c.decompress stored) [ none ↦ none | some raw ↦ parse tag raw ])

  abbrev pub decompress_tagged : Tag → Value B O → Value B O
  decompress_tagged tag (binary stored) = decompress_binary tag stored
  decompress_tagged tag (text t) = text t
  decompress_tagged tag (object o) = object o

  unfoldable pub decompress_data : Tag → Value B O → Value B O
  decompress_data tag v = elim tag [ plain ↦ v | other ↦ decompress_tagged other v ]
