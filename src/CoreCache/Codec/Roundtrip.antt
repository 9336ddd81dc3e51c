-- ===== src/CoreCache/Codec/Roundtrip.antt =====
-- What is compressed comes back, with exceptions for texts, bytes and objects.
use tobs.Prelude.{
  ℕ, ◌*◌, ◌≤◌, ◌<◌, ◌≡◌, refl, none, some, String, ltb, arith, inl, inr, Bool-cases, Option-cases,
  le→ltb, lt→ltb, ◌≢◌,
}
use tobs.CoreCache.Codec.{
  CompressionType, no_compression, gzip, msgpack, Tag, gzip_tag, msgpack_tag, Value, text, binary,
  object, Codecs, Settings, Packed, worthwhile, pack_raw, pack_fallback, pack_gzip, pack_msgpack,
  raw_msgpack, compress_data, decompress_data, parse, parse_gzip, parse_gzip,
}

abbrev pub IsJsonValue : {B O : Type 0} → (O → Type 0) → Value B O → Type 0
IsJsonValue IsJson (text t) = Unit
IsJsonValue IsJson (binary b) = Unit
IsJsonValue IsJson (object o) = IsJson o

-- What the libraries document. `IsJson` holds of the objects that JSON and msgpack keep as they are: None,
-- the booleans, numbers that are finite, and the lists of them and of texts and the dictionaries of them
-- with texts as keys; a key that is a number becomes a text in JSON, and a tuple becomes a list.
pub record AreInverse {B O : Type 0} (IsJson : O → Type 0) (c : Codecs B O) : Type 0 where
  pub zlib : (raw : B) → c.decompress (c.compress raw) ≡ some raw
  pub utf_8 : (t : String) → c.decode (c.encode t) ≡ some t
  pub json :
      (o : O) (raw : B) → IsJson o → c.json_dumps o ≡ some raw → c.json_loads raw ≡ some (object o)
  pub msgpack_law :
      (v : Value B O) (raw : B)
      → IsJsonValue IsJson v
      → c.packb v ≡ some raw
      → c.unpackb raw ≡ some v

module _ {B O : Type 0} {IsJson : O → Type 0} (c : Codecs B O) (s : Settings)
    (laws : AreInverse IsJson c) where
  abbrev stored_as : Packed B O → Value B O
  stored_as p = decompress_data c p.compression_type p.content

  pack_raw-back :
      (fallbacks : ℕ) (tag : Tag) (v : Value B O) (raw : B)
      → decompress_data c tag (binary (c.compress raw)) ≡ v
      → stored_as (pack_raw c s fallbacks tag v raw) ≡ v
  unfolding decompress_data
  pack_raw-back fallbacks tag v raw h =
      elim (Bool-cases (ltb (c.size raw) s.compression_threshold)) [
        | inl short ↦ rw short refl
        | inr long ↦ elim (Bool-cases (worthwhile c s raw)) [
          | inl good ↦ rw (long, good) h
          | inr bad ↦ rw (long, bad) refl
        ]
      ]

  unpackb-back :
      (v : Value B O) (raw : B)
      → IsJsonValue IsJson v
      → c.packb v ≡ some raw
      → decompress_data c msgpack_tag (binary (c.compress raw)) ≡ v
  unfolding decompress_data
  unpackb-back v raw j e = rw (laws.zlib raw, laws.msgpack_law v raw j e) refl

  fallback-back : (v : Value B O) → IsJsonValue IsJson v → stored_as (pack_fallback c s v) ≡ v
  fallback-back v j = elim (Option-cases (c.packb v)) [
    | inl e ↦ rw (e, pack_fallback) (unfold decompress_data in refl)
    | inr (raw, e) ↦
        rw (e, pack_fallback) (pack_raw-back 1 msgpack_tag v raw (unpackb-back v raw j e))
  ]

  msgpack-back : (v : Value B O) → IsJsonValue IsJson v → stored_as (pack_msgpack c s v) ≡ v
  unfolding decompress_data
  msgpack-back v j = elim (Option-cases (raw_msgpack c s v)) [
    | inl e ↦ rw (e, pack_msgpack) refl
    | inr (raw, e) ↦ elim (Bool-cases (ltb (c.size raw) s.compression_threshold)) [
      | inl short ↦ rw (e, pack_msgpack, short) refl
      | inr long ↦ elim (Option-cases (c.packb v)) [
        | inl f ↦ rw (e, pack_msgpack, long, f) refl
        | inr (packed_raw, f) ↦ rw (e, pack_msgpack, long, f) (unpackb-back v packed_raw j f)
      ]
    ]
  ]

  -- With gzip a text must not be JSON, and the value must not be bytes; with compression an object must be
  -- one that JSON keeps.
  abbrev pub Faithful : Value B O → Type 0
  Faithful (text t) = (s.compression ≡ gzip) → c.json_loads (c.encode t) ≡ none
  Faithful (binary b) = s.compression ≢ gzip
  Faithful (object o) = s.compression ≢ no_compression → IsJson o

  object_json : (v : Value B O) → s.compression ≡ msgpack → Faithful v → IsJsonValue IsJson v
  object_json (text t) g h = tt
  object_json (binary b) g h = tt
  object_json (object o) g h = h (λ e. absurd (ground arith))

  gzip-back : (v : Value B O) → s.compression ≡ gzip → Faithful v → stored_as (pack_gzip c s v) ≡ v
  unfolding decompress_data
  gzip-back (text t) g h =
      pack_raw-back 0 gzip_tag (text t) (c.encode t)
        (rw (laws.zlib (c.encode t), parse, parse_gzip, h g, laws.utf_8 t) refl)
  gzip-back (binary b) g h = absurd (h g)
  gzip-back (object o) g h = elim (Option-cases (c.json_dumps o)) [
    | inl e ↦ rw (e, pack_gzip) (fallback-back (object o) (h (λ n. absurd (ground arith))))
    | inr (raw, e) ↦
        rw (e, pack_gzip)
          (pack_raw-back 0 gzip_tag (object o) raw (
            rw
              (laws.zlib raw, parse, parse_gzip, laws.json o raw (h (λ n. absurd (ground arith))) e)
              refl))
  ]

  -- Where zlib and UTF-8 undo themselves, and JSON and msgpack do on the objects that `IsJson` holds of,
  -- decompressing what was compressed gives the value back, for every configuration but with these
  -- exceptions: a text that is JSON and bytes, both with gzip, and an object that `IsJson` does not hold
  -- of, with gzip or msgpack.
  pub decompress-compress : (v : Value B O) → Faithful v → stored_as (compress_data c s v) ≡ v
  unfolding compress_data
  decompress-compress v h = go s.compression refl
    where
      go : (k : CompressionType) → s.compression ≡ k → stored_as (compress_data c s v) ≡ v
      go no_compression e = rw (e, compress_data) (unfold decompress_data in refl)
      go gzip e = rw (e, compress_data) (gzip-back v e h)
      go msgpack e = rw (e, compress_data) (msgpack-back v (object_json v e h))

  -- A text that is JSON for a value v, long enough, and shorter by a tenth when compressed, comes back
  -- as v with gzip: a text of digits as a number, for instance.
  pub text-becomes_json :
      (t : String) (v : Value B O)
      → s.compression ≡ gzip
      → c.json_loads (c.encode t) ≡ some v
      → s.compression_threshold ≤ c.size (c.encode t)
      → 10 * c.size (c.compress (c.encode t)) < 9 * c.size (c.encode t)
      → stored_as (compress_data c s (text t)) ≡ v
  unfolding compress_data decompress_data
  text-becomes_json t v g e long good =
      rw
        (
          g,
          compress_data,
          le→ltb _ _ long,
          lt→ltb _ _ good,
          laws.zlib (c.encode t),
          parse,
          parse_gzip,
          e,
        )
        refl
