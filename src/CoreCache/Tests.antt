-- ===== src/CoreCache/Tests.antt =====
-- Caches of texts and objects over a small byte format, and the theorems applied there. Objects are
-- numbers; those from 100 on stand for objects that JSON changes.
use tobs.Prelude.{
  ℕ, ◌≡◌, refl, Option, none, some, String, Bool, true, false, List, [], ◌∷◌, length, arith,
  ℕ_discrete, leb, ltb, ◌-◌, subst, sym, ap, ◌∙◌, if◌then◌else◌,
}
use tobs.Dict.Laws.{Distinct}
use tobs.Dict.{lookup}
use tobs.CoreCache.Entry.{CacheEntry, Manager, lru, simple, new_manager}
use tobs.CoreCache.Codec.{
  gzip, Value, text, binary, object, Codecs, Settings, compress_data, decompress_data, plain,
}
use tobs.CoreCache.Codec.Roundtrip.{IsJsonValue, AreInverse, decompress-compress, text-becomes_json}
use tobs.CoreCache.{Op, get_op, set_op, cleanup_op, set, run, evict_if_needed}
use tobs.CoreCache.Bounded.{Removes, evict_if_needed-Removes}
use tobs.CoreCache.Saved.{
  Json, json_text, json_object, SavedEntry, Document, entries_document, other_document, Formats,
  Files, cache_data, save_begin, save_end, save_cache, load_cache, shutdown,
}
use tobs.CoreCache.Saved.Reload.{
  IsJsonField, IsJsonDocument, Inverse, AreJson, unexpired, load-save_cache,
}
use tobs.CoreCache.Saved.Crash.{cut_off, load-cut_off, overtaken-loses}

-- The bytes, by how they were made
data Raw : Type 0 where
  utf_8 : String → Raw
  digits : ℕ → Raw
  msgpack_text : String → Raw
  msgpack_raw : Raw → Raw
  msgpack_number : ℕ → Raw
  zlib : Raw → Raw

abbrev size : Raw → ℕ
size (zlib raw) = 1
size raw = 10

abbrev decode : Raw → Option String
decode (utf_8 t) = some t
decode raw = none

-- A set is written as the list of its members, for instance.
abbrev written_as : ℕ → ℕ
written_as n = if ltb n 100 then n else n - 100

abbrev IsJson : ℕ → Type 0
IsJson n = ltb n 100 ≡ true

abbrev json_loads : Option (Value Raw ℕ) → Raw → Option (Value Raw ℕ)
json_loads of_text (digits n) = some (object n)
json_loads of_text (utf_8 t) = of_text
json_loads of_text raw = none

abbrev packb : Value Raw ℕ → Option Raw
packb (text t) = some (msgpack_text t)
packb (binary b) = some (msgpack_raw b)
packb (object n) = some (msgpack_number (written_as n))

abbrev unpackb : Raw → Option (Value Raw ℕ)
unpackb (msgpack_text t) = some (text t)
unpackb (msgpack_raw b) = some (binary b)
unpackb (msgpack_number n) = some (object n)
unpackb raw = none

abbrev decompress : Raw → Option Raw
decompress (zlib raw) = some raw
decompress raw = none

-- `of_text` is what JSON reads in a text
abbrev codecs : Option (Value Raw ℕ) → Codecs Raw ℕ
codecs of_text = record {
  size = size;
  encode = utf_8;
  decode = decode;
  json_dumps = λ n. some (digits (written_as n));
  json_loads = json_loads of_text;
  packb = packb;
  unpackb = unpackb;
  compress = zlib;
  decompress = decompress;
  pickle_loads = λ raw. none;
}

some_eq : {A : Type 0} {a b : A} → some a ≡ some b → a ≡ b
some_eq e = cc

packb-inverse :
    (v : Value Raw ℕ) (raw : Raw) → IsJsonValue IsJson v → packb v ≡ some raw → unpackb raw ≡ some v
packb-inverse (text t) raw j e = cc
packb-inverse (binary b) raw j e = cc
packb-inverse (object n) raw j e = subst (λ r. unpackb r ≡ some (object n)) (some_eq e) (rw j refl)

json_dumps-inverse :
    (of_text : Option (Value Raw ℕ)) (n : ℕ) (raw : Raw)
    → IsJson n
    → some (digits (written_as n)) ≡ some raw
    → json_loads of_text raw ≡ some (object n)
json_dumps-inverse of_text n raw j e =
    subst (λ r. json_loads of_text r ≡ some (object n)) (some_eq e) (rw j refl)

codecs-AreInverse : (of_text : Option (Value Raw ℕ)) → AreInverse IsJson (codecs of_text)
codecs-AreInverse of_text = record {
  zlib = λ raw. refl;
  utf_8 = λ t. refl;
  json = json_dumps-inverse of_text;
  msgpack_law = packb-inverse;
}

abbrev with_gzip : Settings
with_gzip = record { compression = gzip; compression_threshold = 5 }

decompress-compress_example :
    (let p = compress_data (codecs none) with_gzip (text "note") in
      decompress_data (codecs none) p.compression_type p.content)
    ≡ text "note"
decompress-compress_example =
    decompress-compress (codecs none) with_gzip (codecs-AreInverse none) (text "note") (λ e. refl)

text-becomes_json_example :
    (let p = compress_data (codecs (some (object 5))) with_gzip (text "5") in
      decompress_data (codecs (some (object 5))) p.compression_type p.content)
    ≡ object 5
text-becomes_json_example =
    text-becomes_json (codecs (some (object 5))) with_gzip (codecs-AreInverse (some (object 5))) "5"
      (object 5) refl refl (omega arith) (omega arith)

-- Three keys in a cache of two, with a lookup and a cleanup
abbrev calls : List (ℕ × Op ℕ Raw ℕ)
calls =
    (0, set_op 1 (text "a") none)
    ∷ (1, set_op 2 (object 5) (some 3))
    ∷ (2, get_op 1)
    ∷ (3, set_op 3 (text "c") none)
    ∷ (9, cleanup_op)
    ∷ []

abbrev cached : Manager ℕ Raw ℕ
cached = run ℕ_discrete (codecs none) with_gzip calls (new_manager lru 2 none)

abbrev entry : ℕ → Option ℕ → Value Raw ℕ → CacheEntry Raw ℕ
entry created_at ttl v = record {
  content = v;
  created_at = created_at;
  last_accessed = created_at;
  access_count = 1;
  ttl = ttl;
  compressed = false;
  compression_type = plain;
}

abbrev changed : Manager ℕ Raw ℕ
changed = record (new_manager simple 2 none) {
  cache = (1, entry 0 none (text "a")) ∷ (2, entry 0 (some 5) (object 7)) ∷ [];
  dirty = true;
}

abbrev over : Manager ℕ Raw ℕ
over = record changed { cache = (3, entry 0 none (binary (digits 1))) ∷ changed.cache }

evict_if_needed-Removes_example :
    Removes ℕ_discrete over (evict_if_needed ℕ_discrete over)
    × (length (evict_if_needed ℕ_discrete over).cache
        ≡ (if leb (length over.cache) 2 then length over.cache else 1))
unfolding lookup ℕ_discrete
evict_if_needed-Removes_example = evict_if_needed-Removes ℕ_discrete over (refl, (refl, (refl, tt)))

-- The texts of the files
data FileText : Type 0 where
  json_of : Document ℕ ℕ → FileText
  half empty : FileText

abbrev dump_field : (ℕ → Option ℕ) → Option (Json ℕ) → Option (Option (Json ℕ))
dump_field default none = some none
dump_field default (some (json_text t)) = some (some (json_text t))
dump_field default (some (json_object n)) =
    if ltb n 100
    then some (some (json_object n))
    else elim (default n) [ none ↦ none | some k ↦ some (some (json_object k)) ]

abbrev add_entry :
    ℕ
    → SavedEntry ℕ
    → Option (Option (Json ℕ))
    → Option (List (ℕ × SavedEntry ℕ))
    → Option (List (ℕ × SavedEntry ℕ))
add_entry key saved none rest = none
add_entry key saved (some field) none = none
add_entry key saved (some field) (some rest) =
    some ((key, record saved { data_field = field }) ∷ rest)

-- JSON asks `default` for the objects it does not know.
abbrev dump_entries : (ℕ → Option ℕ) → List (ℕ × SavedEntry ℕ) → Option (List (ℕ × SavedEntry ℕ))
dump_entries default [] = some []
dump_entries default ((key, saved) ∷ rest) =
    add_entry key saved (dump_field default saved.data_field) (dump_entries default rest)

abbrev dump_list : Option (List (ℕ × SavedEntry ℕ)) → Option FileText
dump_list none = none
dump_list (some entries) = some (json_of (entries_document entries))

abbrev dumps : (ℕ → Option ℕ) → Document ℕ ℕ → Option FileText
dumps default other_document = some (json_of other_document)
dumps default (entries_document entries) = dump_list (dump_entries default entries)

abbrev loads : FileText → Option (Document ℕ ℕ)
loads (json_of d) = some d
loads half = none
loads empty = none

abbrev is_blank : FileText → Bool
is_blank (json_of d) = false
is_blank half = false
is_blank empty = true

-- Bytes that are their own base64 text
abbrev formats : Formats ℕ String ℕ FileText
formats = record {
  b64encode = λ b. b;
  b64decode = λ t. some t;
  asdict_value = λ n. n;
  has_to_dict = λ n. false;
  to_dict = λ n. none;
  is_set = λ n. leb 100 n;
  list_of = λ n. n - 100;
  dumps = dumps;
  loads = loads;
  is_blank = is_blank;
  null = 0;
}

dump_field-same :
    (default : ℕ → Option ℕ) (field : Option (Json ℕ))
    → IsJsonField IsJson field
    → dump_field default field ≡ some field
dump_field-same default none j = refl
dump_field-same default (some (json_text t)) j = refl
dump_field-same default (some (json_object n)) j = rw j refl

dump_entries-same :
    (default : ℕ → Option ℕ) (entries : List (ℕ × SavedEntry ℕ))
    → IsJsonDocument IsJson (entries_document entries)
    → dump_entries default entries ≡ some entries
dump_entries-same default [] j = refl
dump_entries-same default ((key, saved) ∷ rest) j =
    ap (λ f. add_entry key saved f (dump_entries default rest))
      (dump_field-same default saved.data_field j.0)
    ∙ ap (add_entry key saved (some saved.data_field)) (dump_entries-same default rest j.1)

loads-dumps :
    (default : ℕ → Option ℕ) (d : Document ℕ ℕ) (raw : FileText)
    → IsJsonDocument IsJson d
    → dumps default d ≡ some raw
    → loads raw ≡ some d
loads-dumps default other_document raw j e = cc
loads-dumps default (entries_document entries) raw j e =
    subst (λ r. loads r ≡ some (entries_document entries))
      (some_eq (sym (ap dump_list (dump_entries-same default entries j)) ∙ e)) refl

dumps-not_blank :
    (default : ℕ → Option ℕ) (d : Document ℕ ℕ) (raw : FileText)
    → dumps default d ≡ some raw
    → is_blank raw ≡ false
dumps-not_blank default other_document raw e = cc
dumps-not_blank default (entries_document entries) raw e = go (dump_entries default entries) e
  where
    go :
        (dumped : Option (List (ℕ × SavedEntry ℕ)))
        → dump_list dumped ≡ some raw
        → is_blank raw ≡ false
    go none f = cc
    go (some list) f = subst (λ r. is_blank r ≡ false) (some_eq f) refl

formats-Inverse : Inverse IsJson formats
formats-Inverse = record {
  base64 = λ b. refl;
  json = loads-dumps;
  not_blank = dumps-not_blank;
  copies = λ n j. refl;
}

abbrev stored : ℕ → Option ℕ → Value String ℕ → CacheEntry String ℕ
stored created_at ttl v = record {
  content = v;
  created_at = created_at;
  last_accessed = created_at;
  access_count = 1;
  ttl = ttl;
  compressed = false;
  compression_type = plain;
}

-- The entry with the key 2 expires after 5 seconds.
abbrev unsaved : Manager ℕ String ℕ
unsaved = record (new_manager simple 9 none) {
  cache = (1, stored 0 none (binary "bytes")) ∷ (2, stored 0 (some 5) (object 7)) ∷ [];
  dirty = true;
}

abbrev started : Manager ℕ String ℕ
started = new_manager simple 9 none

unsaved-Distinct : Distinct ℕ_discrete unsaved.cache
unfolding lookup ℕ_discrete
unsaved-Distinct = (refl, (refl, tt))

unsaved-AreJson : AreJson ℕ_discrete formats formats-Inverse unsaved.cache
unsaved-AreJson = (tt, (refl, tt))

abbrev no_files : Files FileText
no_files = record { cache_file = none; backup_file = none }

abbrev written_bytes : FileText
written_bytes = json_of (cache_data ℕ_discrete formats 1 unsaved.cache)

load-save_cache_example :
    let (written, saved, files') = save_cache ℕ_discrete formats 1 unsaved no_files in
    (written ≡ true)
    × (saved.dirty ≡ false)
    × (saved.cache ≡ unsaved.cache)
    × ((load_cache ℕ_discrete formats 9 files' started).cache
        ≡ unexpired ℕ_discrete formats formats-Inverse 9 unsaved.cache)
load-save_cache_example =
    load-save_cache ℕ_discrete formats formats-Inverse 1 9 unsaved started no_files written_bytes
      (omega arith) unsaved-Distinct unsaved-AreJson refl refl refl

load-cut_off_example :
    (load_cache ℕ_discrete formats 9
      (cut_off ℕ_discrete formats formats-Inverse 8 unsaved half
        (record { cache_file = some written_bytes; backup_file = none }))
      started).cache
    ≡ (if formats.is_blank half
        then []
        else unexpired ℕ_discrete formats formats-Inverse 9 unsaved.cache)
load-cut_off_example =
    load-cut_off ℕ_discrete formats formats-Inverse 1 9 8 unsaved unsaved started
      (record { cache_file = some written_bytes; backup_file = none }) written_bytes half
      (omega arith) unsaved-Distinct unsaved-AreJson refl refl refl refl

abbrev string_codecs : Codecs String ℕ
string_codecs = record {
  size = λ b. 1;
  encode = λ t. t;
  decode = λ b. some b;
  json_dumps = λ n. none;
  json_loads = λ b. none;
  packb = λ v. none;
  unpackb = λ b. none;
  compress = λ b. b;
  decompress = λ b. some b;
  pickle_loads = λ b. none;
}

overtaken-loses_example :
    let overtaken = set ℕ_discrete string_codecs with_gzip 1 3 (text "late") none unsaved in
    let begun = save_begin ℕ_discrete formats 1 unsaved no_files in
    let (saved, files') = save_end ℕ_discrete formats written_bytes overtaken begun.0 in
    let (written, stopped, files'') = shutdown ℕ_discrete formats 9 saved files' in
    (overtaken.cache ≡ saved.cache)
    × (written ≡ true)
    × (files'' ≡ files')
    × (lookup ℕ_discrete 3 (load_cache ℕ_discrete formats 9 files'' started).cache ≡ none)
unfolding lookup ℕ_discrete save_begin
overtaken-loses_example =
    overtaken-loses ℕ_discrete formats formats-Inverse string_codecs with_gzip 1 9 3 (text "late")
      none unsaved started no_files written_bytes (omega arith) unsaved-Distinct unsaved-AreJson
      refl refl refl
