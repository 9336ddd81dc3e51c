-- ===== src/CoreCache/Saved/Reload.antt =====
-- What is saved is what is loaded.
use tobs.Prelude.{
  ℕ, ◌≤◌, ◌≡◌, refl, sym, subst, ap, Option, ◌∙◌, none, some, true, false, not, List, [], ◌∷◌, ◌++◌,
  keep, map, All, arith, inl, inr, Bool-cases, Option-cases,
}
use tobs.Dict.{lookup}
use tobs.Dict.Laws.{Distinct, lookup-snoc, set_item_absent}
use tobs.CoreCache.Entry.{CacheEntry, Manager, is_expired}
use tobs.CoreCache.Codec.{Value, text, binary, object}
use tobs.CoreCache.Codec.Roundtrip.{IsJsonValue}
use tobs.CoreCache.Saved.{
  Document, Formats, Files, Json, json_text, json_object, entries_document, other_document,
  json_default, save_entry, cache_data, save_begin, save_end, save_cache, processed_data, json_data,
  is_bytes, load_entry, load_entries, restore_entries, load_cache,
}

abbrev pub IsJsonField : {O : Type 0} → (O → Type 0) → Option (Json O) → Type 0
IsJsonField IsJson none = Unit
IsJsonField IsJson (some (json_text t)) = Unit
IsJsonField IsJson (some (json_object o)) = IsJson o

-- A document whose objects are all ones that JSON keeps
abbrev pub IsJsonDocument : {K O : Type 0} → (O → Type 0) → Document K O → Type 0
IsJsonDocument IsJson other_document = Unit
IsJsonDocument IsJson (entries_document entries) =
    All (λ e. IsJsonField IsJson e.1.data_field) entries

-- What the libraries document, where `IsJson` holds of the objects that JSON keeps as they are: None, the
-- booleans, numbers that are finite, and the lists of them and of texts and the dictionaries of them
-- with texts as keys. Base64 and, for these, JSON give back what they wrote, JSON is not blank, and
-- `asdict` copies these objects.
pub record Inverse {K B O F : Type 0} (IsJson : O → Type 0) (fmt : Formats K B O F) : Type 0 where
  pub base64 : (b : B) → fmt.b64decode (fmt.b64encode b) ≡ some b
  pub json :
      (default : O → Option O) (d : Document K O) (raw : F)
      → IsJsonDocument IsJson d
      → fmt.dumps default d ≡ some raw
      → fmt.loads raw ≡ some d
  pub not_blank :
      (default : O → Option O) (d : Document K O) (raw : F)
      → fmt.dumps default d ≡ some raw
      → fmt.is_blank raw ≡ false
  pub copies : (o : O) → IsJson o → fmt.asdict_value o ≡ o

module _ {K B O F : Type 0} {IsJson : O → Type 0} (dec : Discrete K) (fmt : Formats K B O F)
    (laws : Inverse IsJson fmt) where
  -- JSON keeps the entry as it is.
  abbrev pub IsJsonEntry : CacheEntry B O → Type 0
  IsJsonEntry entry = IsJsonValue IsJson entry.content

  abbrev pub AreJson : List (K × CacheEntry B O) → Type 0
  AreJson entries = All (λ e. IsJsonEntry e.1) entries

  -- What a load at the time `now` leaves of the entries.
  abbrev pub unexpired : ℕ → List (K × CacheEntry B O) → List (K × CacheEntry B O)
  unexpired now entries = keep (λ e. not (is_expired now e.1)) entries

  abbrev pub AbsentFrom : List (K × CacheEntry B O) → List (K × CacheEntry B O) → Type 0
  AbsentFrom acc entries = All (λ e. lookup dec e.0 acc ≡ none) entries

  AbsentFrom-snoc :
      (key : K) (entry : CacheEntry B O) (acc rest : List (K × CacheEntry B O))
      → lookup dec key rest ≡ none
      → AbsentFrom acc rest
      → AbsentFrom (acc ++ (key, entry) ∷ []) rest
  unfolding lookup
  AbsentFrom-snoc key entry acc [] h k = tt
  AbsentFrom-snoc key entry acc ((j, f) ∷ rest) h k = (
    ground (arith, lookup-snoc dec j key entry acc),
    AbsentFrom-snoc key entry acc rest (ground arith) k.1,
  )

  AbsentFrom-nil : (entries : List (K × CacheEntry B O)) → AbsentFrom [] entries
  unfolding lookup
  AbsentFrom-nil [] = tt
  AbsentFrom-nil (e ∷ entries) = (refl, AbsentFrom-nil entries)

  append_nil : (acc : List (K × CacheEntry B O)) → acc ++ [] ≡ acc
  append_nil [] = refl
  append_nil (e ∷ acc) = rw (append_nil acc)

  append_snoc :
      (e : K × CacheEntry B O) (acc rest : List (K × CacheEntry B O))
      → (acc ++ e ∷ []) ++ rest ≡ acc ++ e ∷ rest
  append_snoc e [] rest = refl
  append_snoc e (f ∷ acc) rest = rw (append_snoc e acc rest)

  later_expired :
      (now later : ℕ) (entry : CacheEntry B O)
      → now ≤ later
      → is_expired now entry ≡ true
      → is_expired later entry ≡ true
  later_expired now later entry h e = elim (Option-cases entry.ttl) [
    | inl f ↦ absurd (ground (arith, f))
    | inr (limit, f) ↦ ground (arith, f)
  ]

  processed-json_data :
      (v : Value B O)
      → IsJsonValue IsJson v
      → processed_data dec fmt (is_bytes dec fmt v) (json_data dec fmt v) ≡ v
  processed-json_data (text t) j = refl
  processed-json_data (binary b) j = rw (laws.base64 b) refl
  processed-json_data (object o) j = ap object (laws.copies o j)

  IsJsonField-json_data :
      (v : Value B O) → IsJsonValue IsJson v → IsJsonField IsJson (some (json_data dec fmt v))
  IsJsonField-json_data (text t) j = tt
  IsJsonField-json_data (binary b) j = tt
  IsJsonField-json_data (object o) j = subst IsJson (sym (laws.copies o j)) j

  pub cache_data-IsJson :
      (now : ℕ) (entries : List (K × CacheEntry B O))
      → AreJson entries
      → IsJsonDocument IsJson (cache_data dec fmt now entries)
  cache_data-IsJson now [] j = tt
  cache_data-IsJson now ((key, entry) ∷ entries) j = elim (Bool-cases (is_expired now entry)) [
    | inl old ↦ rw old (cache_data-IsJson now entries j.1)
    | inr young ↦
        rw young (IsJsonField-json_data entry.content j.0, cache_data-IsJson now entries j.1)
  ]

  load-save_entry :
      (now : ℕ) (entry : CacheEntry B O)
      → IsJsonEntry entry
      → load_entry dec fmt now (save_entry dec fmt entry) (json_data dec fmt entry.content) ≡ entry
  load-save_entry now entry j = rw (processed-json_data entry.content j) refl

  -- The entries of a document, loaded after those in `acc`
  load-saved :
      (now later : ℕ) (entries acc : List (K × CacheEntry B O))
      → now ≤ later
      → Distinct dec entries
      → AbsentFrom acc entries
      → AreJson entries
      → load_entries dec fmt later
          (map (λ e. (e.0, save_entry dec fmt e.1)) (unexpired now entries))
          acc
        ≡ acc ++ unexpired later entries
  unfolding load_entries
  load-saved now later [] acc h d a j = sym (append_nil acc)
  load-saved now later ((key, entry) ∷ entries) acc h d a j =
      elim (Bool-cases (is_expired now entry)) [
        | inl old ↦
            rw (old, later_expired now later entry h old)
              (load-saved now later entries acc h d.1 a.1 j.1)
        | inr young ↦ elim (Bool-cases (is_expired later entry)) [
          | inl older ↦
              rw (young, load-save_entry later entry j.0, older)
                (load-saved now later entries acc h d.1 a.1 j.1)
          | inr fresh ↦
              let rest =
                load-saved now later entries (acc ++ (key, entry) ∷ []) h d.1
                  (AbsentFrom-snoc key entry acc entries d.0 a.1) j.1
                ∙ append_snoc (key, entry) acc (unexpired later entries) in
              rw
                (
                  young,
                  load-save_entry later entry j.0,
                  fresh,
                  set_item_absent dec key entry acc a.0,
                )
                rest
        ]
      ]

  -- The backup is read like the file, since every entry that was saved has its data.
  restore-load :
      (now : ℕ) (entries acc : List (K × CacheEntry B O))
      → restore_entries dec fmt now (map (λ e. (e.0, save_entry dec fmt e.1)) entries) acc
        ≡ load_entries dec fmt now (map (λ e. (e.0, save_entry dec fmt e.1)) entries) acc
  unfolding load_entries restore_entries
  restore-load now [] acc = refl
  restore-load now (e ∷ entries) acc = restore-load now entries _

  pub load-cache_data :
      (now later : ℕ) (entries : List (K × CacheEntry B O))
      → now ≤ later
      → Distinct dec entries
      → AreJson entries
      → load_entries dec fmt later
          (map (λ e. (e.0, save_entry dec fmt e.1)) (unexpired now entries))
          []
        ≡ unexpired later entries
  load-cache_data now later entries h d j =
      load-saved now later entries [] h d (AbsentFrom-nil entries) j

  pub restore-cache_data :
      (now later : ℕ) (entries : List (K × CacheEntry B O))
      → now ≤ later
      → Distinct dec entries
      → AreJson entries
      → restore_entries dec fmt later
          (map (λ e. (e.0, save_entry dec fmt e.1)) (unexpired now entries))
          []
        ≡ unexpired later entries
  restore-cache_data now later entries h d j =
      restore-load later (unexpired now entries) [] ∙ load-cache_data now later entries h d j

  -- What a file reads as, of which a save made the bytes.
  pub load-of_bytes :
      (now later : ℕ) (m m' : Manager K B O) (files : Files F) (raw : F)
      → now ≤ later
      → Distinct dec m.cache
      → AreJson m.cache
      → m'.cache ≡ []
      → fmt.dumps (json_default dec fmt) (cache_data dec fmt now m.cache) ≡ some raw
      → files.cache_file ≡ some raw
      → (load_cache dec fmt later files m').cache ≡ unexpired later m.cache
  unfolding load_cache
  load-of_bytes now later m m' files raw h d j empty e f =
      rw (f, laws.not_blank _ _ raw e, laws.json _ _ raw (cache_data-IsJson now m.cache j) e, empty)
        (load-cache_data now later m.cache h d j)

  -- A save of a manager with changes, where JSON can write the entries and their data are texts, bytes
  -- and objects that it keeps as they are, and a load into a manager without entries at a later time give the entries that have not expired by then, in their order and
  -- with all their fields; the manager that saved has no changes left and keeps its entries.
  pub load-save_cache :
      (now later : ℕ) (m m' : Manager K B O) (files : Files F) (raw : F)
      → now ≤ later
      → Distinct dec m.cache
      → AreJson m.cache
      → m.dirty ≡ true
      → m'.cache ≡ []
      → fmt.dumps (json_default dec fmt) (cache_data dec fmt now m.cache) ≡ some raw
      → let (written, saved, files') = save_cache dec fmt now m files in
        (written ≡ true)
        × (saved.dirty ≡ false)
        × (saved.cache ≡ m.cache)
        × ((load_cache dec fmt later files' m').cache ≡ unexpired later m.cache)
  unfolding save_cache save_begin save_end
  load-save_cache now later m m' files raw h d j dirty empty e =
      rw (dirty, e) (refl, refl, refl, load-of_bytes now later m m' _ raw h d j empty e refl)
