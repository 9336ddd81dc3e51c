-- ===== src/CoreCache/Saved/Crash.antt =====
-- What a save that is cut off, or that another task overtakes, leaves of the cache.
use tobs.Prelude.{
  ℕ, ◌≤◌, ◌≡◌, refl, Option, none, some, true, List, [], ◌∷◌, inl, inr, Bool-cases, if◌then◌else◌,
  arith,
}
use tobs.Dict.{lookup}
use tobs.Dict.Laws.{Distinct}
use tobs.CoreCache.Entry.{CacheEntry, Manager}
use tobs.CoreCache.Codec.{Value, Codecs, Settings}
use tobs.CoreCache.{set}
use tobs.CoreCache.Saved.{
  Formats, Files, json_default, cache_data, save_begin, save_end, load_cache,
  try_restore_from_backup, shutdown,
}
use tobs.CoreCache.Saved.Reload.{
  Inverse, AreJson, cache_data-IsJson, unexpired, restore-cache_data, load-of_bytes,
}

module _ {K B O F : Type 0} {IsJson : O → Type 0} (dec : Discrete K) (fmt : Formats K B O F)
    (laws : Inverse IsJson fmt) where
  -- The files that a second save leaves when it is cut off while it writes: a part of the bytes.
  abbrev pub cut_off : ℕ → Manager K B O → F → Files F → Files F
  cut_off now m part files = record (save_begin dec fmt now m files).0 { cache_file = some part }

  -- Where the file of an earlier save, of entries that JSON keeps as they are, stood at `cache_path` and the next save is cut off, so that the
  -- file is no JSON, a load gives what the earlier save wrote and has not expired, out of the backup;
  -- but it gives nothing where the file is blank.
  pub load-cut_off :
      (now later then_now : ℕ) (earlier next m' : Manager K B O) (files : Files F) (raw part : F)
      → now ≤ later
      → Distinct dec earlier.cache
      → AreJson dec fmt laws earlier.cache
      → m'.cache ≡ []
      → fmt.dumps (json_default dec fmt) (cache_data dec fmt now earlier.cache) ≡ some raw
      → files.cache_file ≡ some raw
      → fmt.loads part ≡ none
      → (load_cache dec fmt later (cut_off then_now next part files) m').cache
        ≡ (if fmt.is_blank part then [] else unexpired dec fmt laws later earlier.cache)
  unfolding load_cache save_begin try_restore_from_backup
  load-cut_off now later then_now earlier next m' files raw part h d j empty e f broken =
      elim (Bool-cases (fmt.is_blank part)) [
        | inl blank ↦ rw blank empty
        | inr full ↦
            rw
              (
                full,
                broken,
                f,
                laws.json _ _ raw (cache_data-IsJson dec fmt laws now earlier.cache j) e,
                empty,
              )
              (restore-cache_data dec fmt laws now later earlier.cache h d j)
      ]

  lookup-unexpired :
      (now : ℕ) (key : K) (entries : List (K × CacheEntry B O))
      → lookup dec key entries ≡ none
      → lookup dec key (unexpired dec fmt laws now entries) ≡ none
  unfolding lookup
  lookup-unexpired now key [] h = refl
  lookup-unexpired now key (e ∷ entries) h = ground (arith, lookup-unexpired now key entries)

  -- A value that is set while a save, of entries that JSON keeps as they are, writes its file, under a key the save did not see, is in memory
  -- only: the save then clears the mark of changes, a shutdown writes nothing, and the next load has no
  -- entry with the key.
  pub overtaken-loses :
      (c : Codecs B O) (s : Settings) (now later : ℕ) (key : K) (value : Value B O) (ttl : Option ℕ)
      (m m' : Manager K B O) (files : Files F) (raw : F)
      → now ≤ later
      → Distinct dec m.cache
      → AreJson dec fmt laws m.cache
      → lookup dec key m.cache ≡ none
      → m'.cache ≡ []
      → (save_begin dec fmt now m files).1 ≡ some raw
      → let overtaken = set dec c s now key value ttl m in
        let (saved, files') = save_end dec fmt raw overtaken (save_begin dec fmt now m files).0 in
        let (written, stopped, files'') = shutdown dec fmt later saved files' in
        (overtaken.cache ≡ saved.cache)
        × (written ≡ true)
        × (files'' ≡ files')
        × (lookup dec key (load_cache dec fmt later files'' m').cache ≡ none)
  unfolding save_begin save_end
  overtaken-loses c s now later key value ttl m m' files raw h d j absent empty e = (
    refl,
    refl,
    refl,
    rw
        (load-of_bytes dec fmt laws now later m m'
          (record (save_begin dec fmt now m files).0 { cache_file = some raw }) raw h d j empty e
          refl)
        (lookup-unexpired later key m.cache absent),
  )
