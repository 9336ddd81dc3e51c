-- ===== src/CoreCache/Refines.antt =====
-- The cache manager refines a dictionary without age limits or eviction: a lookup finds what was
-- stored last, or nothing.
use tobs.Prelude.{
  ℕ, ◌+◌, ◌≤◌, ◌≡◌, refl, sym, subst, Option, none, some, true, false, List, [], ◌∷◌, length, leb,
  if◌then◌else◌, ◌∙◌, arith, inl, inr, ◌⊎◌, Bool-cases, Option-cases,
}
use tobs.Dict.{lookup, delete, set_item}
use tobs.Dict.Laws.{
  Distinct, Distinct-set_item, Distinct-delete, lookup-delete, lookup-set_item, length-delete-le,
}
use tobs.CoreCache.Entry.{CacheEntry, Manager, is_expired, update_access, counts_eviction, ttl_or}
use tobs.CoreCache.Codec.{Value, Codecs, Settings, compress_data, decompress_data}
use tobs.CoreCache.Codec.Roundtrip.{AreInverse, Faithful, decompress-compress}
use tobs.CoreCache.{
  place, drop_expired, never_cleans, remove_expired, expired_keys, cleanup_expired, delete_key, get,
  set, new_entry, Op, get_op, set_op, delete_op, clear_op, cleanup_op,
}
use tobs.CoreCache.Victims.{delete-Shrinks}
use tobs.CoreCache.Bounded.{Removes, same-Removes, Removes-trans, evict_if_needed-Removes}
use tobs.CoreCache.Placed.{placed-Places}

module _ {K B O : Type 0} (dec : Discrete K) where
  -- The specification: a dictionary that forgets nothing by itself.
  abbrev pub spec_apply : ℕ × Op K B O → List (K × Value B O) → List (K × Value B O)
  spec_apply (now, get_op key) d = d
  spec_apply (now, set_op key value ttl) d = set_item dec key value d
  spec_apply (now, delete_op key) d = delete dec key d
  spec_apply (now, clear_op) d = []
  spec_apply (now, cleanup_op) d = d

  abbrev pub spec_run : List (ℕ × Op K B O) → List (K × Value B O) → List (K × Value B O)
  spec_run [] d = d
  spec_run (call ∷ calls) d = spec_run calls (spec_apply call d)

  -- What an age limit leaves of a value: it is there as long as its limit after it was set.
  abbrev pub in_time : ℕ → ℕ → Option ℕ → Option (Value B O) → Option (Value B O)
  in_time now created_at none found = found
  in_time now created_at (some limit) found = if leb now (created_at + limit) then found else none

  abbrev pub unexpired_value : ℕ → Option (CacheEntry B O) → Option (Value B O) → Option (Value B O)
  unexpired_value now none found = none
  unexpired_value now (some entry) found = in_time now entry.created_at entry.ttl found

  pub unexpired_value-cases :
      (now : ℕ) (entry : Option (CacheEntry B O)) (found : Option (Value B O))
      → (unexpired_value now entry found ≡ none) ⊎ (unexpired_value now entry found ≡ found)
  unexpired_value-cases now none found = inl refl
  unexpired_value-cases now (some entry) found = go entry.ttl
    where
      go :
          (ttl : Option ℕ)
          → (in_time now entry.created_at ttl found ≡ none)
            ⊎ (in_time now entry.created_at ttl found ≡ found)
      go none = inr refl
      go (some limit) = elim (Bool-cases (leb now (entry.created_at + limit))) [
        | inl young ↦ rw young (inr refl)
        | inr old ↦ rw old (inl refl)
      ]

  module _ (c : Codecs B O) (s : Settings) where
    abbrev pub read : CacheEntry B O → Value B O
    read entry = decompress_data c entry.compression_type entry.content

    pub record Agrees (m : Manager K B O) (d : List (K × Value B O)) : Type 0 where
      pub distinct : Distinct dec m.cache
      pub bounded : length m.cache ≤ m.max_size
      pub spec_distinct : Distinct dec d
      pub latest :
          (key : K) (entry : CacheEntry B O)
          → lookup dec key m.cache ≡ some entry
          → lookup dec key d ≡ some (read entry)

    Removes-Agrees :
        (m m' : Manager K B O) (d : List (K × Value B O))
        → Removes dec m m'
        → length m'.cache ≤ m'.max_size
        → Agrees m d
        → Agrees m' d
    Removes-Agrees m m' d removes within a = record {
      distinct = removes.shrinks.distinct;
      bounded = within;
      spec_distinct = a.spec_distinct;
      latest = λ key entry e. a.latest key entry (removes.shrinks.found key entry e);
    }

    remove_expired-Removes :
        (keys : List K) (m : Manager K B O)
        → Distinct dec m.cache
        → Removes dec m (remove_expired dec keys m)
          × (length (remove_expired dec keys m).cache ≤ length m.cache)
    unfolding remove_expired
    remove_expired-Removes [] m h = (same-Removes dec m h, omega arith)
    remove_expired-Removes (key ∷ keys) m h =
        let m' = counts_eviction (record m { cache = delete dec key m.cache; dirty = true }) in
        let first : Removes dec m m' = record {
          shrinks = delete-Shrinks dec key m.cache h;
          strategy = refl;
          max_size = refl;
        } in
        let (rest, size) = remove_expired-Removes keys m' first.shrinks.distinct in
        (
          Removes-trans dec m m' (remove_expired dec keys m') first rest,
          omega (arith, size, length-delete-le dec key m.cache),
        )

    pub cleanup-Agrees :
        (now : ℕ) (m : Manager K B O) (d : List (K × Value B O))
        → Agrees m d
        → Agrees (cleanup_expired dec now m) d
    unfolding cleanup_expired
    cleanup-Agrees now m d a = elim (Bool-cases (never_cleans dec m)) [
      | inl e ↦ rw (e, cleanup_expired) a
      | inr e ↦
          let (removes, size) = remove_expired-Removes (expired_keys dec now m) m a.distinct in
          rw (e, cleanup_expired)
            (Removes-Agrees m _ d removes (omega (arith, size, a.bounded, removes.max_size)) a)
    ]

    pub delete-Agrees :
        (key : K) (m : Manager K B O) (d : List (K × Value B O))
        → Agrees m d
        → Agrees (delete_key dec key m).1 (delete dec key d)
    unfolding delete_key
    delete-Agrees key m d a = elim (Option-cases (lookup dec key m.cache)) [
      | inl e ↦
          rw (e, delete_key)
            (record {
              distinct = a.distinct;
              bounded = a.bounded;
              spec_distinct = Distinct-delete dec key d a.spec_distinct;
              latest =
                  λ j f g. ground (arith, a.latest j f, lookup-delete dec j key d a.spec_distinct);
            })
      | inr (entry, e) ↦
          rw (e, delete_key)
            (record {
              distinct = Distinct-delete dec key m.cache a.distinct;
              bounded = omega (arith, a.bounded, length-delete-le dec key m.cache);
              spec_distinct = Distinct-delete dec key d a.spec_distinct;
              latest = λ j f g. ground (
                arith,
                a.latest j f,
                lookup-delete dec j key m.cache a.distinct,
                lookup-delete dec j key d a.spec_distinct,
              );
            })
    ]

    -- Storing an entry that reads as the value
    place-latest :
        (key : K) (entry : CacheEntry B O) (m : Manager K B O) (d : List (K × Value B O))
        → Agrees m d
        → (j : K) (f : CacheEntry B O) → lookup dec j (place dec key entry m).cache ≡ some f
        → lookup dec j (set_item dec key (read entry) d) ≡ some (read f)
    place-latest key entry m d a j f e =
        let places = placed-Places dec m.strategy key entry m.cache a.distinct in
        ground (arith, places.finds j, lookup-set_item dec j key (read entry) d, a.latest j f)

    in_time-old :
        (now : ℕ) (entry : CacheEntry B O) (found : Option (Value B O))
        → is_expired now entry ≡ true
        → in_time now entry.created_at entry.ttl found ≡ none
    in_time-old now entry found e = elim (Option-cases entry.ttl) [
      | inl f ↦ absurd (ground (arith, f))
      | inr (limit, f) ↦ ground (arith, f)
    ]

    in_time-young :
        (now : ℕ) (entry : CacheEntry B O) (found : Option (Value B O))
        → is_expired now entry ≡ false
        → in_time now entry.created_at entry.ttl found ≡ found
    in_time-young now entry found e = elim (Option-cases entry.ttl) [
      | inl f ↦ rw f refl
      | inr (limit, f) ↦ ground (arith, f)
    ]

    -- A lookup keeps the agreement, and what it returns is what the specification has.
    pub get-Agrees :
        (now : ℕ) (key : K) (m : Manager K B O) (d : List (K × Value B O))
        → Agrees m d
        → Agrees (get dec c s now key m).1 d
          × ((get dec c s now key m).0
              ≡ unexpired_value now (lookup dec key m.cache) (lookup dec key d))
    unfolding get
    get-Agrees now key m d a = elim (Option-cases (lookup dec key m.cache)) [
      | inl e ↦
          rw (e, get)
            (
              record {
                distinct = a.distinct;
                bounded = a.bounded;
                spec_distinct = a.spec_distinct;
                latest = a.latest;
              },
              refl,
            )
      | inr (entry, e) ↦ elim (Bool-cases (is_expired now entry)) [
        | inl old ↦
            rw (e, get, old)
              (
                Removes-Agrees m (drop_expired dec key m) d
                    (record {
                      shrinks = delete-Shrinks dec key m.cache a.distinct;
                      strategy = refl;
                      max_size = refl;
                    })
                    (omega (arith, a.bounded, length-delete-le dec key m.cache)) a,
                sym (in_time-old now entry (lookup dec key d) old),
              )
        | inr young ↦
            let places =
              placed-Places dec m.strategy key (update_access now entry) m.cache a.distinct in
            rw (e, get, young)
              (
                record {
                  distinct = places.distinct;
                  bounded = omega (arith, a.bounded, places.same_size (λ f. cc));
                  spec_distinct = a.spec_distinct;
                  latest =
                      λ j f g. ground (arith, places.finds j, a.latest j f, a.latest key entry e);
                },
                sym (in_time-young now entry (lookup dec key d) young ∙ a.latest key entry e),
              )
      ]
    ]

    pub set-Agrees :
        {IsJson : O → Type 0} (laws : AreInverse IsJson c) (now : ℕ) (key : K) (value : Value B O)
        (ttl : Option ℕ) (m : Manager K B O) (d : List (K × Value B O))
        → Faithful c s laws value
        → Agrees m d
        → Agrees (set dec c s now key value ttl m) (set_item dec key value d)
    unfolding set
    set-Agrees laws now key value ttl m d faithful a =
        let p = compress_data c s value in
        let entry : CacheEntry B O = new_entry dec c s now (ttl_or ttl m.default_ttl) p in
        let reads : read entry ≡ value = decompress-compress c s laws value faithful in
        let m1 : Manager K B O = place dec key entry (record m {
          stats = record m.stats {
            sets = m.stats.sets + 1;
            compression_saves = m.stats.compression_saves + p.compression_saves;
            compression_fallbacks = m.stats.compression_fallbacks + p.compression_fallbacks;
          };
          dirty = true;
        }) in
        let places = placed-Places dec m.strategy key entry m.cache a.distinct in
        let (removes, size) = evict_if_needed-Removes dec m1 places.distinct in
        record {
          distinct = removes.shrinks.distinct;
          bounded = ground (arith, size, removes.max_size);
          spec_distinct = Distinct-set_item dec key value d a.spec_distinct;
          latest = λ j f g.
              subst (λ v. lookup dec j (set_item dec key v d) ≡ some (read f)) reads
                (place-latest key entry m d a j f (removes.shrinks.found j f g));
        }
