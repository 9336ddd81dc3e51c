-- ===== src/PeerCache/Bounded.antt =====
-- Every sequence of calls keeps the cache within its size, with distinct keys, and counts the
-- lookups.
use tobs.Prelude.{
  ℕ, suc, ◌+◌, ◌≤◌, ◌≡◌, refl, none, List, [], ◌∷◌, length, ltb, ℕ_discrete, arith, inl, inr,
  Option-cases, Bool-cases, length-append,
}
use tobs.Dict.{lookup, delete, set_item, move_to_end, pop_first}
use tobs.Dict.Laws.{
  Distinct, Distinct-set_item, Distinct-delete, Distinct-snoc, Distinct-pop_first, length-delete,
  length-delete-le, length-set_item-le, lookup-delete,
}
use tobs.PeerCache.{
  Cache, new_cache, expired, get, evict_oldest, set, clear, remove_all, expired_ids, Op, get_op,
  set_op, clear_op, evict_op, run,
}

length-pop_first : {A : Type 0} (d : List A) → 1 ≤ length d → length (pop_first d) + 1 ≡ length d
unfolding pop_first
length-pop_first [] h = absurd (omega arith)
length-pop_first (e ∷ d) h = omega arith

module _ {P : Type 0} where
  pub record IsValid (c : Cache P) : Type 0 where
    pub distinct : Distinct ℕ_discrete c.cache
    pub bounded : length c.cache ≤ c.max_size

  pub get-IsValid :
      (now entity_id : ℕ) (c : Cache P)
      → IsValid c
      → IsValid (get now entity_id c).1
        × ((get now entity_id c).1.hits + (get now entity_id c).1.misses ≡ suc (c.hits + c.misses))
  unfolding get move_to_end
  get-IsValid now entity_id c valid = elim (Option-cases (lookup ℕ_discrete entity_id c.cache)) [
    | inl e ↦
        rw (e, get) (record { distinct = valid.distinct; bounded = valid.bounded }, omega arith)
    | inr (entry, e) ↦
        let rest = delete ℕ_discrete entity_id c.cache in
        let distinct = Distinct-delete ℕ_discrete entity_id c.cache valid.distinct in
        let shorter = length-delete ℕ_discrete entity_id c.cache entry e in
        let gone : lookup ℕ_discrete entity_id rest ≡ none =
          ground (arith, lookup-delete ℕ_discrete entity_id entity_id c.cache valid.distinct) in
        elim (Bool-cases (expired now c.ttl_seconds entry)) [
          | inl old ↦
              rw (e, get, old)
                (
                  record { distinct = distinct; bounded = omega (arith, shorter, valid.bounded) },
                  omega arith,
                )
          | inr young ↦
              rw (e, get, young)
                (
                  record {
                    distinct = Distinct-snoc ℕ_discrete entity_id entry rest gone distinct;
                    bounded = omega (
                      arith,
                      shorter,
                      valid.bounded,
                      length-append rest ((entity_id, entry) ∷ []),
                    );
                  },
                  omega arith,
                )
        ]
  ]

  -- One entry too many is put right.
  evict_oldest-IsValid :
      (c : Cache P)
      → Distinct ℕ_discrete c.cache
      → length c.cache ≤ c.max_size + 1
      → IsValid (evict_oldest c)
        × ((evict_oldest c).hits + (evict_oldest c).misses ≡ c.hits + c.misses)
  evict_oldest-IsValid c distinct bounded = elim (Bool-cases (ltb c.max_size (length c.cache))) [
    | inl e ↦ rw e (
      record {
        distinct = Distinct-pop_first ℕ_discrete c.cache distinct;
        bounded = ground (arith, length-pop_first c.cache);
      },
      refl,
    )
    | inr e ↦ rw e (record { distinct = distinct; bounded = ground arith }, refl)
  ]

  pub set-IsValid :
      (now entity_id : ℕ) (peer : P) (c : Cache P)
      → IsValid c
      → IsValid (set now entity_id peer c)
        × ((set now entity_id peer c).hits + (set now entity_id peer c).misses ≡ c.hits + c.misses)
  unfolding set
  set-IsValid now entity_id peer c valid =
      let rest = delete ℕ_discrete entity_id c.cache in
      evict_oldest-IsValid (record c { cache = set_item ℕ_discrete entity_id (peer, now) rest })
        (Distinct-set_item ℕ_discrete entity_id (peer, now) rest
          (Distinct-delete ℕ_discrete entity_id c.cache valid.distinct))
        (omega (
          arith,
          valid.bounded,
          length-delete-le ℕ_discrete entity_id c.cache,
          length-set_item-le ℕ_discrete entity_id (peer, now) rest,
        ))

  remove_all-IsValid :
      (ids : List ℕ) (c : Cache P)
      → IsValid c
      → IsValid (remove_all ids c)
        × ((remove_all ids c).hits + (remove_all ids c).misses ≡ c.hits + c.misses)
  unfolding remove_all
  remove_all-IsValid [] c valid = (valid, refl)
  remove_all-IsValid (entity_id ∷ ids) c valid =
      remove_all-IsValid ids
        (record c { cache = delete ℕ_discrete entity_id c.cache; expirations = c.expirations + 1 })
        (record {
          distinct = Distinct-delete ℕ_discrete entity_id c.cache valid.distinct;
          bounded = omega (arith, valid.bounded, length-delete-le ℕ_discrete entity_id c.cache);
        })

  abbrev pub lookups : List (ℕ × Op P) → ℕ
  lookups [] = 0
  lookups ((now, get_op entity_id) ∷ calls) = suc (lookups calls)
  lookups ((now, set_op entity_id peer) ∷ calls) = lookups calls
  lookups ((now, clear_op) ∷ calls) = lookups calls
  lookups ((now, evict_op) ∷ calls) = lookups calls

  run-IsValid_from :
      (calls : List (ℕ × Op P)) (c : Cache P)
      → IsValid c
      → IsValid (run calls c)
        × ((run calls c).hits + (run calls c).misses ≡ lookups calls + (c.hits + c.misses))
  run-IsValid_from [] c valid = (valid, omega arith)
  run-IsValid_from ((now, get_op entity_id) ∷ calls) c valid =
      let (kept, counted) = get-IsValid now entity_id c valid in
      let (kept', counted') = run-IsValid_from calls _ kept in (kept', omega arith)
  run-IsValid_from ((now, set_op entity_id peer) ∷ calls) c valid =
      let (kept, counted) = set-IsValid now entity_id peer c valid in
      let (kept', counted') = run-IsValid_from calls _ kept in (kept', omega arith)
  run-IsValid_from ((now, clear_op) ∷ calls) c valid =
      run-IsValid_from calls (clear c) (record { distinct = tt; bounded = omega arith })
  run-IsValid_from ((now, evict_op) ∷ calls) c valid =
      let (kept, counted) = remove_all-IsValid (expired_ids now c) c valid in
      let (kept', counted') = run-IsValid_from calls _ kept in (kept', omega arith)

  -- After every sequence of calls on a new cache, at whatever times: no entity is cached twice, at
  -- most `max_size` entities are cached, and hits and misses add up to the calls of `get`.
  pub run-IsValid :
      (calls : List (ℕ × Op P)) (max_size ttl_seconds : ℕ)
      → IsValid (run calls (new_cache max_size ttl_seconds))
        × ((run calls (new_cache max_size ttl_seconds)).hits
              + (run calls (new_cache max_size ttl_seconds)).misses
            ≡ lookups calls)
  run-IsValid calls max_size ttl_seconds =
      let (valid, counted) =
        run-IsValid_from calls (new_cache max_size ttl_seconds)
          (record { distinct = tt; bounded = omega arith }) in
      (valid, omega (arith, counted))
