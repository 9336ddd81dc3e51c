-- ===== src/CoreCache/Bounded.antt =====
-- Eviction brings the cache back within its size, and only removes entries.
use mathlib.Core.List.{Permᴰ}
use mathlib.Core.List.Permᴰ
use tobs.Prelude.{
  ℕ, zero, suc, ◌+◌, ◌-◌, ◌≡◌, refl, sym, ◌∙◌, ap, subst, List, [], ◌∷◌, length, take, leb, min,
  arith, inl, inr, Bool-cases, if◌then◌else◌,
}
use tobs.Dict.{delete}
use tobs.Dict.Laws.{Distinct}
use tobs.CoreCache.Entry.{
  CacheStrategy, simple, lru, ttl_strategy, CacheEntry, Manager, insert_by_access, sort_by_access,
  counts_eviction, pop_oldest, pop_times,
}
use tobs.CoreCache.{evict_items, evict_by_access, evict_by_strategy, evict_if_needed}
use tobs.CoreCache.Victims.{
  Shrinks, same-Shrinks, Shrinks-trans, tail-Shrinks, delete_all, length-delete_first,
  delete_all-Shrinks,
}

length-take :
    {A : Type 0} (count : ℕ) (xs : List A) → length (take count xs) ≡ min count (length xs)
length-take zero xs = omega arith
length-take (suc count) [] = omega arith
length-take (suc count) (x ∷ xs) = omega (arith, length-take count xs)

module _ {K B O : Type 0} where
  length-insert :
      (e : K × CacheEntry B O) (items : List (K × CacheEntry B O))
      → length (insert_by_access e items) ≡ suc (length items)
  unfolding insert_by_access
  length-insert e [] = omega arith
  length-insert e (f ∷ items) = ground (arith, length-insert e items)

  length-sort : (items : List (K × CacheEntry B O)) → length (sort_by_access items) ≡ length items
  unfolding sort_by_access
  length-sort [] = refl
  length-sort (e ∷ items) = omega (arith, length-sort items, length-insert e (sort_by_access items))

  insert-perm :
      (e : K × CacheEntry B O) (items : List (K × CacheEntry B O))
      → Permᴰ (e ∷ items) (insert_by_access e items)
  unfolding insert_by_access
  insert-perm e [] = Permᴰ.refl _
  insert-perm e (f ∷ items) = elim (Bool-cases (leb e.1.last_accessed f.1.last_accessed)) [
    | inl h ↦ rw h (Permᴰ.refl _)
    | inr h ↦ rw h (Permᴰ.trans (Permᴰ.swap refl refl) (Permᴰ.cons refl (insert-perm e items)))
  ]

  sort-perm : (items : List (K × CacheEntry B O)) → Permᴰ items (sort_by_access items)
  unfolding sort_by_access
  sort-perm [] = Permᴰ.nil
  sort-perm (e ∷ items) =
      Permᴰ.trans (Permᴰ.cons refl (sort-perm items)) (insert-perm e (sort_by_access items))

module _ {K B O : Type 0} (dec : Discrete K) where
  -- A step of the manager that only removes entries.
  pub record Removes (m m' : Manager K B O) : Type 0 where
    pub shrinks : Shrinks dec m.cache m'.cache
    pub strategy : m'.strategy ≡ m.strategy
    pub max_size : m'.max_size ≡ m.max_size

  pub Removes-trans : (m m' m'' : Manager K B O) → Removes m m' → Removes m' m'' → Removes m m''
  Removes-trans m m' m'' p q = record {
    shrinks = Shrinks-trans dec m.cache m'.cache m''.cache p.shrinks q.shrinks;
    strategy = q.strategy ∙ p.strategy;
    max_size = q.max_size ∙ p.max_size;
  }

  pub same-Removes : (m : Manager K B O) → Distinct dec m.cache → Removes m m
  same-Removes m h = record {
    shrinks = same-Shrinks dec m.cache h;
    strategy = refl;
    max_size = refl;
  }

  -- For a manager with the given entries
  pop_oldest-Removes :
      (m : Manager K B O) (items : List (K × CacheEntry B O))
      → Distinct dec items
      → Removes (record m { cache = items }) (pop_oldest (record m { cache = items }))
        × (length (pop_oldest (record m { cache = items })).cache ≡ length items - 1)
  pop_oldest-Removes m [] h = (same-Removes (record m { cache = [] }) tt, omega arith)
  pop_oldest-Removes m (oldest ∷ rest) h = (
    record { shrinks = tail-Shrinks dec oldest rest h; strategy = refl; max_size = refl },
    omega arith,
  )

  pop_times-Removes :
      (count : ℕ) (m : Manager K B O)
      → Distinct dec m.cache
      → Removes m (pop_times count m) × (length (pop_times count m).cache ≡ length m.cache - count)
  unfolding pop_times
  pop_times-Removes zero m h = (same-Removes m h, omega arith)
  pop_times-Removes (suc count) m h =
      let (first, one) = pop_oldest-Removes m m.cache h in
      let (rest, others) = pop_times-Removes count (pop_oldest m) first.shrinks.distinct in
      (Removes-trans m (pop_oldest m) (pop_times count (pop_oldest m)) first rest, omega arith)

  evict_items-delete_all :
      (items : List (K × CacheEntry B O)) (m : Manager K B O)
      → ((evict_items dec items m).cache ≡ delete_all dec items m.cache)
        × ((evict_items dec items m).strategy ≡ m.strategy)
        × ((evict_items dec items m).max_size ≡ m.max_size)
  unfolding evict_items delete_all
  evict_items-delete_all [] m = (refl, refl, refl)
  evict_items-delete_all (item ∷ items) m =
      evict_items-delete_all items
        (counts_eviction (record m { cache = delete dec item.0 m.cache }))

  evict_sorted-Removes :
      (count : ℕ) (m : Manager K B O)
      → Distinct dec m.cache
      → Removes m (evict_items dec (take count (sort_by_access m.cache)) m)
        × (length (evict_items dec (take count (sort_by_access m.cache)) m).cache
              + length (take count (sort_by_access m.cache))
            ≡ length m.cache)
  evict_sorted-Removes count m h =
      let victims = take count (sort_by_access m.cache) in
      let (same, strategy, max_size) = evict_items-delete_all victims m in
      let shrinks = delete_all-Shrinks dec victims m.cache h in
      (
        record {
          shrinks = subst (Shrinks dec m.cache) (sym same) shrinks;
          strategy = strategy;
          max_size = max_size;
        },
        omega (arith, ap length same, length-delete_first dec count (sort-perm m.cache) h),
      )

  evict_by_access-Removes :
      (count : ℕ) (m : Manager K B O)
      → Distinct dec m.cache
      → Removes m (evict_by_access dec count m)
        × (length (evict_by_access dec count m).cache ≡ length m.cache - count)
  evict_by_access-Removes count m h =
      let (removes, size) = evict_sorted-Removes count m h in
      (
        removes,
        omega (arith, size, length-take count (sort_by_access m.cache), length-sort m.cache),
      )

  evict_by_strategy-Removes :
      (strategy : CacheStrategy) (count : ℕ) (m : Manager K B O)
      → Distinct dec m.cache
      → Removes m (evict_by_strategy dec strategy count m)
        × (length (evict_by_strategy dec strategy count m).cache ≡ length m.cache - count)
  evict_by_strategy-Removes lru count m h = pop_times-Removes count m h
  evict_by_strategy-Removes simple count m h = evict_by_access-Removes count m h
  evict_by_strategy-Removes ttl_strategy count m h = evict_by_access-Removes count m h

  -- Eviction only removes entries, and none where the cache is within its size. Otherwise it leaves one
  -- less than the size.
  pub evict_if_needed-Removes :
      (m : Manager K B O)
      → Distinct dec m.cache
      → Removes m (evict_if_needed dec m)
        × (length (evict_if_needed dec m).cache
            ≡ (if leb (length m.cache) m.max_size then length m.cache else m.max_size - 1))
  unfolding evict_if_needed
  evict_if_needed-Removes m h = elim (Bool-cases (leb (length m.cache) m.max_size)) [
    | inl within ↦ rw (within, evict_if_needed) (same-Removes m h, refl)
    | inr over ↦
        let (removes, size) =
          evict_by_strategy-Removes m.strategy (length m.cache - m.max_size + 1) m h in
        rw (over, evict_if_needed) (removes, ground (arith, size))
  ]
