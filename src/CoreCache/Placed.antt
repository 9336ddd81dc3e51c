-- ===== src/CoreCache/Placed.antt =====
-- An entry put in its place: what the dictionary then finds.
use tobs.Prelude.{
  suc, ◌+◌, ◌≤◌, ◌≡◌, ◌≢◌, refl, none, some, List, [], ◌∷◌, length, length-append, arith,
}
use mathlib.Core.Logic.{ite}
use tobs.Dict.{lookup, delete, set_item, move_to_end}
use tobs.Dict.Laws.{
  Distinct, Distinct-set_item, Distinct-delete, Distinct-snoc, lookup-delete, lookup-set_item,
  lookup-snoc, length-delete-le, length-set_item-le,
}
use tobs.CoreCache.Entry.{CacheStrategy, simple, lru, ttl_strategy, CacheEntry}
use tobs.CoreCache.{placed}

module _ {K B O : Type 0} (dec : Discrete K) where
  pub record Places (key : K) (entry : CacheEntry B O) (d d' : List (K × CacheEntry B O))
      : Type 0 where
    pub distinct : Distinct dec d'
    pub finds : (j : K) → lookup dec j d' ≡ ite (dec key j) (some entry) (lookup dec j d)
    pub size : length d' ≤ length d + 1
    pub same_size : lookup dec key d ≢ none → length d' ≡ length d

  deleted :
      (key : K) (d : List (K × CacheEntry B O))
      → Distinct dec d
      → lookup dec key (delete dec key d) ≡ none
  deleted key d h = ground (arith, lookup-delete dec key key d h)

  length-set_item :
      (key : K) (entry : CacheEntry B O) (d : List (K × CacheEntry B O))
      → lookup dec key d ≢ none
      → length (set_item dec key entry d) ≡ length d
  unfolding lookup set_item
  length-set_item key entry [] h = absurd (h refl)
  length-set_item key entry ((j, w) ∷ d) h = ground (arith, length-set_item key entry d)

  length-deleted :
      (key : K) (d : List (K × CacheEntry B O))
      → lookup dec key d ≢ none
      → suc (length (delete dec key d)) ≡ length d
  unfolding lookup delete
  length-deleted key [] h = absurd (h refl)
  length-deleted key ((j, w) ∷ d) h = ground (arith, length-deleted key d)

  move_to_end-Places :
      (key : K) (entry : CacheEntry B O) (d : List (K × CacheEntry B O))
      → Distinct dec d
      → Places key entry d (move_to_end dec key entry d)
  unfolding move_to_end
  move_to_end-Places key entry d h =
      let rest = delete dec key d in
      let size = length-append rest ((key, entry) ∷ []) in
      record {
        distinct = Distinct-snoc dec key entry rest (deleted key d h) (Distinct-delete dec key d h);
        finds = λ j. ground (arith, lookup-snoc dec j key entry rest, lookup-delete dec j key d h);
        size = omega (arith, size, length-delete-le dec key d);
        same_size = λ k. omega (arith, size, length-deleted key d k);
      }

  set_item-Places :
      (key : K) (entry : CacheEntry B O) (d : List (K × CacheEntry B O))
      → Distinct dec d
      → Places key entry d (set_item dec key entry d)
  set_item-Places key entry d h = record {
    distinct = Distinct-set_item dec key entry d h;
    finds = λ j. lookup-set_item dec j key entry d;
    size = length-set_item-le dec key entry d;
    same_size = length-set_item key entry d;
  }

  pub placed-Places :
      (strategy : CacheStrategy) (key : K) (entry : CacheEntry B O) (d : List (K × CacheEntry B O))
      → Distinct dec d
      → Places key entry d (placed dec strategy key entry d)
  placed-Places lru key entry d h = move_to_end-Places key entry d h
  placed-Places simple key entry d h = set_item-Places key entry d h
  placed-Places ttl_strategy key entry d h = set_item-Places key entry d h
