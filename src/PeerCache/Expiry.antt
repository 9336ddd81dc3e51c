-- ===== src/PeerCache/Expiry.antt =====
-- `evict_expired` keeps the young entries, in order, and counts the others.
use tobs.Prelude.{
  ℕ, ◌+◌, ◌≡◌, ◌≢◌, refl, ◌∙◌, none, Bool, not, List, [], ◌∷◌, length, ℕ_discrete, keep, map, arith,
  All,
}
use tobs.Dict.{lookup, delete}
use tobs.Dict.Laws.{Distinct}
use tobs.PeerCache.{Cache, expired, remove_all, expired_ids, evict_expired}
use tobs.PeerCache.Bounded.{IsValid}

module _ {V : Type 0} where
  unfoldable delete_all : List ℕ → List (ℕ × V) → List (ℕ × V)
  unfolding delete
  delete_all [] d = d
  delete_all (k ∷ ks) d = delete_all ks (delete ℕ_discrete k d)

  abbrev keys : List (ℕ × V) → List ℕ
  keys = map (λ e. e.0)

  delete_all-cons :
      (k : ℕ) (v : V) (ks : List ℕ) (d : List (ℕ × V))
      → All (λ j. j ≢ k) ks
      → delete_all ks ((k, v) ∷ d) ≡ (k, v) ∷ delete_all ks d
  unfolding delete_all delete
  delete_all-cons k v [] d h = refl
  delete_all-cons k v (j ∷ ks) d h =
      ground (arith, delete_all-cons k v ks (delete ℕ_discrete j d) h.1)

  -- The keys of the entries that are kept are none that the dictionary lacks.
  other_keys :
      (k : ℕ) (p : ℕ × V → Bool) (d : List (ℕ × V))
      → lookup ℕ_discrete k d ≡ none
      → All (λ j. j ≢ k) (keys (keep p d))
  unfolding lookup
  other_keys k p [] h = tt
  other_keys k p ((j, v) ∷ d) h = ground (arith, other_keys k p d)

  delete_all-keep :
      (p : ℕ × V → Bool) (d : List (ℕ × V))
      → Distinct ℕ_discrete d
      → delete_all (keys (keep p d)) d ≡ keep (λ e. not (p e)) d
  unfolding delete_all delete
  delete_all-keep p [] h = refl
  delete_all-keep p ((k, v) ∷ d) h = ground (
    arith,
    delete_all-keep p d h.1,
    delete_all-cons k v (keys (keep p d)) d (other_keys k p d h.0),
  )

module _ {P : Type 0} where
  remove_all-delete_all :
      (ids : List ℕ) (c : Cache P)
      → ((remove_all ids c).cache ≡ delete_all ids c.cache)
        × ((remove_all ids c).expirations ≡ c.expirations + length ids)
  unfolding remove_all delete_all
  remove_all-delete_all [] c = (refl, omega arith)
  remove_all-delete_all (k ∷ ids) c =
      let (same, counted) =
        remove_all-delete_all ids
          (record c { cache = delete ℕ_discrete k c.cache; expirations = c.expirations + 1 }) in
      (same, omega (arith, counted))

  -- In a valid cache, evicting the expired entries leaves exactly the other entries, in their
  -- order, and returns the number by which the expirations grow.
  pub evict_expired-keep :
      (now : ℕ) (c : Cache P)
      → IsValid c
      → ((evict_expired now c).1.cache ≡ keep (λ e. not (expired now c.ttl_seconds e.1)) c.cache)
        × ((evict_expired now c).1.expirations ≡ c.expirations + (evict_expired now c).0)
  evict_expired-keep now c valid =
      let (same, counted) = remove_all-delete_all (expired_ids now c) c in
      (same ∙ delete_all-keep (λ e. expired now c.ttl_seconds e.1) c.cache valid.distinct, counted)
