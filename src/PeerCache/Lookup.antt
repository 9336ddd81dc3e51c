-- ===== src/PeerCache/Lookup.antt =====
-- What a lookup finds: what was set last, while it is young enough.
use tobs.Prelude.{
  ℕ, ◌+◌, ◌≤◌, ◌<◌, ◌≡◌, refl, ◌∙◌, none, some, List, [], ◌∷◌, ◌++◌, length, ℕ_discrete,
  if◌then◌else◌, arith, inl, inr, Bool-cases, length-append,
}
use tobs.Dict.{lookup, delete, pop_first}
use tobs.Dict.Laws.{lookup-delete, set_item_absent, lookup-snoc}
use tobs.PeerCache.{Cache, expired, get, set}
use tobs.PeerCache.Bounded.{IsValid}

module _ {P : Type 0} where
  -- The last entry stays where something is left after the eviction.
  lookup-pop_snoc :
      (k : ℕ) (e : P × ℕ) (d : List (ℕ × (P × ℕ)))
      → lookup ℕ_discrete k d ≡ none
      → 1 ≤ length d
      → lookup ℕ_discrete k (pop_first (d ++ (k, e) ∷ [])) ≡ some e
  unfolding lookup pop_first
  lookup-pop_snoc k e [] h h' = absurd (omega arith)
  lookup-pop_snoc k e ((i, f) ∷ d) h h' = ground (arith, lookup-snoc ℕ_discrete k k e d)

  lookup-set :
      (now entity_id : ℕ) (peer : P) (c : Cache P)
      → IsValid c
      → 1 ≤ c.max_size
      → lookup ℕ_discrete entity_id (set now entity_id peer c).cache ≡ some (peer, now)
  unfolding set
  lookup-set now entity_id peer c valid room =
      let rest = delete ℕ_discrete entity_id c.cache in
      let gone : lookup ℕ_discrete entity_id rest ≡ none =
        ground (arith, lookup-delete ℕ_discrete entity_id entity_id c.cache valid.distinct) in
      let end = set_item_absent ℕ_discrete entity_id (peer, now) rest gone in
      let size = length-append rest ((entity_id, (peer, now)) ∷ []) in
      rw (end, set)
        (ground (
          arith,
          size,
          lookup-pop_snoc entity_id (peer, now) rest gone,
          lookup-snoc ℕ_discrete entity_id entity_id (peer, now) rest,
        ))

  set-ttl :
      (now entity_id : ℕ) (peer : P) (c : Cache P)
      → (set now entity_id peer c).ttl_seconds ≡ c.ttl_seconds
  unfolding set
  set-ttl now entity_id peer c = ground arith

  get-found :
      (now entity_id : ℕ) (entry : P × ℕ) (c : Cache P)
      → lookup ℕ_discrete entity_id c.cache ≡ some entry
      → (get now entity_id c).0 ≡ (if expired now c.ttl_seconds entry then none else some entry.0)
  unfolding get
  get-found now entity_id entry c e = elim (Bool-cases (expired now c.ttl_seconds entry)) [
    | inl old ↦ rw (e, get, old) refl
    | inr young ↦ rw (e, get, young) refl
  ]

  -- In a valid cache with room for an entry, a `get` after a `set` of the same entity returns the
  -- peer that was set, as long as no more than `ttl_seconds` have passed, and misses once more have.
  pub get-set :
      (now later entity_id : ℕ) (peer : P) (c : Cache P)
      → IsValid c
      → 1 ≤ c.max_size
      → (later ≤ now + c.ttl_seconds
          → (get later entity_id (set now entity_id peer c)).0 ≡ some peer)
        × (now + c.ttl_seconds < later → (get later entity_id (set now entity_id peer c)).0 ≡ none)
  get-set now later entity_id peer c valid room =
      let filled = set now entity_id peer c in
      let found =
        get-found later entity_id (peer, now) filled (lookup-set now entity_id peer c valid room) in
      let ttl = set-ttl now entity_id peer c in
      (λ h. found ∙ ground arith, λ h. found ∙ ground arith)
