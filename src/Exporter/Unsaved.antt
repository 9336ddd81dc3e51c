-- ===== src/Exporter/Unsaved.antt =====
-- The periodic saves of one export wait until its end.
use tobs.Prelude.{◌≡◌, ◌⊎◌, Bool, [], ◌∷◌}
use tobs.Exporter.{EntityDict, to_dict, Progress, Saves, final_save, emergency_save}
use tobs.Exporter.Batches.{Export}

module _ {A M K S : Type 0} (dec : Discrete K) (cache_set : K → EntityDict → S → S × Bool)
    (x : Export A M K) where
  -- The cache is c, and no other key than that of the export waits.
  abbrev pub Unsaved : S → Saves K S → Type 0
  Unsaved c v =
      (v.cache ≡ c)
      × ((v.pending_cache_updates ≡ [])
          ⊎ ((d : EntityDict) × (v.pending_cache_updates ≡ (x.cache_key, d) ∷ [])))

  -- The cache after the end of an export, given the one it began with: it has taken the last state, after
  -- a periodic save where one waited; where the export fails it has taken the last state only.
  abbrev pub Ends : S → Progress A → Saves K S → Type 0
  Ends c p v =
      let last : S → S = λ cache. (cache_set x.cache_key (to_dict p.entity_data) cache).0 in
      let final = (final_save dec cache_set x.cache_key p v).cache in
      ((final ≡ last c) ⊎ ((d : EntityDict) × (final ≡ last (cache_set x.cache_key d c).0)))
      × ((emergency_save dec cache_set x.cache_key p v).cache ≡ last c)
