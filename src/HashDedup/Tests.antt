-- ===== src/HashDedup/Tests.antt =====
-- A full cache of one file.
use tobs.Prelude.{ℕ, true, Bool, [], ◌∷◌}
use tobs.HashDedup.{Deduplicator}

abbrev full : Deduplicator ℕ ℕ
full = record { max_cache_size = 1; hash_cache = (7, 70) ∷ []; hits = 0; misses = 0; evictions = 0 }

abbrev exists : ℕ → Bool
exists path = true
