-- ===== src/PeerCache/Tests.antt =====
-- A cache for two entities, and the theorems applied there.
use tobs.Prelude.{ℕ, ◌+◌, ◌≤◌, ◌<◌, ◌≡◌, refl, none, some, ℕ_discrete, List, [], ◌∷◌, arith}
use tobs.Dict.{lookup}
use tobs.PeerCache.{Cache, new_cache, get, set, Op, get_op, set_op, run}
use tobs.PeerCache.Bounded.{IsValid, lookups, run-IsValid}
use tobs.PeerCache.Lookup.{get-set}

-- A third entity evicts the one that was used least recently.
abbrev calls : List (ℕ × Op ℕ)
calls = (0, set_op 1 11) ∷ (1, set_op 2 22) ∷ (2, get_op 1) ∷ (3, set_op 3 33) ∷ (4, get_op 2) ∷ []

abbrev filled : Cache ℕ
filled = run calls (new_cache 2 10)

filled-test : filled.cache ≡ (1, (11, 0)) ∷ (3, (33, 3)) ∷ []
unfolding get set ℕ_discrete
filled-test = refl

run-IsValid_example : IsValid filled × (filled.hits + filled.misses ≡ lookups calls)
run-IsValid_example = run-IsValid calls 2 10

abbrev pair : Cache ℕ
pair = record (new_cache 2 10) { cache = (1, (11, 0)) ∷ (3, (33, 3)) ∷ [] }

pair-IsValid : IsValid pair
unfolding lookup ℕ_discrete
pair-IsValid = record { distinct = (refl, (refl, tt)); bounded = omega arith }

get-set_example :
    (15 ≤ 5 + 10 → (get 15 4 (set 5 4 44 pair)).0 ≡ some 44)
    × (5 + 10 < 15 → (get 15 4 (set 5 4 44 pair)).0 ≡ none)
get-set_example = get-set 5 15 4 44 pair pair-IsValid (omega arith)
