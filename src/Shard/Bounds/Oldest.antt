-- ===== src/Shard/Bounds/Oldest.antt =====
-- A full export starts at the oldest message's identifier, and a chunk (s, e) excludes s.
use mathlib.Core.List.{reverse}
use tobs.Prelude.{
  ℕ, ◌+◌, ◌-◌, ◌≤◌, ◌<◌, ◌≡◌, ap, subst, none, some, List, [], ◌∷◌, ◌++◌, All, All-imp, All-parts,
  length, arith, ◌∙◌,
}
use tobs.Shard.Fetch.{Message, World}
use tobs.Shard.Fetch.Ranges.{Descending, within}
use tobs.Shard.Fetch.Paging.{Serves}
use tobs.Shard.Chunks.{Plan, create_chunks}
use tobs.Shard.Chunks.Tiling.{IsPositive}
use tobs.Shard.Export.{State, Limits, Steps, checked, merge}
use tobs.Shard.Export.Merge.{start, AllFinished, export-whole}
use tobs.Shard.Bounds.{max_id, effective_min}

module _ {ℓ} {C : Type ℓ} where
  within_newer :
      (newer : List (Message C)) (oldest : Message C) (hi : ℕ)
      → Descending (newer ++ oldest ∷ [])
      → All (λ m. m.id ≤ hi) newer
      → within oldest.id (hi + 1) (newer ++ oldest ∷ []) ≡ newer
  within_newer [] oldest hi d h = ground arith
  within_newer (m ∷ newer) oldest hi d h =
      let above = (All-parts (λ k. k.id < m.id) newer oldest [] d.0).1 in
      ground (arith, within_newer newer oldest hi d.1 h.1)

  newest-le :
      (newer : List (Message C)) (oldest : Message C) (hi : ℕ)
      → Descending (newer ++ oldest ∷ [])
      → max_id (newer ++ oldest ∷ []) ≡ some hi
      → (oldest.id ≤ hi) × All (λ m. m.id ≤ hi) newer
  unfolding max_id
  newest-le [] oldest hi d e = (ground arith, tt)
  newest-le (m ∷ newer) oldest hi d e =
      let same : m.id ≡ hi = ground arith in
      let (below, last, _) = All-parts (λ k. k.id < m.id) newer oldest [] d.0 in
      (omega arith, (omega arith, All-imp newer (λ k (lt : k.id < m.id). omega arith) below))

-- Under the conditions of `export-whole`, a full export with no lower bound and no limit given, of a
-- history that does not change meanwhile, whose bounds hi and lo the program takes from its newest and
-- its oldest message, merges into the history without its oldest message, oldest first. A history of
-- one message raises IndexError.
pub export-misses_oldest {ℓ} :
    {C : Type ℓ} (newer : List (Message C)) (oldest : Message C) (n : Limits) (patience : ℕ)
    (p : Plan) (chunk_fuel lo hi : ℕ) (chunks : List (ℕ × ℕ)) (clients : List (World C))
    (t : State C)
    → Descending (newer ++ oldest ∷ [])
    → patience ≤ n.tries
    → IsPositive p
    → max_id (newer ++ oldest ∷ []) ≡ some hi
    → effective_min 0 none (oldest ∷ []) hi ≡ lo
    → hi - lo < chunk_fuel
    → hi + 1 - lo < n.fuel
    → 0 < length clients
    → All (λ (c : World C). Serves c (newer ++ oldest ∷ []) patience) clients
    → create_chunks chunk_fuel p lo hi ≡ some chunks
    → Steps n (start chunks clients) t
    → AllFinished t
    → merge 0 t.lanes ≡ checked (reverse newer)
unfolding effective_min
export-misses_oldest newer oldest n patience p chunk_fuel lo hi chunks clients t descending enough
      positive newest bound enough_chunks fits some_client serve cut steps f =
    let (le, newer_le) = newest-le newer oldest hi descending newest in
    let same : oldest.id ≡ lo = bound in
    export-whole (newer ++ oldest ∷ []) n patience descending enough p chunk_fuel lo hi chunks
      clients t positive (omega arith) enough_chunks fits some_client serve cut steps f
    ∙ ap (λ ms. checked (reverse ms))
        (subst (λ k. within k (hi + 1) (newer ++ oldest ∷ []) ≡ newer) same
          (within_newer newer oldest hi descending newer_le))
