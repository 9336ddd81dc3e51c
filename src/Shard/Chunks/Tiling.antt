-- ===== src/Shard/Chunks/Tiling.antt =====
-- The chunks tile the range.
use tobs.Prelude.{
  ℕ, zero, suc, ◌-◌, ◌≤◌, ◌<◌, ◌≡◌, some, List, [], ◌∷◌, inl, inr, ltb, Bool-cases, arith, All,
  All-keep, ◌⊎◌,
}
use tobs.Shard.Zones.{get_optimal_chunk_size, get_chunk_size_for_density, get_hot_zones_for_range}
use tobs.Shard.Zones.Sizes.{HasSize, size_of_zones_cases}
use tobs.Shard.Chunks.{Plan, chunk_size, chunk_end, create_chunks}

-- The chunks follow one another from `a` to `b`, none empty.
abbrev pub Tiles : ℕ → ℕ → List (ℕ × ℕ) → Type 0
Tiles a b [] = b ≤ a
Tiles a b ((s, e) ∷ rest) = (s ≡ a) × (s < e) × (e ≤ b) × Tiles e b rest

-- The zones' sizes and the sizes for densities are positive. The default size need not be.
pub record IsPositive (p : Plan) : Type 0 where
  pub zones : All HasSize p.zones
  pub very_high : 0 < p.config.chunk_size_very_high_density
  pub high : 0 < p.config.chunk_size_high_density
  pub medium : 0 < p.config.chunk_size_medium_density
  pub low : 0 < p.config.chunk_size_low_density

density_size_pos : (p : Plan) → IsPositive p → 0 < get_chunk_size_for_density p.config p.density
unfolding get_chunk_size_for_density
density_size_pos p h = ground arith

optimal_cases :
    (p : Plan) (current_id max_id : ℕ)
    → IsPositive p
    → (get_optimal_chunk_size p.config p.zones current_id max_id p.datacenter
        ≡ p.config.shard_chunk_size)
      ⊎ (0 < get_optimal_chunk_size p.config p.zones current_id max_id p.datacenter)
unfolding get_optimal_chunk_size get_hot_zones_for_range
optimal_cases p current_id max_id h = ground (
  arith,
  size_of_zones_cases p.config.shard_chunk_size
      (get_hot_zones_for_range p.zones current_id max_id p.datacenter)
      (All-keep HasSize _ p.zones h.zones),
)

pub chunk_size_pos :
    (p : Plan) (current_id max_id : ℕ) → IsPositive p → 0 < chunk_size p current_id max_id
unfolding chunk_size
chunk_size_pos p current_id max_id h =
    ground (arith, density_size_pos p h, optimal_cases p current_id max_id h)

-- With positive sizes and fuel for more rounds than the range has identifiers, the loop ends, and the
-- chunks tile the range: they follow one another without a gap, none of them empty.
pub create_chunks-Tiles :
    (fuel : ℕ) (p : Plan) (current_id max_id : ℕ)
    → IsPositive p
    → max_id - current_id < fuel
    → (chunks : List (ℕ × ℕ)) × (create_chunks fuel p current_id max_id ≡ some chunks)
      × Tiles current_id max_id chunks
unfolding create_chunks
create_chunks-Tiles zero p current_id max_id positive enough = absurd (omega arith)
create_chunks-Tiles (suc fuel) p current_id max_id positive enough =
    elim (Bool-cases (ltb current_id max_id)) [
      | inl more ↦
          let size_pos = chunk_size_pos p current_id max_id positive in
          let end = chunk_end p current_id max_id in
          let (rest, cut, tiles) = create_chunks-Tiles fuel p end max_id positive (ground arith) in
          ((current_id, end) ∷ rest, rw (more, cut) (ground arith), ground arith)
      | inr done ↦ ([], rw done, ground arith)
    ]
