-- ===== src/Shard/Zones/Sizes.antt =====
-- Which sizes the plan picks.
use Prim.Native.String.{String}
use text.Mathlib.Text.{◌==◌ as str_eq}
use text.Mathlib.TextPositions.{eq_refl}
use tobs.Prelude.{
  ℕ, ◌≤◌, ◌<◌, ◌≡◌, refl, ◌⊎◌, inl, inr, true, List, [], ◌∷◌, All, if◌then◌else◌, ltb, arith, ◌&&◌,
  All-imp, All-of-keep,
}
use tobs.Shard.Zones.{
  HotZone, Config, overlaps, smallest_size, size_of_zones, get_optimal_chunk_size,
}

abbrev pub HasSize : HotZone → Type 0
HasSize zone = 0 < zone.optimal_chunk_size

smallest_size-le : (best : ℕ) (zones : List HotZone) → smallest_size best zones ≤ best
unfolding smallest_size
smallest_size-le best [] = omega arith
smallest_size-le best (zone ∷ rest) =
    ground (arith, smallest_size-le best rest, smallest_size-le zone.optimal_chunk_size rest)

smallest_size-All :
    (best : ℕ) (zones : List HotZone)
    → All (λ zone. smallest_size best zones ≤ zone.optimal_chunk_size) zones
unfolding smallest_size
smallest_size-All best [] = tt
smallest_size-All best (zone ∷ rest) =
    let next = if ltb zone.optimal_chunk_size best then zone.optimal_chunk_size else best in
    (ground (arith, smallest_size-le next rest), smallest_size-All next rest)

smallest_size_pos :
    (best : ℕ) (zones : List HotZone) → 0 < best → All HasSize zones → 0 < smallest_size best zones
unfolding smallest_size
smallest_size_pos best [] h all = h
smallest_size_pos best (zone ∷ rest) h all =
    let next = if ltb zone.optimal_chunk_size best then zone.optimal_chunk_size else best in
    smallest_size_pos next rest (ground arith) all.1

size_of_zones-All :
    (default : ℕ) (zones : List HotZone)
    → All (λ zone. size_of_zones default zones ≤ zone.optimal_chunk_size) zones
unfolding size_of_zones
size_of_zones-All default [] = tt
size_of_zones-All default (zone ∷ rest) =
    (smallest_size-le zone.optimal_chunk_size rest, smallest_size-All zone.optimal_chunk_size rest)

pub size_of_zones_cases :
    (default : ℕ) (zones : List HotZone)
    → All HasSize zones
    → (size_of_zones default zones ≡ default) ⊎ (0 < size_of_zones default zones)
unfolding size_of_zones
size_of_zones_cases default [] all = inl refl
size_of_zones_cases default (zone ∷ rest) all =
    inr (smallest_size_pos zone.optimal_chunk_size rest all.0 all.1)

-- The zone is of the datacenter, and shares an identifier with the range.
abbrev pub Meets : HotZone → ℕ → ℕ → String → Type 0
Meets zone id_start id_end datacenter =
    (zone.datacenter ≡ datacenter) × (id_start ≤ zone.id_end) × (zone.id_start ≤ id_end)

pub passes_of_Meets :
    (zone : HotZone) (id_start id_end : ℕ) (datacenter : String)
    → Meets zone id_start id_end datacenter
    → (str_eq zone.datacenter datacenter && overlaps zone id_start id_end) ≡ true
unfolding overlaps
passes_of_Meets zone id_start id_end datacenter (e, h, k) = rw (e, eq_refl) (ground arith)

-- With hot zones enabled, the chunk size of a range is at most the size of each zone of its
-- datacenter that meets the range in at least one identifier.
pub get_optimal_chunk_size-le :
    (config : Config) (zones : List HotZone) (id_start id_end : ℕ) (datacenter : String)
    → config.enable_hot_zones ≡ true
    → All
        (λ zone.
          Meets zone id_start id_end datacenter
          → get_optimal_chunk_size config zones id_start id_end datacenter
            ≤ zone.optimal_chunk_size)
        zones
unfolding get_optimal_chunk_size
get_optimal_chunk_size-le config zones id_start id_end datacenter enabled = rw enabled (
    All-imp zones (λ zone h meets. h (passes_of_Meets zone id_start id_end datacenter meets))
      (All-of-keep _ _ zones (size_of_zones-All config.shard_chunk_size _)))
