-- ===== src/Shard/Zones.antt =====
-- HotZone and HotZonesManager of src/hot_zones_manager.py: which chunk size an identifier range
-- gets. Latencies and densities are numbers in one fixed unit (thousandths), dates are texts.
pub mod Sizes
pub mod Learning
use Prim.Native.String.{String}
use text.Mathlib.Text.{◌==◌ as str_eq}
use tobs.Prelude.{
  ℕ, ◌+◌, ◌-◌, ◌*◌, ◌/◌, Bool, not, ◌&&◌, ◌||◌, List, [], ◌∷◌, ◌++◌, keep, ltb, leb, if◌then◌else◌,
}

pub data Severity : Type 0 where
  critical high medium low : Severity

pub record HotZone : Type 0 where
  pub id_start : ℕ
  pub id_end : ℕ
  pub datacenter : String
  pub optimal_chunk_size : ℕ
  pub avg_latency : ℕ
  pub message_density : ℕ
  pub severity : Severity
  pub last_observed : String
  pub observation_count : ℕ

-- The fields of `Config` that decide chunk sizes.
pub record Config : Type 0 where
  pub enable_hot_zones : Bool
  pub shard_chunk_size : ℕ
  pub density_very_high_threshold : ℕ
  pub density_high_threshold : ℕ
  pub density_medium_threshold : ℕ
  pub chunk_size_very_high_density : ℕ
  pub chunk_size_high_density : ℕ
  pub chunk_size_medium_density : ℕ
  pub chunk_size_low_density : ℕ

unfoldable pub overlaps : HotZone → ℕ → ℕ → Bool
overlaps zone id_start id_end = not (ltb id_end zone.id_start || ltb zone.id_end id_start)

unfoldable pub contains : HotZone → ℕ → Bool
contains zone message_id = leb zone.id_start message_id && leb message_id zone.id_end

unfoldable pub get_hot_zones_for_range : List HotZone → ℕ → ℕ → String → List HotZone
unfolding overlaps
get_hot_zones_for_range zones id_start id_end datacenter =
    keep (λ zone. str_eq zone.datacenter datacenter && overlaps zone id_start id_end) zones

-- `min(zones, key=lambda z: z.optimal_chunk_size).optimal_chunk_size` over `zone ∷ rest`
unfoldable pub smallest_size : ℕ → List HotZone → ℕ
smallest_size best [] = best
smallest_size best (zone ∷ rest) =
    smallest_size (if ltb zone.optimal_chunk_size best then zone.optimal_chunk_size else best) rest

unfoldable pub size_of_zones : ℕ → List HotZone → ℕ
unfolding smallest_size
size_of_zones default [] = default
size_of_zones default (zone ∷ rest) = smallest_size zone.optimal_chunk_size rest

unfoldable pub get_optimal_chunk_size : Config → List HotZone → ℕ → ℕ → String → ℕ
unfolding get_hot_zones_for_range size_of_zones
get_optimal_chunk_size config zones id_start id_end datacenter =
    if not config.enable_hot_zones
    then config.shard_chunk_size
    else size_of_zones config.shard_chunk_size
        (get_hot_zones_for_range zones id_start id_end datacenter)

unfoldable pub get_chunk_size_for_density : Config → ℕ → ℕ
get_chunk_size_for_density config density =
    if ltb config.density_very_high_threshold density
    then config.chunk_size_very_high_density
    else if ltb config.density_high_threshold density
    then config.chunk_size_high_density
    else if ltb config.density_medium_threshold density
    then config.chunk_size_medium_density
    else config.chunk_size_low_density

-- What `analyze_and_update_hot_zones` reads of a slow chunk. The name of its datacenter is given.
pub record SlowChunk : Type 0 where
  pub start_id : ℕ
  pub end_id : ℕ
  pub duration : ℕ
  pub messages : ℕ
  pub datacenter : String

-- Messages per 1000 identifiers, stored in thousandths and cut down to a whole number of them.
unfoldable pub density_of : SlowChunk → ℕ
density_of chunk = chunk.messages * 1_000_000 / (chunk.end_id - chunk.start_id)

-- `density > bound`, without rounding; the density of an empty span is 0
unfoldable pub denser : ℕ → SlowChunk → Bool
denser bound chunk =
    let span = chunk.end_id - chunk.start_id in
    ltb 0 span && ltb (bound * span) (chunk.messages * 1_000)

-- The `if` ladder that grades a new zone, durations in milliseconds.
unfoldable pub grade : SlowChunk → Severity × ℕ
unfolding denser
grade chunk =
    if ltb 60_000 chunk.duration || denser 180 chunk
    then (critical, 5_000)
    else if ltb 20_000 chunk.duration || denser 150 chunk
    then (high, 10_000)
    else if ltb 10_000 chunk.duration || denser 100 chunk
    then (medium, 15_000)
    else (low, 25_000)

-- The moving averages of an observed zone.
unfoldable pub observe : SlowChunk → String → HotZone → HotZone
unfolding density_of
observe chunk today zone = record zone {
  avg_latency =
      (zone.avg_latency * zone.observation_count + chunk.duration) / (zone.observation_count + 1);
  message_density =
      (zone.message_density * zone.observation_count + density_of chunk)
      / (zone.observation_count + 1);
  observation_count = zone.observation_count + 1;
  last_observed = today;
}

unfoldable pub new_zone : SlowChunk → String → HotZone
unfolding density_of grade
new_zone chunk today = record {
  id_start = chunk.start_id;
  id_end = chunk.end_id;
  datacenter = chunk.datacenter;
  optimal_chunk_size = (grade chunk).1;
  avg_latency = chunk.duration;
  message_density = density_of chunk;
  severity = (grade chunk).0;
  last_observed = today;
  observation_count = 1;
}

-- Zones that overlap are updated where they stand in the manager's list.
unfoldable pub update_zones : SlowChunk → String → List HotZone → List HotZone
unfolding overlaps observe
update_zones chunk today [] = []
update_zones chunk today (zone ∷ zones) =
    (if str_eq zone.datacenter chunk.datacenter && overlaps zone chunk.start_id chunk.end_id
      then observe chunk today zone
      else zone)
    ∷ update_zones chunk today zones

unfoldable pub learn : List HotZone → SlowChunk → String → List HotZone → List HotZone
unfolding update_zones new_zone
learn [] chunk today zones =
    if ltb 10_000 chunk.duration || denser 150 chunk
    then zones ++ new_zone chunk today ∷ []
    else zones
learn (overlapping ∷ _) chunk today zones = update_zones chunk today zones

unfoldable pub analyze_and_update_hot_zones : SlowChunk → String → List HotZone → List HotZone
unfolding get_hot_zones_for_range learn
analyze_and_update_hot_zones chunk today zones =
    learn (get_hot_zones_for_range zones chunk.start_id chunk.end_id chunk.datacenter) chunk today
      zones
