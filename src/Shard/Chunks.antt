-- ===== src/Shard/Chunks.antt =====
-- Step 3 of `fetch_messages` in src/telegram_sharded_client.py: the loop that cuts the identifier
-- range into chunks for the task queue. A chunk (s, e) stands for the identifiers s < id ≤ e.
pub mod Tiling
use tobs.Prelude.{
  ℕ, zero, suc, ◌+◌, ◌-◌, min, Option, none, some, List, [], ◌∷◌, String, ltb, ◌==◌, if◌then◌else◌,
}
use mathlib.Core.Option
use tobs.Shard.Zones.{Config, HotZone, get_optimal_chunk_size, get_chunk_size_for_density}

pub record Plan : Type 0 where
  pub config : Config
  pub zones : List HotZone
  pub density : ℕ
  pub datacenter : String

-- The size at a position: a hot zone's, and where that is the default, the density's.
unfoldable pub chunk_size : Plan → ℕ → ℕ → ℕ
unfolding get_optimal_chunk_size get_chunk_size_for_density
chunk_size p current_id max_id =
    let optimal = get_optimal_chunk_size p.config p.zones current_id max_id p.datacenter in
    if optimal == p.config.shard_chunk_size
    then get_chunk_size_for_density p.config p.density
    else optimal

abbrev pub chunk_end : Plan → ℕ → ℕ → ℕ
chunk_end p current_id max_id =
    min (current_id + min (chunk_size p current_id max_id) (max_id - current_id)) max_id

-- `if current_id < chunk_end: await task_queue.put(...)`
abbrev pub put_chunk : ℕ → ℕ → List (ℕ × ℕ) → List (ℕ × ℕ)
put_chunk current_id end rest = if ltb current_id end then (current_id, end) ∷ rest else rest

-- `while current_id < max_id`; `none` means that the fuel ran out.
unfoldable pub create_chunks : ℕ → Plan → ℕ → ℕ → Option (List (ℕ × ℕ))
create_chunks zero p current_id max_id = none
create_chunks (suc fuel) p current_id max_id =
    let end = chunk_end p current_id max_id in
    let rest = create_chunks fuel p end max_id in
    if ltb current_id max_id then Option.map (put_chunk current_id end) rest else some []
