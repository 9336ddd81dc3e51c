-- ===== src/Shard/Zones/Learning.antt =====
-- What `analyze_and_update_hot_zones` learns.
use Prim.Native.String.{String}
use text.Mathlib.Text.{◌==◌ as str_eq}
use tobs.Prelude.{
  ℕ, Bool, false, ◌&&◌, keep, inl, inr, Bool-cases, if◌then◌else◌, All-parts, ◌≤◌, ◌<◌, ◌≡◌, ◌≢◌,
  refl, true, List, [], ◌∷◌, ◌++◌, ltb, arith, ◌||◌,
}
use tobs.Shard.Zones.{
  HotZone, Config, observe, overlaps, smallest_size, size_of_zones, get_optimal_chunk_size,
  SlowChunk, low, get_hot_zones_for_range, denser, grade, new_zone, update_zones, learn,
  analyze_and_update_hot_zones,
}
use tobs.Shard.Zones.Sizes.{Meets, get_optimal_chunk_size-le}

learn_fresh :
    (chunk : SlowChunk) (today : String) (zones : List HotZone)
    → 10_000 < chunk.duration
    → learn [] chunk today zones ≡ zones ++ new_zone chunk today ∷ []
unfolding learn
learn_fresh chunk today zones slow = ground arith

-- The zones whose size counts in a range of a datacenter
abbrev counts : ℕ → ℕ → String → HotZone → Bool
counts id_start id_end datacenter zone =
    str_eq zone.datacenter datacenter && overlaps zone id_start id_end

abbrev counted : ℕ → ℕ → String → List HotZone → List HotZone
counted id_start id_end datacenter zones = keep (counts id_start id_end datacenter) zones

-- What an update does to a zone
abbrev updated : SlowChunk → String → HotZone → HotZone
updated chunk today zone =
    if counts chunk.start_id chunk.end_id chunk.datacenter zone
    then observe chunk today zone
    else zone

updated-same :
    (chunk : SlowChunk) (today : String) (id_start id_end : ℕ) (datacenter : String)
    (zone : HotZone)
    → (counts id_start id_end datacenter (updated chunk today zone)
        ≡ counts id_start id_end datacenter zone)
      × ((updated chunk today zone).optimal_chunk_size ≡ zone.optimal_chunk_size)
unfolding observe overlaps
updated-same chunk today id_start id_end datacenter zone =
    go (counts chunk.start_id chunk.end_id chunk.datacenter zone)
  where
    go :
        (observed : Bool)
        → let z : HotZone = if observed then observe chunk today zone else zone in
          (counts id_start id_end datacenter z ≡ counts id_start id_end datacenter zone)
          × (z.optimal_chunk_size ≡ zone.optimal_chunk_size)
    go true = (refl, refl)
    go false = (refl, refl)

smallest_size-update_zones :
    (chunk : SlowChunk) (today : String) (id_start id_end : ℕ) (datacenter : String)
    (zones : List HotZone) (best : ℕ)
    → smallest_size best (counted id_start id_end datacenter (update_zones chunk today zones))
      ≡ smallest_size best (counted id_start id_end datacenter zones)
unfolding update_zones smallest_size
smallest_size-update_zones chunk today id_start id_end datacenter [] best = refl
smallest_size-update_zones chunk today id_start id_end datacenter (zone ∷ zones) best =
    let (same, size) = updated-same chunk today id_start id_end datacenter zone in
    let rest = smallest_size-update_zones chunk today id_start id_end datacenter zones in
    go (updated chunk today zone) same size rest
  where
    go :
        (z : HotZone)
        → counts id_start id_end datacenter z ≡ counts id_start id_end datacenter zone
        → z.optimal_chunk_size ≡ zone.optimal_chunk_size
        → ((b : ℕ)
            → smallest_size b (counted id_start id_end datacenter (update_zones chunk today zones))
              ≡ smallest_size b (counted id_start id_end datacenter zones))
        → smallest_size best
            (counted id_start id_end datacenter (z ∷ update_zones chunk today zones))
          ≡ smallest_size best (counted id_start id_end datacenter (zone ∷ zones))
    go z same size rest = elim (Bool-cases (counts id_start id_end datacenter zone)) [
      | inl counted_in ↦ rw (same, counted_in, size) (rest _)
      | inr left_out ↦ rw (same, left_out) (rest best)
    ]

size_of_zones-update_zones :
    (chunk : SlowChunk) (today : String) (id_start id_end : ℕ) (datacenter : String) (default : ℕ)
    (zones : List HotZone)
    → size_of_zones default (counted id_start id_end datacenter (update_zones chunk today zones))
      ≡ size_of_zones default (counted id_start id_end datacenter zones)
unfolding update_zones size_of_zones
size_of_zones-update_zones chunk today id_start id_end datacenter default [] = refl
size_of_zones-update_zones chunk today id_start id_end datacenter default (zone ∷ zones) =
    let (same, size) = updated-same chunk today id_start id_end datacenter zone in
    let rest = size_of_zones-update_zones chunk today id_start id_end datacenter default zones in
    go (updated chunk today zone) same size rest
  where
    go :
        (z : HotZone)
        → counts id_start id_end datacenter z ≡ counts id_start id_end datacenter zone
        → z.optimal_chunk_size ≡ zone.optimal_chunk_size
        → size_of_zones default
            (counted id_start id_end datacenter (update_zones chunk today zones))
          ≡ size_of_zones default (counted id_start id_end datacenter zones)
        → size_of_zones default
            (counted id_start id_end datacenter (z ∷ update_zones chunk today zones))
          ≡ size_of_zones default (counted id_start id_end datacenter (zone ∷ zones))
    go z same size rest = elim (Bool-cases (counts id_start id_end datacenter zone)) [
      | inl counted_in ↦
          rw (same, counted_in, size)
            (smallest_size-update_zones chunk today id_start id_end datacenter zones
              zone.optimal_chunk_size)
      | inr left_out ↦ rw (same, left_out) rest
    ]

-- A chunk that is slow or dense enough for a new zone (more than ten seconds, or more than 150
-- messages per 1000 identifiers) never gets the grade LOW, and a chunk size of at most 15000.
pub grade-ne-low :
    (chunk : SlowChunk)
    → (ltb 10_000 chunk.duration || denser 150 chunk) ≡ true
    → ((grade chunk).0 ≢ low) × ((grade chunk).1 ≤ 15_000)
unfolding grade
grade-ne-low chunk h = ground arith

-- What a slow chunk changes about a chunk size, given the zones that it met: where it met none, the size
-- is afterwards at most the one of its grade, and at most 15000; otherwise it stays.
abbrev pub Learned : SlowChunk → List HotZone → ℕ → ℕ → Type 0
Learned chunk [] before after = (after ≤ (grade chunk).1) × (after ≤ 15_000)
Learned chunk (zone ∷ zones) before after = after ≡ before

-- With hot zones enabled, after a chunk that took more than ten seconds and does not end before it starts
-- is analysed, the chunk size of each range that meets it in its datacenter is at most the size of the
-- chunk's grade, and at most 15000, where the chunk met no zone before; where it met one, the sizes are
-- what they were, however slow the chunk was.
pub analyze-Learned :
    (config : Config) (chunk : SlowChunk) (today : String) (zones : List HotZone)
    (id_start id_end : ℕ)
    → config.enable_hot_zones ≡ true
    → chunk.start_id ≤ chunk.end_id
    → 10_000 < chunk.duration
    → id_start ≤ chunk.end_id
    → chunk.start_id ≤ id_end
    → Learned chunk
        (get_hot_zones_for_range zones chunk.start_id chunk.end_id chunk.datacenter)
        (get_optimal_chunk_size config zones id_start id_end chunk.datacenter)
        (get_optimal_chunk_size config
          (analyze_and_update_hot_zones chunk today zones)
          id_start
          id_end
          chunk.datacenter)
unfolding analyze_and_update_hot_zones learn get_optimal_chunk_size get_hot_zones_for_range new_zone
analyze-Learned config chunk today zones id_start id_end enabled ordered slow below above =
    go (get_hot_zones_for_range zones chunk.start_id chunk.end_id chunk.datacenter)
  where
    fresh :
        get_optimal_chunk_size config
          (zones ++ new_zone chunk today ∷ [])
          id_start
          id_end
          chunk.datacenter
        ≤ (grade chunk).1
    fresh =
        let all =
          get_optimal_chunk_size-le config (zones ++ new_zone chunk today ∷ []) id_start id_end
            chunk.datacenter enabled in
        (All-parts
            (λ zone.
              Meets zone id_start id_end chunk.datacenter
              → get_optimal_chunk_size config (zones ++ new_zone chunk today ∷ []) id_start id_end
                  chunk.datacenter
                ≤ zone.optimal_chunk_size)
            zones (new_zone chunk today) [] all).1
          (refl, below, above)

    go :
        (found : List HotZone)
        → Learned chunk found
            (get_optimal_chunk_size config zones id_start id_end chunk.datacenter)
            (get_optimal_chunk_size config
              (learn found chunk today zones)
              id_start
              id_end
              chunk.datacenter)
    go [] =
        rw (learn_fresh chunk today zones slow)
          (fresh, omega (arith, fresh, (grade-ne-low chunk (ground arith)).1))
    go (z ∷ rest) = rw enabled (
        size_of_zones-update_zones chunk today id_start id_end chunk.datacenter
          config.shard_chunk_size zones)
