-- ===== src/Shard/Tests.antt =====
-- Runs of the sharded export at small inputs, and the theorems applied there.
use native.Mathlib.Nat.{add-zero}
use mathlib.Core.List.{reverse}
use tobs.Prelude.{
  ℕ, zero, suc, ◌+◌, ◌*◌, ◌<◌, ◌≡◌, ◌≢◌, refl, true, false, none, some, List, [], ◌∷◌, take, arith,
}
use tobs.Shard.Zones.{
  HotZone, Config, SlowChunk, critical, get_optimal_chunk_size, get_hot_zones_for_range,
  analyze_and_update_hot_zones,
}
use tobs.Shard.Zones.Learning.{Learned, analyze-Learned}
use tobs.Shard.Chunks.{Plan, chunk_size, create_chunks}
use tobs.Shard.Chunks.Tiling.{Tiles, IsPositive, create_chunks-Tiles}
use tobs.Shard.Fetch.{
  rpc_error, Message, Request, Response, messages, flood_wait, World, Worker, Error, failure,
  fetch_chunk, fetch_pages, send, failed,
}
use tobs.Shard.Fetch.Ranges.{Descending, within}
use tobs.Shard.Fetch.Paging.{Serves}
use tobs.Shard.Fetch.Split.{Streams, fetch_chunk-Streams}
use tobs.Shard.Export.{
  broken, ended, completed, Lane, State, Limits, new_lane, new_worker, start_workers, Steps, Step,
  here, next, step, grab, complete, finish, checked, merge, grabbed, run_chunk, collect, sort_by_id,
}
use tobs.Shard.Export.Errors.{merge-ignores_failure}
use tobs.Shard.Export.Merge.{start, export-whole}
use tobs.Shard.Export.Progress.{work, Step-work}
use tobs.Shard.Bounds.{max_id, effective_min}
use tobs.Shard.Bounds.Oldest.{export-misses_oldest}

abbrev zone : HotZone
zone = record {
  id_start = 100;
  id_end = 200;
  datacenter = "DC2";
  optimal_chunk_size = 40;
  avg_latency = 91_400;
  message_density = 181_000;
  severity = critical;
  last_observed = "2025-12-05";
  observation_count = 1;
}

abbrev config : Config
config = record {
  enable_hot_zones = true;
  shard_chunk_size = 1_000;
  density_very_high_threshold = 150_000;
  density_high_threshold = 100_000;
  density_medium_threshold = 50_000;
  chunk_size_very_high_density = 5_000;
  chunk_size_high_density = 10_000;
  chunk_size_medium_density = 15_000;
  chunk_size_low_density = 50_000;
}

abbrev plan : Plan
plan = record { config = config; zones = zone ∷ []; density = 50_000; datacenter = "DC2" }

plan-IsPositive : IsPositive plan
plan-IsPositive = omega arith

abbrev slow : SlowChunk
slow = record { start_id = 300; end_id = 400; duration = 12_000; messages = 4; datacenter = "DC2" }

create_chunks-test : create_chunks 90 plan 150 230 ≡ some ((150, 190) ∷ (190, 230) ∷ [])
unfolding create_chunks chunk_size
create_chunks-test = refl

create_chunks-Tiles_example :
    (chunks : List (ℕ × ℕ)) × (create_chunks 90 plan 150 230 ≡ some chunks) × Tiles 150 230 chunks
create_chunks-Tiles_example = create_chunks-Tiles 90 plan 150 230 plan-IsPositive (omega arith)

analyze-Learned_example :
    Learned slow
      (get_hot_zones_for_range (zone ∷ []) 300 400 "DC2")
      (get_optimal_chunk_size config (zone ∷ []) 350 900 "DC2")
      (get_optimal_chunk_size config
        (analyze_and_update_hot_zones slow "today" (zone ∷ []))
        350
        900
        "DC2")
analyze-Learned_example =
    analyze-Learned config slow "today" (zone ∷ []) 350 900 refl (omega arith) (omega arith)
      (omega arith) (omega arith)

abbrev message : ℕ → Message ℕ
message id = record { id = id; content = 10 * id }

abbrev history : List (Message ℕ)
history = message 7 ∷ message 6 ∷ message 5 ∷ []

history-Descending : Descending history
history-Descending = omega arith

-- A server that makes the first request wait.
abbrev answer : ℕ → Request → Response ℕ
answer zero r = flood_wait 3
answer (suc n) r = messages (take r.limit (within r.min_id r.offset_id history))

abbrev server : World ℕ
server = record { reply = answer; latency = λ n. 40; elapsed = λ a b. 1; stream_ms = λ n. 1 }

server-answers :
    (n : ℕ) (r : Request) (ms : List (Message ℕ))
    → answer n r ≡ messages ms
    → ms ≡ take r.limit (within r.min_id r.offset_id history)
server-answers zero r ms e = cc
server-answers (suc n) r ms e = cc

server-patient :
    (n : ℕ) (r : Request)
    → (k : ℕ) × (ms : List (Message ℕ)) × (k < 2) × (answer (n + k) r ≡ messages ms)
server-patient zero r = (1, _, omega arith, refl)
server-patient (suc n) r =
    (0, take r.limit (within r.min_id r.offset_id history), omega arith, rw add-zero)

server_never_fails : (n : ℕ) (r : Request) (e : Error) → answer n r ≢ failure e
server_never_fails zero r e = λ h. cc
server_never_fails (suc n) r e = λ h. cc

server-Serves : Serves server history 2
server-Serves = record {
  answers = server-answers;
  no_failure = server_never_fails;
  patient = server-patient;
}

abbrev limits : Limits
limits = record { tries = 2; fuel = 10; slow_chunk_threshold = 10_000; slow_chunk_max_retries = 2 }

fetch_chunk-Streams_example :
    Streams history
      (fetch_chunk server 2 10 10_000 2 (4, 7) new_worker)
      new_worker
      (within 4 8 history)
fetch_chunk-Streams_example =
    fetch_chunk-Streams server history 2 server-Serves history-Descending 2 (omega arith) 10 10_000
      2 4 7 new_worker (omega arith) (omega arith)

-- One worker fetches the chunk from 5 to 7.
fetched_5_7 :
    Streams history
      (fetch_chunk server 2 10 10_000 2 (5, 7) new_worker)
      new_worker
      (within 5 8 history)
fetched_5_7 =
    fetch_chunk-Streams server history 2 server-Serves history-Descending 2 (omega arith) 10 10_000
      2 5 7 new_worker (omega arith) (omega arith)

abbrev fetched : Worker ℕ
fetched = fetched_5_7.0

abbrev lane : Lane ℕ
lane = record (new_lane server) { worker = fetched; chunks_processed = 0 + 1; finished = true }

abbrev final : State ℕ
final = record { task_queue = []; lanes = lane ∷ [] }

abbrev chunk_5_7 : List (ℕ × ℕ)
chunk_5_7 = (5, 7) ∷ []

steps : Steps limits (start chunk_5_7 (server ∷ [])) final
unfolding start_workers
steps =
    next
      (next (next here (step [] [] (grab refl refl)))
        (step [] [] (complete (5, 7) fetched refl fetched_5_7.2)))
      (step [] [] (finish refl refl))

cut_5_7 : create_chunks 10 plan 5 7 ≡ some chunk_5_7
unfolding create_chunks chunk_size
cut_5_7 = refl

export-whole_example : merge 0 final.lanes ≡ checked (reverse (within 5 8 history))
export-whole_example =
    export-whole history limits 2 history-Descending (omega arith) plan 10 5 7 chunk_5_7
      (server ∷ []) final plan-IsPositive (omega arith) (omega arith) (omega arith) (omega arith)
      (server-Serves, tt) cut_5_7 steps (refl, tt)

newest_7 : max_id history ≡ some 7
unfolding max_id
newest_7 = refl

oldest_5 : effective_min 0 none (message 5 ∷ []) 7 ≡ 5
unfolding effective_min
oldest_5 = refl

export-misses_oldest_example : merge 0 final.lanes ≡ checked (reverse (message 7 ∷ message 6 ∷ []))
export-misses_oldest_example =
    export-misses_oldest (message 7 ∷ message 6 ∷ []) (message 5) limits 2 plan 10 5 7 chunk_5_7
      (server ∷ []) final history-Descending (omega arith) plan-IsPositive newest_7 oldest_5
      (omega arith) (omega arith) (omega arith) (server-Serves, tt) cut_5_7 steps (refl, tt)

last_step :
    Step limits
      (record { task_queue = []; lanes = record lane { finished = false } ∷ [] })
      (record { task_queue = []; lanes = lane ∷ [] })
last_step = step [] [] (finish refl refl)

Step-work_example :
    work (record { task_queue = []; lanes = lane ∷ [] })
    < work (record { task_queue = []; lanes = record lane { finished = false } ∷ [] })
Step-work_example = Step-work last_step

-- A worker whose server answers with an error, beside one that works
abbrev failing : World ℕ
failing = record {
  reply = λ n r. failure (rpc_error 500);
  latency = λ n. 40;
  elapsed = λ a b. 1;
  stream_ms = λ n. 1;
}

abbrev idle : Lane ℕ
idle = new_lane server

abbrev busy : Lane ℕ
busy = grabbed (5, 7) (new_lane failing)

abbrev asked : Worker ℕ
asked = record new_worker { requests = 1 }

fetch_fails : run_chunk limits busy (5, 7) ≡ failed (rpc_error 500) asked
unfolding fetch_chunk fetch_pages send
fetch_fails = refl

busy-Steps :
    Steps limits
      (start chunk_5_7 (failing ∷ server ∷ []))
      (record { task_queue = []; lanes = busy ∷ idle ∷ [] })
unfolding start_workers
busy-Steps = next here (step [] (idle ∷ []) (grab refl refl))

abbrev both_finished : State ℕ
both_finished = record {
  task_queue = [];
  lanes = broken (rpc_error 500) asked busy ∷ ended idle ∷ [];
}

failed-Steps :
    Steps limits
      (record { task_queue = []; lanes = broken (rpc_error 500) asked busy ∷ idle ∷ [] })
      both_finished
failed-Steps = next here (step (broken (rpc_error 500) asked busy ∷ []) [] (finish refl refl))

merge-ignores_failure_example :
    (merge 0 both_finished.lanes ≡ checked (sort_by_id (collect 0 both_finished.lanes)))
    × (merge 0 (broken (rpc_error 500) asked busy ∷ idle ∷ [])
        ≡ merge 0 (ended (completed asked busy) ∷ idle ∷ []))
merge-ignores_failure_example =
    merge-ignores_failure limits chunk_5_7 (failing ∷ server ∷ []) [] [] (idle ∷ []) busy (5, 7)
      (rpc_error 500) asked both_finished 0 busy-Steps refl fetch_fails failed-Steps
