-- ===== src/Shard/Export.antt =====
-- Steps 4 and 5 of `fetch_messages`, and `_worker_task_streaming`: workers take chunks from the
-- task queue as they become free, and the collector sorts what their message queues hold. The
-- order in which workers act is not determined, so it is a step relation.
pub mod Sort
pub mod Progress
pub mod Invariant
pub mod Raised
pub mod Merge
pub mod Errors
use tobs.Prelude.{
  ℕ, zero, suc, ◌+◌, ◌≡◌, Bool, false, true, Option, none, some, List, [], ◌∷◌, ◌++◌, length, take,
  leb, ◌==◌, if◌then◌else◌,
}
use tobs.Shard.Fetch.{
  Message, World, Worker, Error, index_error, Outcome, done, failed, fetch_chunk,
}

-- A worker with its client, the chunk that it works on, the flags of its message queue, and what
-- `task.exception()` gives once its task is done.
pub record Lane {ℓ} (C : Type ℓ) : Type ℓ where
  pub client : World C
  pub worker : Worker C
  pub current : Option (ℕ × ℕ)
  pub chunks_processed : ℕ
  pub finished : Bool
  pub error : Option Error
  pub task_exception : Option Error

pub record State {ℓ} (C : Type ℓ) : Type ℓ where
  pub task_queue : List (ℕ × ℕ)
  pub lanes : List (Lane C)

-- The numbers that `fetch_chunk` takes from the configuration, and its fuel.
pub record Limits : Type 0 where
  pub tries : ℕ
  pub fuel : ℕ
  pub slow_chunk_threshold : ℕ
  pub slow_chunk_max_retries : ℕ

module _ {ℓ} {C : Type ℓ} where
  -- A fresh entry of `worker_stats` and an empty message queue.
  abbrev pub new_worker : Worker C
  new_worker = record {
    queue = [];
    messages = 0;
    flood_waits = 0;
    requests = 0;
    total_latency = 0;
    stream_time = 0;
    slow_chunks = [];
  }

  abbrev pub new_lane : World C → Lane C
  new_lane client = record {
    client = client;
    worker = new_worker;
    current = none;
    chunks_processed = 0;
    finished = false;
    error = none;
    task_exception = none;
  }

  unfoldable pub start_workers : List (World C) → List (Lane C)
  start_workers [] = []
  start_workers (client ∷ clients) = new_lane client ∷ start_workers clients

  abbrev pub run_chunk : Limits → Lane C → ℕ × ℕ → Outcome C (Worker C)
  run_chunk n l chunk =
      fetch_chunk l.client n.tries n.fuel n.slow_chunk_threshold n.slow_chunk_max_retries chunk
        l.worker

  -- `task_queue.get_nowait()` succeeded
  abbrev pub grabbed : ℕ × ℕ → Lane C → Lane C
  grabbed chunk l = record l { current = some chunk; chunks_processed = l.chunks_processed + 1 }

  abbrev pub completed : Worker C → Lane C → Lane C
  completed w l = record l { worker = w; current = none }

  -- `message_queue.mark_finished(error=e)`; the loop is left, and the chunk is given up. The `except` clause
  -- does not raise again, so that the task ends without an exception.
  abbrev pub broken : Error → Worker C → Lane C → Lane C
  broken e w l = record l { worker = w; current = none; finished = true; error = some e }

  -- `QueueEmpty`: the worker leaves its loop and marks its queue finished
  abbrev pub ended : Lane C → Lane C
  ended l = record l { finished = true }

  -- One step of one worker.
  pub data LaneStep (n : Limits) : List (ℕ × ℕ) → Lane C → List (ℕ × ℕ) → Lane C → Type ℓ where
    grab :
        {l : Lane C} {chunk : ℕ × ℕ} {tasks : List (ℕ × ℕ)}
        → l.finished ≡ false
        → l.current ≡ none
        → LaneStep n (chunk ∷ tasks) l tasks (grabbed chunk l)
    complete :
        {l : Lane C} {tasks : List (ℕ × ℕ)} (chunk : ℕ × ℕ) (w : Worker C)
        → l.current ≡ some chunk
        → run_chunk n l chunk ≡ done w
        → LaneStep n tasks l tasks (completed w l)
    fail :
        {l : Lane C} {tasks : List (ℕ × ℕ)} (chunk : ℕ × ℕ) (e : Error) (w : Worker C)
        → l.current ≡ some chunk
        → run_chunk n l chunk ≡ failed e w
        → LaneStep n tasks l tasks (broken e w l)
    finish : {l : Lane C} → l.finished ≡ false → l.current ≡ none → LaneStep n [] l [] (ended l)

  pub data Step (n : Limits) : State C → State C → Type ℓ where
    step :
        {tasks tasks' : List (ℕ × ℕ)} {l l' : Lane C} (before after : List (Lane C))
        → LaneStep n tasks l tasks' l'
        → Step n
            (record { task_queue = tasks; lanes = before ++ l ∷ after })
            (record { task_queue = tasks'; lanes = before ++ l' ∷ after })

  pub data Steps (n : Limits) (s : State C) : State C → Type ℓ where
    here : Steps n s s
    next : {t u : State C} → Steps n s t → Step n t u → Steps n s u

  -- `all_messages`: the queues one after another, up to the limit; 0 stands for no limit
  unfoldable pub queued : List (Lane C) → List (Message C)
  queued [] = []
  queued (l ∷ lanes) = l.worker.queue ++ queued lanes

  unfoldable pub collect : ℕ → List (Lane C) → List (Message C)
  unfolding queued
  collect limit lanes = if limit == 0 then queued lanes else take limit (queued lanes)

  -- `sort(key=lambda m: m.id)`, which is stable
  unfoldable pub insert : Message C → List (Message C) → List (Message C)
  insert m [] = m ∷ []
  insert m (x ∷ xs) = if leb m.id x.id then m ∷ x ∷ xs else x ∷ insert m xs

  unfoldable pub sort_by_id : List (Message C) → List (Message C)
  unfolding insert
  sort_by_id [] = []
  sort_by_id (m ∷ ms) = insert m (sort_by_id ms)

  -- The log line after the sort reads `all_messages[0]`.
  unfoldable pub checked : List (Message C) → Outcome C (List (Message C))
  checked [] = failed index_error new_worker
  checked (m ∷ ms) = done (m ∷ ms)

  -- `if exc: raise exc`, for the workers in turn until the limit is reached, when all tasks are done
  unfoldable pub raised : ℕ → ℕ → List (Lane C) → Option Error
  raised limit count [] = none
  raised limit count (l ∷ lanes) =
      let count' = count + length l.worker.queue in
      let rest = raised limit count' lanes in
      elim l.task_exception [
        | some exc ↦ some exc
        | none ↦ if limit == 0 then rest else if leb limit count' then none else rest
      ]

  unfoldable pub merge : ℕ → List (Lane C) → Outcome C (List (Message C))
  unfolding collect sort_by_id checked raised
  merge limit lanes = elim (raised limit 0 lanes) [
    | some exc ↦ failed exc new_worker
    | none ↦ checked (sort_by_id (collect limit lanes))
  ]
