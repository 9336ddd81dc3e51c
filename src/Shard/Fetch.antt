-- ===== src/Shard/Fetch.antt =====
-- `_fetch_chunk_streaming` of src/telegram_sharded_client.py, one worker's fetch of a chunk. The
-- server is a parameter: its answer to a request may depend on how many requests came before.
-- Clock readings are parameters too, taken at request counts.
pub mod Ranges
pub mod Paging
pub mod Split
use tobs.Prelude.{
  ℕ, zero, suc, ◌+◌, ◌-◌, ◌*◌, ◌/◌, Bool, ◌&&◌, List, [], ◌∷◌, ◌++◌, length, ltb, if◌then◌else◌,
}

pub record Message {ℓ} (C : Type ℓ) : Type ℓ where
  pub id : ℕ
  pub content : C

-- `GetHistoryRequest`, with the fields that vary.
pub record Request : Type 0 where
  pub offset_id : ℕ
  pub min_id : ℕ
  pub limit : ℕ

pub data Error : Type 0 where
  rpc_error : ℕ → Error
  index_error : Error

pub data Response {ℓ} (C : Type ℓ) : Type ℓ where
  messages : List (Message C) → Response C
  flood_wait : (seconds : ℕ) → Response C
  failure : Error → Response C

pub data Action : Type 0 where
  split_attempted logged : Action

pub record SlowEntry : Type 0 where
  pub start_id : ℕ
  pub end_id : ℕ
  pub duration : ℕ
  pub messages : ℕ
  pub action : Action

-- The worker's telemetry, and what it has put into its message queue.
pub record Worker {ℓ} (C : Type ℓ) : Type ℓ where
  pub queue : List (Message C)
  pub messages : ℕ
  pub flood_waits : ℕ
  pub requests : ℕ
  pub total_latency : ℕ
  pub stream_time : ℕ
  pub slow_chunks : List SlowEntry

-- A failure leaves the worker as it then was. `timeout` is no outcome of the program: it says that
-- the fuel ran out.
pub data Outcome {ℓ} (C A : Type ℓ) : Type ℓ where
  done : A → Outcome C A
  failed : Error → Worker C → Outcome C A
  timeout : Outcome C A

infixl 5 ◌>>=◌
abbrev pub ◌>>=◌ {ℓ} : {C A B : Type ℓ} → Outcome C A → (A → Outcome C B) → Outcome C B
done a >>= f = f a
failed e w >>= f = failed e w
timeout >>= f = timeout

module _ {ℓ} {C : Type ℓ} where
  -- `messages[-1].id`
  abbrev pub last_id : ℕ → List (Message C) → ℕ
  last_id id [] = id
  last_id id (m ∷ ms) = last_id m.id ms

  abbrev pub is_empty : List (Message C) → Bool
  is_empty [] = Bool.true
  is_empty (m ∷ ms) = Bool.false

-- The world: the server, the milliseconds of the request with a given number, the time between
-- two request counts, and the time to stream a buffer.
pub record World {ℓ} (C : Type ℓ) : Type ℓ where
  pub reply : ℕ → Request → Response C
  pub latency : ℕ → ℕ
  pub elapsed : ℕ → ℕ → ℕ
  pub stream_ms : ℕ → ℕ

-- The four parts of a slow chunk.
abbrev pub sub_chunks : ℕ → ℕ → List (ℕ × ℕ)
sub_chunks start_id end_id =
    let size = (end_id - start_id) / 4 in
    (start_id + 0 * size, start_id + 1 * size)
    ∷ (start_id + 1 * size, start_id + 2 * size)
    ∷ (start_id + 2 * size, start_id + 3 * size)
    ∷ (start_id + 3 * size, end_id)
    ∷ []

-- `for a in items`
unfoldable pub for_each {ℓ κ} :
    {C : Type ℓ} {A : Type κ}
    → (A → Worker C → Outcome C (Worker C))
    → List A
    → Worker C
    → Outcome C (Worker C)
for_each body [] s = done s
for_each body (a ∷ items) s = body a s >>= for_each body items

module _ {ℓ} {C : Type ℓ} (world : World C) where
  open world use {reply, latency, elapsed, stream_ms}

  -- `while True: try ... except FloodWaitError`. Each attempt is counted.
  unfoldable pub send : ℕ → Request → Worker C → Outcome C (List (Message C) × Worker C)
  send zero request w = timeout
  send (suc fuel) request w =
      let counted = record w { requests = w.requests + 1 } in
      let again = send fuel request (record counted { flood_waits = w.flood_waits + 1 }) in
      elim (reply w.requests request) [
        | messages ms ↦
            done (ms, record counted { total_latency = w.total_latency + latency w.requests })
        | flood_wait seconds ↦ again
        | failure e ↦ failed e counted
      ]

  module _ (tries : ℕ) where
    -- `while current_offset_id > start_id`: pages of a hundred messages into `message_buffer`
    unfoldable pub fetch_pages :
        ℕ → ℕ → ℕ → List (Message C) → Worker C → Outcome C (List (Message C) × Worker C)
    fetch_pages zero start_id offset_id buffer w = timeout
    fetch_pages (suc fuel) start_id offset_id buffer w =
        let page = do
          (ms, w') ← send tries (record { offset_id = offset_id; min_id = start_id; limit = 100 }) w
          let more = fetch_pages fuel start_id (last_id offset_id ms) (buffer ++ ms) w'
          if is_empty ms
              then done (buffer, w')
              else if ltb (length ms) 100
              then done (buffer ++ ms, w')
              else more
        in if ltb start_id offset_id then page else done (buffer, w)

    unfoldable pub log_slow : ℕ × ℕ → ℕ → ℕ → Action → Worker C → Worker C
    log_slow (start_id, end_id) duration count action w = record w {
      slow_chunks =
          w.slow_chunks
          ++ record {
            start_id = start_id;
            end_id = end_id;
            duration = duration;
            messages = count;
            action = action;
          }
            ∷ [];
    }

    -- Cases 2 and 3: the buffer goes into the message queue, and a slow chunk is logged.
    unfoldable pub stream : ℕ × ℕ → ℕ → List (Message C) → Worker C → Worker C
    unfolding log_slow
    stream chunk duration buffer w =
        let put = record w {
          queue = w.queue ++ buffer;
          stream_time = w.stream_time + stream_ms w.requests;
          messages = w.messages + length buffer;
        } in
        let streamed = if is_empty buffer then w else put in
        if ltb 2_000 duration
        then log_slow chunk duration (length buffer) logged streamed
        else streamed

    -- `max_retries` counts down with each split, so the recursion is on it.
    unfoldable pub fetch_chunk : ℕ → ℕ → ℕ → ℕ × ℕ → Worker C → Outcome C (Worker C)
    unfolding fetch_pages log_slow stream for_each
    fetch_chunk fuel threshold zero (start_id, end_id) w = do
      (buffer, w') ← fetch_pages fuel start_id (end_id + 1) [] w
      done (stream (start_id, end_id) (elapsed w.requests w'.requests) buffer w')
    fetch_chunk fuel threshold (suc max_retries) (start_id, end_id) w = do
      (buffer, w') ← fetch_pages fuel start_id (end_id + 1) [] w
      let duration = elapsed w.requests w'.requests
      let split =
          for_each (fetch_chunk fuel threshold max_retries) (sub_chunks start_id end_id)
            (log_slow (start_id, end_id) duration (length buffer) split_attempted w')
      if ltb threshold duration && ltb 1_000 (end_id - start_id)
          then split
          else done (stream (start_id, end_id) duration buffer w')
