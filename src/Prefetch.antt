-- ===== src/Prefetch.antt =====
-- `PrefetchBatchProcessor` of src/export/prefetch_processor.py: a producer that fetches batches and a
-- consumer that takes them, over a bounded queue. A step is what one of them does up to its next
-- `await`; one that waits is `none`. The queue's None, which ends the batches, is `none`. Times are left
-- out.
pub mod Batches
pub mod Kept
pub mod Delivered
pub mod Finishes
pub mod Rounds
pub mod Stopped
mod Tests
use tobs.Prelude.{
  ℕ, zero, suc, ◌+◌, Option, none, some, Bool, true, false, List, [], ◌∷◌, ◌++◌, length, ltb, leb,
  ◌==◌, ◌||◌, if◌then◌else◌,
}

-- Where the producer is: in the loop, waiting to put a batch (the last one or not) or the None, or in
-- one of the two handlers.
pub data Phase : Type 0 where
  fetching putting putting_last signalling cancelled failing done : Phase

-- What the consumer does: it takes batches, has seen the None, waits in `stop` for the producer, has
-- returned from `stop`, or got the producer's error there.
pub data Consumer : Type 0 where
  taking ended stopping stopped stop_raised : Consumer

pub record State (M : Type 0) : Type 0 where
  pub messages : List M
  pub current_batch : List M
  pub phase : Phase
  pub queue : List (Option (List M))
  pub consumer : Consumer
  pub received : List (List M)
  pub batches_fetched : ℕ
  pub batches_processed : ℕ

pub data Actor : Type 0 where
  producer_turn consumer_turn : Actor

-- `fetch_raises`: whether the iterator ends with an error.
pub record Setting (M : Type 0) : Type 0 where
  pub batch_size : ℕ
  pub queue_size : ℕ
  pub skip_condition : M → Bool
  pub fetch_raises : Bool

module _ {M : Type 0} (g : Setting M) where
  -- `asyncio.Queue(maxsize)`, which is unbounded for 0
  abbrev pub has_room : List (Option (List M)) → Bool
  has_room queue = (g.queue_size == 0) || ltb (length queue) g.queue_size

  abbrev pub put : Option (List M) → Phase → State M → Option (State M)
  put item next s =
      if has_room s.queue
      then some (record s { queue = s.queue ++ item ∷ []; phase = next })
      else none

  -- `await self._queue.put(current_batch)` and what follows it
  abbrev pub put_batch : Phase → State M → Option (State M)
  put_batch next s =
      if has_room s.queue
      then some (record s {
        queue = s.queue ++ some s.current_batch ∷ [];
        phase = next;
        current_batch = [];
        batches_fetched = s.batches_fetched + 1;
      })
      else none

  abbrev pub collect : M → List M → State M → State M
  collect message rest s =
      if g.skip_condition message then record s { messages = rest } else record s {
        messages = rest;
        current_batch = s.current_batch ++ message ∷ [];
        phase = (if leb g.batch_size (length s.current_batch + 1) then putting else fetching);
      }

  -- The end of the iterator
  abbrev pub end_of_messages : List M → Phase
  end_of_messages batch =
      if g.fetch_raises then failing else elim batch [ [] ↦ signalling | m ∷ ms ↦ putting_last ]

  abbrev pub fetch_one : List M → State M → State M
  fetch_one [] s = record s { phase = end_of_messages s.current_batch }
  fetch_one (message ∷ rest) s = collect message rest s

  abbrev pub producer_in : Phase → State M → Option (State M)
  producer_in fetching s = some (fetch_one s.messages s)
  producer_in putting s = put_batch fetching s
  producer_in putting_last s = put_batch signalling s
  producer_in signalling s = put none done s
  producer_in cancelled s = put none done s
  producer_in failing s = put none done s
  producer_in done s = none

  unfoldable pub producer : State M → Option (State M)
  producer s = producer_in s.phase s

  -- `get_next_batch`
  unfoldable pub get_next_batch : State M → Option (State M)
  get_next_batch s = elim s.queue [
    | [] ↦ none
    | item ∷ rest ↦ some (elim item [
      | none ↦ record s { queue = rest; consumer = ended }
      | some batch ↦ record s {
        queue = rest;
        received = s.received ++ batch ∷ [];
        batches_processed = s.batches_processed + 1;
      }
    ])
  ]

  -- `stop` until it waits for the producer: the cancellation reaches the producer at its `await`. In
  -- the handler of an error the bare `except` takes it, and the error is raised again.
  abbrev pub cancel : Phase → Phase
  cancel fetching = cancelled
  cancel putting = cancelled
  cancel putting_last = cancelled
  cancel signalling = cancelled
  cancel cancelled = done
  cancel failing = done
  cancel done = done

  abbrev pub stop_in : Phase → State M → State M
  stop_in done s = record s { queue = []; consumer = stopped }
  stop_in failing s = record s { phase = cancel failing; consumer = stop_raised }
  stop_in p s = record s { phase = cancel p; consumer = stopping }

  -- `_stopped`: the consumer has called `stop`.
  abbrev pub is_stopped : Consumer → Bool
  is_stopped taking = false
  is_stopped ended = false
  is_stopped stopping = true
  is_stopped stopped = true
  is_stopped stop_raised = true

  -- A second call returns at once.
  unfoldable pub stop : State M → State M
  stop s = if is_stopped s.consumer then s else stop_in s.phase s

  -- The rest of `stop`, once the producer has ended: the queue is drained.
  abbrev pub stop_resumes : Phase → State M → Option (State M)
  stop_resumes done s = some (record s { queue = []; consumer = stopped })
  stop_resumes p s = none

  abbrev pub consumer_in : Consumer → State M → Option (State M)
  consumer_in taking s = get_next_batch s
  consumer_in stopping s = stop_resumes s.phase s
  consumer_in ended s = none
  consumer_in stopped s = none
  consumer_in stop_raised s = none

  unfoldable pub turn : Actor → State M → Option (State M)
  unfolding producer get_next_batch
  turn producer_turn s = producer s
  turn consumer_turn s = consumer_in s.consumer s

  abbrev pub or_same : State M → Option (State M) → State M
  or_same s none = s
  or_same s (some t) = t

  -- Turns in the order the event loop gives them; one that waits does nothing in its turn.
  abbrev pub run : List Actor → State M → State M
  run [] s = s
  run (actor ∷ actors) s = run actors (or_same s (turn actor s))

abbrev pub start_producer : {M : Type 0} → List M → State M
start_producer messages = record {
  messages = messages;
  current_batch = [];
  phase = fetching;
  queue = [];
  consumer = taking;
  received = [];
  batches_fetched = 0;
  batches_processed = 0;
}
