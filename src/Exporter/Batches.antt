-- ===== src/Exporter/Batches.antt =====
-- The two loops of an export by batches, in `_export_regular_target`: over the messages, and over the
-- batches of the prefetching (`_export_with_prefetch`, `_process_batch_with_stats`). Whether a shutdown is
-- requested at each place where the code asks comes with the message or the batch.
use tobs.Prelude.{
  ℕ, ◌+◌, Bool, true, false, List, [], ◌∷◌, ◌++◌, length, map, keep, ltb, if◌then◌else◌,
}
use tobs.Exporter.{EntityDict, Processed, Progress, write_results, Saves, periodic_save}

pub record Arrival (M : Type 0) : Type 0 where
  pub message : M
  pub stop_before : Bool
  pub stop_after : Bool

-- `io_start`: whether the variable of that name has a value.
pub record Loop (A M K S : Type 0) : Type 0 where
  pub batch : List M
  pub fetched_count : ℕ
  pub io_start : Bool
  pub progress : Progress A
  pub saves : Saves K S

-- The loop goes on, was left by `break`, or an exception left it.
pub data Flow (X : Type 0) : Type 0 where
  going left failed : X → Flow X

abbrev pub state_of : {X : Type 0} → Flow X → X
state_of (going s) = s
state_of (left s) = s
state_of (failed s) = s

abbrev pub is_failed : {X : Type 0} → Flow X → Bool
is_failed (going s) = false
is_failed (left s) = false
is_failed (failed s) = true

pub record Round (M : Type 0) : Type 0 where
  pub batch : List M
  pub stop_before : Bool
  pub stop_after : Bool

-- `has_content` is `msg.text or msg.media`; `is_processed` is the test of the processed ids, which is false
-- in an export that is not resumed: it has none. The ids of a resumed one, which grow as the messages are
-- written, are fixed here. `process` is `_process_message_parallel`, run by the parallel processor, whose
-- results have the order of the messages.
pub record Export (A M K : Type 0) : Type 0 where
  pub has_content : M → Bool
  pub is_processed : M → Bool
  pub process : M → Processed A
  pub batch_size : ℕ
  pub cache_key : K

module _ {A M K S : Type 0} (dec : Discrete K) (cache_set : K → EntityDict → S → S × Bool)
    (x : Export A M K) where
  abbrev pub messages_to_process : List M → List M
  messages_to_process batch = keep x.has_content batch

  -- `process_batch` and the loop that writes the results
  abbrev pub process_messages : List M → Progress A → Progress A
  process_messages messages p = write_results (map x.process messages) p

  -- `if messages_to_process:`
  unfoldable pub process_batch : Loop A M K S → List M → Loop A M K S
  unfolding write_results
  process_batch l [] = l
  process_batch l (m ∷ ms) = record l {
    progress = process_messages (m ∷ ms) l.progress;
    io_start = true;
  }

  -- From the second test for a shutdown to `batch.clear()`
  abbrev pub after_batch : Bool → Loop A M K S → Flow (Loop A M K S)
  after_batch stop l =
      if stop
      then left l
      else going (record l {
        saves = periodic_save dec cache_set x.cache_key l.progress l.saves;
        batch = [];
      })

  -- `time.time() - io_start`, which raises where `io_start` has no value
  abbrev pub use_io_start : Bool → Loop A M K S → Flow (Loop A M K S)
  use_io_start stop l = if l.io_start then after_batch stop l else failed l

  abbrev pub collect : M → Loop A M K S → Loop A M K S
  collect m l = record l { batch = l.batch ++ m ∷ []; fetched_count = l.fetched_count + 1 }

  abbrev pub full_batch : Bool → Loop A M K S → Flow (Loop A M K S)
  full_batch stop l =
      if ltb (length l.batch) x.batch_size
      then going l
      else use_io_start stop (process_batch l (messages_to_process l.batch))

  -- The body of `async for message`
  unfoldable pub receive : Arrival M → Loop A M K S → Flow (Loop A M K S)
  receive a l =
      if a.stop_before
      then left l
      else if x.is_processed a.message
      then going l
      else full_batch a.stop_after (collect a.message l)

  -- `fetch_raises`: whether the messages end with an exception.
  abbrev pub loop_end : Bool → Loop A M K S → Flow (Loop A M K S)
  loop_end fetch_raises l = if fetch_raises then failed l else left l

  unfoldable pub loop : Bool → List (Arrival M) → Loop A M K S → Flow (Loop A M K S)
  unfolding receive
  loop fetch_raises [] l = loop_end fetch_raises l
  loop fetch_raises (a ∷ arrivals) l = elim (receive a l) [
    | going l' ↦ loop fetch_raises arrivals l'
    | left l' ↦ left l'
    | failed l' ↦ failed l'
  ]

  abbrev pub remaining : Flow (Loop A M K S) → Flow (Loop A M K S)
  remaining (going l) = going l
  remaining (left l) = left (process_batch l (messages_to_process l.batch))
  remaining (failed l) = failed l

  abbrev pub start : Progress A → Saves K S → Loop A M K S
  start p v = record { batch = []; fetched_count = 0; io_start = false; progress = p; saves = v }

  -- The export without prefetching
  unfoldable pub export_batches :
      Bool → List (Arrival M) → Progress A → Saves K S → Flow (Loop A M K S)
  unfolding loop process_batch
  export_batches fetch_raises arrivals p v = remaining (loop fetch_raises arrivals (start p v))

  -- `_process_batch_with_stats` on the messages to process: with the result "shutdown" it is `left`
  abbrev pub process_batch_with_stats :
      Bool → List M → Progress A × Saves K S → Flow (Progress A × Saves K S)
  process_batch_with_stats stop [] s = going s
  process_batch_with_stats stop (m ∷ ms) (p, v) =
      let p' = process_messages (m ∷ ms) p in
      if stop then left (p', v) else going (p', periodic_save dec cache_set x.cache_key p' v)

  abbrev pub consume : Round M → Progress A × Saves K S → Flow (Progress A × Saves K S)
  consume r s =
      if r.stop_before
      then left s
      else process_batch_with_stats r.stop_after (messages_to_process r.batch) s

  -- The consumer's loop; the batches end with the None.
  unfoldable pub export_with_prefetch :
      List (Round M) → Progress A × Saves K S → Progress A × Saves K S
  export_with_prefetch [] s = s
  export_with_prefetch (r ∷ rounds) s = elim (consume r s) [
    | going s' ↦ export_with_prefetch rounds s'
    | left s' ↦ s'
    | failed s' ↦ s'
  ]
