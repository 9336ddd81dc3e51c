-- ===== src/Pipeline.antt =====
-- `AsyncPipeline.run` of src/export/pipeline.py: one fetcher numbers the messages, several
-- processors work on them at once, and one writer restores the order. The event loop decides who
-- acts next, so the tasks are a step relation over the queues.
pub mod Writing
pub mod Order
pub mod Conserved
pub mod Run
mod Tests
use tobs.Prelude.{ℕ, suc, ◌+◌, ◌<◌, ◌≡◌, Bool, true, false, List, [], ◌∷◌, ◌++◌, length}
use tobs.Pipeline.Writing.{Item, failure, Writer, receive}

-- What the queues and the processors hold.
pub record State (M V : Type 0) : Type 0 where
  pub source : List M
  pub seq : ℕ
  pub fetch_q : List (ℕ × M)
  pub processing : List (ℕ × M)
  pub write_q : List (ℕ × Item V)
  pub writer : Writer V
  pub errors : ℕ

pub record Sizes : Type 0 where
  pub process_workers : ℕ
  pub fetch_queue_size : ℕ
  pub process_queue_size : ℕ

-- `process_fn` raised
abbrev pub error_count : {V : Type 0} → Item V → ℕ
error_count failure = 1
error_count _ = 0

module _ {M V : Type 0} where
  -- The program's functions: `process_fn`, with its exceptions, and whether `writer_fn` returns.
  module _ (process : M → Item V) (accepts : V → Bool) (sizes : Sizes) where
    pub data Step : State M V → State M V → Type 0 where
      fetch :
          {s : State M V} (message : M) (rest : List M)
          → s.source ≡ message ∷ rest
          → length s.fetch_q < sizes.fetch_queue_size
          → Step s (record s {
            source = rest;
            seq = suc s.seq;
            fetch_q = s.fetch_q ++ (suc s.seq, message) ∷ [];
          })
      take :
          {s : State M V} (item : ℕ × M) (rest : List (ℕ × M))
          → s.fetch_q ≡ item ∷ rest
          → length s.processing < sizes.process_workers
          → Step s (record s { fetch_q = rest; processing = s.processing ++ item ∷ [] })
      process_one :
          {s : State M V} (before after : List (ℕ × M)) (seq : ℕ) (message : M)
          → s.processing ≡ before ++ (seq, message) ∷ after
          → length s.write_q < sizes.process_queue_size
          → Step s (record s {
            processing = before ++ after;
            write_q = s.write_q ++ (seq, process message) ∷ [];
            errors = s.errors + error_count (process message);
          })
      write_one :
          {s : State M V} (item : ℕ × Item V) (rest : List (ℕ × Item V))
          → s.write_q ≡ item ∷ rest
          → Step s (record s { write_q = rest; writer = receive accepts item s.writer })

    pub data Steps (s : State M V) : State M V → Type 0 where
      here : Steps s s
      next : {t u : State M V} → Steps s t → Step t u → Steps s u
