-- ===== src/LogBatcher.antt =====
-- `LogBatcher` of src/logging/log_batcher.py, used by several threads. A flush takes the batches under the
-- lock and emits them outside of it, so other calls run in between. The text of an emitted message is the
-- message with its count. The logger does not raise.
pub mod Kept
mod Tests
use tobs.Prelude.{String, ℕ, zero, suc, ◌+◌, Option, none, some, List, [], ◌∷◌, ◌++◌}
use tobs.Dict.{lookup, set_item}

-- `level.upper()`, where an empty level is INFO; `other` has any other name.
pub data Level : Type 0 where
  debug info warning error critical : Level
  other : String → Level

pub record Emitted (M : Type 0) : Type 0 where
  pub level : Level
  pub message : M
  pub count : ℕ

-- `flushing` has, for each flush under way, what it has taken and not yet emitted.
pub record Batcher (M : Type 0) : Type 0 where
  pub batches : List ((Level × M) × ℕ)
  pub flushing : List (List ((Level × M) × ℕ))
  pub emitted : List (Emitted M)

abbrev pub new_batcher : {M : Type 0} → Batcher M
new_batcher = record { batches = []; flushing = []; emitted = [] }

abbrev pub or_zero : Option ℕ → ℕ
or_zero none = 0
or_zero (some n) = n

-- The method of the logger that `flush` calls
abbrev pub flush_level : Level → Level
flush_level debug = debug
flush_level info = info
flush_level warning = warning
flush_level error = info
flush_level critical = info
flush_level (other name) = info

module _ {M : Type 0} where
  -- The first message of the k-th flush under way, and what is left of all
  unfoldable pub next_of :
      ℕ → List (List ((Level × M) × ℕ)) → Option (((Level × M) × ℕ) × List (List ((Level × M) × ℕ)))
  next_of k [] = none
  next_of zero ([] ∷ flushes) = none
  next_of zero ((item ∷ items) ∷ flushes) = some (item, items ∷ flushes)
  next_of (suc k) (items ∷ flushes) = elim (next_of k flushes) [
    | none ↦ none
    | some found ↦ some (found.0, items ∷ found.1)
  ]

-- A call of `lazy_log`, the start of a flush, and the next message of the k-th flush
pub data Op (M : Type 0) : Type 0 where
  log_op : Level → M → Op M
  flush_op : Op M
  emit_op : ℕ → Op M

module _ {M : Type 0} (dec : Discrete (Level × M)) where
  abbrev pub emit : Emitted M → Batcher M → Batcher M
  emit e b = record b { emitted = b.emitted ++ e ∷ [] }

  unfoldable pub batch : Level → M → Batcher M → Batcher M
  unfolding lookup set_item
  batch level message b = record b {
    batches =
        set_item dec (level, message) (or_zero (lookup dec (level, message) b.batches) + 1)
          b.batches;
  }

  abbrev pub lazy_log : Level → M → Batcher M → Batcher M
  lazy_log error message b = emit (record { level = error; message = message; count = 1 }) b
  lazy_log critical message b = emit (record { level = critical; message = message; count = 1 }) b
  lazy_log debug message b = batch debug message b
  lazy_log info message b = batch info message b
  lazy_log warning message b = batch warning message b
  lazy_log (other name) message b = batch (other name) message b

  -- What `flush` does under the lock
  abbrev pub take_batches : Batcher M → Batcher M
  take_batches b = record b { batches = []; flushing = b.batches ∷ b.flushing }

  abbrev pub emit_batch : (Level × M) × ℕ → Batcher M → Batcher M
  emit_batch ((level, message), count) b =
      emit (record { level = flush_level level; message = message; count = count }) b

  abbrev pub emit_next :
      Option (((Level × M) × ℕ) × List (List ((Level × M) × ℕ))) → Batcher M → Batcher M
  emit_next none b = b
  emit_next (some (item, flushes)) b = emit_batch item (record b { flushing = flushes })

  unfoldable pub apply : Op M → Batcher M → Batcher M
  unfolding batch next_of
  apply (log_op level message) b = lazy_log level message b
  apply flush_op b = take_batches b
  apply (emit_op k) b = emit_next (next_of k b.flushing) b

  abbrev pub run : List (Op M) → Batcher M → Batcher M
  run [] b = b
  run (op ∷ ops) b = run ops (apply op b)
