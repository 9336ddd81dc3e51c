-- ===== src/LogBatcher/Kept.antt =====
-- No logged message is lost or emitted twice.
use tobs.Prelude.{
  ℕ, zero, suc, ◌+◌, ◌≡◌, refl, Option, none, some, Bool, List, [], ◌∷◌, ◌++◌, arith, if◌then◌else◌,
}
use tobs.Dict.{lookup, set_item}
use tobs.LogBatcher.{
  Level, debug, info, warning, error, critical, other, Emitted, Batcher, new_batcher, or_zero,
  flush_level, batch, lazy_log, take_batches, next_of, Op, log_op, flush_op, emit_op, emit_next,
  apply, run,
}

module _ {M : Type 0} (dec : Discrete (Level × M)) (p : Level → M → Bool) where
  -- The messages that `p` selects by the level they are emitted at, with their counts
  abbrev selected : Level → M → ℕ → ℕ
  selected level message count = if p level message then count else 0

  abbrev pub total_emitted : List (Emitted M) → ℕ
  total_emitted [] = 0
  total_emitted (e ∷ es) = selected e.level e.message e.count + total_emitted es

  abbrev pub total_batches : List ((Level × M) × ℕ) → ℕ
  total_batches [] = 0
  total_batches (((level, message), count) ∷ items) =
      selected (flush_level level) message count + total_batches items

  abbrev pub total_flushing : List (List ((Level × M) × ℕ)) → ℕ
  total_flushing [] = 0
  total_flushing (items ∷ flushes) = total_batches items + total_flushing flushes

  -- The level a message is emitted at
  abbrev pub level_of : Level → Level
  level_of error = error
  level_of critical = critical
  level_of level = flush_level level

  abbrev pub logged : List (Op M) → ℕ
  logged [] = 0
  logged (log_op level message ∷ ops) = selected (level_of level) message 1 + logged ops
  logged (flush_op ∷ ops) = logged ops
  logged (emit_op k ∷ ops) = logged ops

  abbrev pub total : Batcher M → ℕ
  total b = total_emitted b.emitted + total_flushing b.flushing + total_batches b.batches

  total_emitted-append :
      (a b : List (Emitted M)) → total_emitted (a ++ b) ≡ total_emitted a + total_emitted b
  total_emitted-append [] b = omega arith
  total_emitted-append (e ∷ a) b = omega (arith, total_emitted-append a b)

  total-set_item :
      (key : Level × M) (d : List ((Level × M) × ℕ))
      → total_batches (set_item dec key (or_zero (lookup dec key d) + 1) d)
        ≡ total_batches d + selected (flush_level key.0) key.1 1
  unfolding lookup set_item
  total-set_item key [] = ground arith
  total-set_item key ((j, n) ∷ d) = ground (arith, total-set_item key d)

  next_of-total :
      (k : ℕ) (flushes : List (List ((Level × M) × ℕ)))
      → total_flushing flushes ≡ elim (next_of k flushes) [
        | none ↦ total_flushing flushes
        | some found ↦ total_batches (found.0 ∷ []) + total_flushing found.1
      ]
  unfolding next_of
  next_of-total k [] = refl
  next_of-total zero ([] ∷ flushes) = refl
  next_of-total zero ((item ∷ items) ∷ flushes) = omega arith
  next_of-total (suc k) (items ∷ flushes) = ground (arith, next_of-total k flushes)

  lazy_log-total :
      (level : Level) (message : M) (b : Batcher M)
      → total (lazy_log dec level message b) ≡ total b + selected (level_of level) message 1
  unfolding batch
  lazy_log-total debug message b = omega (arith, total-set_item (debug, message) b.batches)
  lazy_log-total info message b = omega (arith, total-set_item (info, message) b.batches)
  lazy_log-total warning message b = omega (arith, total-set_item (warning, message) b.batches)
  lazy_log-total (other name) message b =
      omega (arith, total-set_item (other name, message) b.batches)
  lazy_log-total error message b = omega (
    arith,
    total_emitted-append b.emitted (record { level = error; message = message; count = 1 } ∷ []),
  )
  lazy_log-total critical message b = omega (
    arith,
    total_emitted-append b.emitted (record { level = critical; message = message; count = 1 } ∷ []),
  )

  emit_next-total :
      (b : Batcher M) (o : Option (((Level × M) × ℕ) × List (List ((Level × M) × ℕ))))
      → total_flushing b.flushing ≡ elim o [
        | none ↦ total_flushing b.flushing
        | some found ↦ total_batches (found.0 ∷ []) + total_flushing found.1
      ]
      → total (emit_next dec o b) ≡ total b
  emit_next-total b none h = refl
  emit_next-total b (some (((level, message), count), flushes)) h = omega (
    arith,
    h,
    total_emitted-append b.emitted
        (record { level = flush_level level; message = message; count = count } ∷ []),
  )

  run-total : (ops : List (Op M)) (b : Batcher M) → total (run dec ops b) ≡ total b + logged ops
  unfolding apply
  run-total [] b = omega arith
  run-total (log_op level message ∷ ops) b =
      omega (arith, run-total ops (lazy_log dec level message b), lazy_log-total level message b)
  run-total (flush_op ∷ ops) b = omega (arith, run-total ops (take_batches dec b))
  run-total (emit_op k ∷ ops) b = omega (
    arith,
    run-total ops (emit_next dec (next_of k b.flushing) b),
    emit_next-total b (next_of k b.flushing) (next_of-total k b.flushing),
  )

  -- After any calls of `lazy_log` and any flushes, however they interleave, the counts of the emitted
  -- messages, of those that flushes under way have taken, and of those in the batches add up to the
  -- number of calls, for whichever messages and levels of emission one counts.
  pub run-kept :
      (ops : List (Op M))
      → let b = run dec ops new_batcher in
        total_emitted b.emitted + total_flushing b.flushing + total_batches b.batches ≡ logged ops
  run-kept ops = omega (arith, run-total ops new_batcher)
