-- ===== src/Downloads/Tests.antt =====
-- A download queue with one worker and room for one task, and the theorems applied there.
use tobs.Prelude.{◌+◌, ◌*◌, ◌≡◌, refl, false, [], ◌∷◌, arith, inr}
use tobs.Downloads.{
  Settings, State, start, new_task, raised, enqueue, put, take, process, Steps, here, next, count,
  register, begin, retry,
}
use tobs.Downloads.Attempts.{InBounds, run-InBounds}
use tobs.Downloads.Stuck.{IsStuck, Kept, Steps-Kept}
use tobs.Downloads.Totals.{run-counted}

abbrev narrow : Settings
narrow = record {
  max_workers = 1;
  max_queue_size = 1;
  retry_delay = 2;
  telegram_error_threshold = 5;
}

abbrev one_registered : State
one_registered = register (new_task 1 10) (start narrow)

abbrev one_queued : State
one_queued = record one_registered { putting = []; queue = new_task 1 10 ∷ [] }

abbrev one_taken : State
one_taken = record one_queued { queue = []; working = begin (new_task 1 10) ∷ [] }

abbrev one_retries : State
one_retries = retry (begin (new_task 1 10)) (record one_taken { working = [] })

one_retries_run : Steps narrow (start narrow) one_retries
one_retries_run =
    next
      (next {u = one_taken}
        (next {u = one_queued} (next {u = one_registered} here (enqueue 1 10))
          (put [] [] (new_task 1 10) refl (inr (omega arith))))
        (take (new_task 1 10) [] (omega arith) refl))
      (process [] [] (begin (new_task 1 10)) (raised false) refl refl)

abbrev two_registered : State
two_registered = register (new_task 2 20) one_retries

-- The worker waits to put the first task back, and the second one fills the queue.
abbrev jammed : State
jammed = record two_registered { putting = []; queue = new_task 2 20 ∷ [] }

jammed_run : Steps narrow (start narrow) jammed
jammed_run =
    next (next {u = two_registered} one_retries_run (enqueue 2 20))
      (put [] [] (new_task 2 20) refl (inr (omega arith)))

jammed-IsStuck : IsStuck narrow jammed
jammed-IsStuck = omega arith

Steps-Kept_example :
    IsStuck narrow (register (new_task 3 30) jammed)
    × Kept narrow jammed (register (new_task 3 30) jammed)
Steps-Kept_example = Steps-Kept narrow jammed-IsStuck (next here (enqueue 3 30))

run-counted_example :
    (jammed.stats.total_queued ≡ 0 + 0 + 0 + (0 + 1 + 0 + 1))
    × (jammed.stats.total_cancelled ≡ 2 * 0 + 0)
    × (jammed.workers + 0 ≡ 1)
unfolding count
run-counted_example = run-counted narrow jammed jammed_run

run-InBounds_example : InBounds jammed
run-InBounds_example = run-InBounds narrow jammed_run
