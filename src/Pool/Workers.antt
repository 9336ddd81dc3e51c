-- ===== src/Pool/Workers.antt =====
-- The limits of the pool over its whole run.
use tobs.Prelude.{
  ℕ, ◌+◌, ◌≤◌, ◌≡◌, refl, sym, ◌∙◌, Option, none, some, Bool, List, [], ◌∷◌, arith, inl, inr,
}
use tobs.Pool.{
  Pool, new_pool, pick, Op, submit, enter, cancel_waiting, return_task, raise_task, cancel_task,
  return_on, complete, consider_scaling, resize_pool, apply, run,
}
use tobs.Pool.Counts.{count}
use tobs.Pool.Capacity.{capacity, IsKnown, apply-Moves}

pub new_pool-IsKnown :
    (max_workers started : ℕ) (auto_scale : Bool)
    → IsKnown (new_pool max_workers auto_scale started)
new_pool-IsKnown max_workers started auto_scale = record { running = tt; waiting = tt }

pub run-IsKnown : (ops : List Op) (p : Pool) → IsKnown p → IsKnown (run ops p)
run-IsKnown [] p known = known
run-IsKnown (op ∷ ops) p known = run-IsKnown ops (apply op p) (apply-Moves op p known).known

-- The numbers of semaphores only grow.
semaphore_grows : (ops : List Op) (p : Pool) → IsKnown p → p.semaphore ≤ (run ops p).semaphore
semaphore_grows [] p known = omega arith
semaphore_grows (op ∷ ops) p known =
    let step = apply-Moves op p known in
    let rest = semaphore_grows ops (apply op p) step.known in
    elim step.moves [
      | inl (same, _, _) ↦ omega (arith, same, rest)
      | inr (next, _) ↦ omega (arith, next, rest)
    ]

-- Where the semaphore stays, so does its capacity.
run-keeps_capacity :
    (ops : List Op) (p : Pool)
    → IsKnown p
    → (run ops p).semaphore ≡ p.semaphore
    → capacity (run ops p) ≡ capacity p
run-keeps_capacity [] p known e = refl
run-keeps_capacity (op ∷ ops) p known e =
    let step = apply-Moves op p known in
    elim step.moves [
      | inl (same, kept, _) ↦ run-keeps_capacity ops (apply op p) step.known (e ∙ sym same) ∙ kept
      | inr (next, _) ↦ absurd (omega (arith, e, next, semaphore_grows ops (apply op p) step.known))
    ]

record Within (p : Pool) : Type 0 where
  low : 2 ≤ p.max_workers
  high : p.max_workers ≤ 20
  few : capacity p ≤ p.max_workers

complete-bounds :
    (now task_time : ℕ) (p : Pool)
    → 2 ≤ p.max_workers
    → p.max_workers ≤ 20
    → (2 ≤ (complete now task_time p).max_workers) × ((complete now task_time p).max_workers ≤ 20)
unfolding consider_scaling resize_pool
complete-bounds now task_time p h k = ground arith

apply-bounds :
    (op : Op) (p : Pool)
    → 2 ≤ p.max_workers
    → p.max_workers ≤ 20
    → (2 ≤ (apply op p).max_workers) × ((apply op p).max_workers ≤ 20)
unfolding apply
apply-bounds submit p h k = (h, k)
apply-bounds (enter k) p h l = ground arith
apply-bounds (cancel_waiting k) p h l = ground arith
apply-bounds (return_task k now task_time) p h l = go (pick k p.running)
  where
    go :
        (o : Option (ℕ × List ℕ))
        → (2 ≤ (return_on o now task_time p).max_workers)
          × ((return_on o now task_time p).max_workers ≤ 20)
    go none = (h, l)
    go (some (i, others)) = complete-bounds now task_time p h l
apply-bounds (raise_task k) p h l = ground arith
apply-bounds (cancel_task k) p h l = ground arith

apply-Within : (op : Op) (p : Pool) → IsKnown p → Within p → Within (apply op p)
apply-Within op p known w =
    let (low, high) = apply-bounds op p w.low w.high in
    record {
      low = low;
      high = high;
      few = elim (apply-Moves op p known).moves [
        | inl (_, kept, same) ↦ omega (arith, kept, same, w.few)
        | inr (_, new) ↦ omega (arith, new)
      ];
    }

run-Within : (ops : List Op) (p : Pool) → IsKnown p → Within p → Within (run ops p)
run-Within [] p known w = w
run-Within (op ∷ ops) p known w =
    run-Within ops (apply op p) (apply-Moves op p known).known (apply-Within op p known w)

-- A pool that starts with 2 to 20 workers has 2 to 20 after any operations, and no more tasks hold its
-- present semaphore, with the free places of it, than `max_workers`.
pub run-limits :
    (max_workers started : ℕ) (auto_scale : Bool) (ops : List Op)
    → 2 ≤ max_workers
    → max_workers ≤ 20
    → let p = run ops (new_pool max_workers auto_scale started) in
      (2 ≤ p.max_workers)
      × (p.max_workers ≤ 20)
      × (p.values p.semaphore + count p.semaphore p.running ≤ p.max_workers)
run-limits max_workers started auto_scale ops h k =
    let w =
      run-Within ops (new_pool max_workers auto_scale started)
        (new_pool-IsKnown max_workers started auto_scale)
        (record { low = h; high = k; few = omega arith }) in
    (w.low, w.high, w.few)

-- When a pool whose semaphore has no free place is scaled up by two, then from there on, until it is
-- scaled again, the free places and the tasks that hold the new semaphore are two together: the places
-- that were in use are given back to the old semaphore, and the pool never has them again.
pub scaled_up-starves :
    (p : Pool) (op : Op) (after : List Op)
    → IsKnown p
    → p.values p.semaphore ≡ 0
    → (apply op p).max_workers ≡ p.max_workers + 2
    → (run after (apply op p)).semaphore ≡ (apply op p).semaphore
    → capacity (run after (apply op p)) ≡ 2
scaled_up-starves p op after known full more same =
    let step = apply-Moves op p known in
    let kept = run-keeps_capacity after (apply op p) step.known same in
    elim step.moves [
      | inl (_, _, workers) ↦ absurd (omega (arith, workers, more))
      | inr (_, new) ↦ omega (arith, kept, new, more, full)
    ]
