-- ===== src/Pool/Tests.antt =====
-- A pool of five with eleven tasks that wait, and the theorems applied there.
use tobs.Prelude.{ℕ, zero, suc, ◌+◌, ◌≤◌, ◌≡◌, refl, true, List, [], ◌∷◌, ◌++◌, arith}
use tobs.Pool.{
  Pool, Op, submit, enter, cancel_waiting, return_task, raise_task, new_pool, apply, run, pick,
  consider_scaling, resize_pool,
}
use tobs.Pool.Counts.{count}
use tobs.Pool.Capacity.{capacity}
use tobs.Pool.Workers.{run-IsKnown, new_pool-IsKnown, run-limits, scaled_up-starves}

abbrev repeated : ℕ → Op → List Op
repeated zero op = []
repeated (suc n) op = op ∷ repeated n op

abbrev filling : List Op
filling = repeated 16 submit ++ repeated 5 (enter 0)

abbrev five : Pool
five = new_pool 5 true 0

abbrev busy : Pool
busy = run filling five

-- One of the five tasks returns after half a minute.
abbrev returns : Op
returns = return_task 0 30000000 1000

-- The other four return, then five of the eleven, which hold the old semaphore.
abbrev draining : List Op
draining =
    repeated 4 (return_task 0 30000001 1000) ++ repeated 5 (enter 0) ++ repeated 5 (raise_task 0)

returns-test : (apply returns busy).max_workers ≡ 7
unfolding apply pick consider_scaling resize_pool
returns-test = refl

draining-test : (run draining (apply returns busy)).values 1 ≡ 2
unfolding apply pick consider_scaling resize_pool
draining-test = refl

busy-full : busy.values busy.semaphore ≡ 0
unfolding apply pick
busy-full = refl

busy-workers : (apply returns busy).max_workers ≡ busy.max_workers + 2
unfolding apply pick consider_scaling resize_pool
busy-workers = refl

draining-semaphore : (run draining (apply returns busy)).semaphore ≡ (apply returns busy).semaphore
unfolding apply pick consider_scaling resize_pool
draining-semaphore = refl

scaled_up-starves_example : capacity (run draining (apply returns busy)) ≡ 2
scaled_up-starves_example =
    scaled_up-starves busy returns draining (run-IsKnown filling five (new_pool-IsKnown 5 0 true))
      busy-full busy-workers draining-semaphore

run-limits_example :
    let p = run (filling ++ returns ∷ draining) (new_pool 5 true 0) in
    (2 ≤ p.max_workers)
    × (p.max_workers ≤ 20)
    × (p.values p.semaphore + count p.semaphore p.running ≤ p.max_workers)
run-limits_example = run-limits 5 0 true (filling ++ returns ∷ draining) (omega arith) (omega arith)

-- Two of the tasks that wait are cancelled.
abbrev cancelling : List Op
cancelling = filling ++ cancel_waiting 3 ∷ cancel_waiting 0 ∷ []

cancelling-test : (run cancelling five).queued_tasks ≡ 11
unfolding apply pick
cancelling-test = refl
