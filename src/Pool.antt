-- ===== src/Pool.antt =====
-- `AdaptiveTaskPool` of src/core/connection.py: tasks that share a semaphore, which scaling replaces by a
-- new one. A task keeps the semaphore it has asked. Times are whole microseconds; the average time of a
-- task, which decides nothing, is left out.
pub mod Counts
pub mod Capacity
pub mod Workers
mod Tests
use tobs.Prelude.{
  ℕ, zero, suc, ◌+◌, ◌-◌, ◌*◌, min, max, Option, none, some, Bool, true, false, not, ◌&&◌, List, [],
  ◌∷◌, ◌++◌, length, drop, ltb, leb, ◌==◌, if◌then◌else◌,
}

-- `semaphore` is the number of the present one, and `values` has the `_value` of each; `running` and
-- `waiting` have, for each task in `submit`, the semaphore it holds or waits for.
pub record Pool : Type 0 where
  pub max_workers : ℕ
  pub auto_scale : Bool
  pub semaphore : ℕ
  pub values : ℕ → ℕ
  pub running : List ℕ
  pub waiting : List ℕ
  pub active_tasks : ℕ
  pub queued_tasks : ℕ
  pub completed_tasks : ℕ
  pub failed_tasks : ℕ
  pub performance_history : List ℕ
  pub last_scale_time : ℕ

abbrev pub new_pool : ℕ → Bool → ℕ → Pool
new_pool max_workers auto_scale now = record {
  max_workers = max_workers;
  auto_scale = auto_scale;
  semaphore = 0;
  values = λ i. max_workers;
  running = [];
  waiting = [];
  active_tasks = 0;
  queued_tasks = 0;
  completed_tasks = 0;
  failed_tasks = 0;
  performance_history = [];
  last_scale_time = now;
}

abbrev pub put_value : ℕ → ℕ → (ℕ → ℕ) → ℕ → ℕ
put_value i value values j = if j == i then value else values j

-- The k-th task of a list, and the others
unfoldable pub pick : ℕ → List ℕ → Option (ℕ × List ℕ)
pick k [] = none
pick zero (i ∷ tasks) = some (i, tasks)
pick (suc k) (i ∷ tasks) = elim (pick k tasks) [
  | none ↦ none
  | some found ↦ some (found.0, i ∷ found.1)
]

abbrev pub sum : List ℕ → ℕ
sum [] = 0
sum (x ∷ xs) = x + sum xs

-- `_resize_pool`
unfoldable pub resize_pool : ℕ → Pool → Pool
resize_pool new_size p =
    let active_tasks = p.max_workers - p.values p.semaphore in
    record p {
      max_workers = new_size;
      semaphore = p.semaphore + 1;
      values = put_value (p.semaphore + 1) (new_size - min active_tasks new_size) p.values;
    }

-- `recent_avg / historical_avg > 1.2`
abbrev pub performance_degraded : List ℕ → Bool
performance_degraded history =
    leb 5 (length history)
    && ltb 0 (sum history)
    && ltb (60 * sum history) (10 * (length history * sum (drop (length history - 5) history)))

abbrev pub total_capacity : Pool → ℕ
total_capacity p = p.values p.semaphore + p.active_tasks

-- `utilization > 0.8 and queue_pressure > 2 and self.max_workers < 20`, and no worse performance
abbrev pub wants_more : Pool → Bool
wants_more p =
    ltb (4 * total_capacity p) (5 * p.active_tasks)
    && ltb (2 * max p.active_tasks 1) p.queued_tasks
    && ltb p.max_workers 20
    && not (performance_degraded p.performance_history)

-- `utilization < 0.3 and queue_pressure < 0.5 and self.max_workers > 2`, where the utilization is 0
-- without a capacity
abbrev pub wants_less : Pool → Bool
wants_less p =
    (if total_capacity p == 0 then true else ltb (10 * p.active_tasks) (3 * total_capacity p))
    && ltb (2 * p.queued_tasks) (max p.active_tasks 1)
    && ltb 2 p.max_workers

abbrev pub scale : Pool → Pool
scale p =
    if wants_more p
    then resize_pool (min (p.max_workers + 2) 20) p
    else if wants_less p
    then resize_pool (max (p.max_workers - 1) 2) p
    else p

-- `_consider_scaling`, with 30 seconds between two changes
unfoldable pub consider_scaling : ℕ → Pool → Pool
unfolding resize_pool
consider_scaling now p =
    if ltb (now - p.last_scale_time) 30000000 then p else record (scale p) { last_scale_time = now }

abbrev pub last_20 : List ℕ → List ℕ
last_20 history = if ltb 20 (length history) then drop 1 history else history

-- What `submit` does when the task has returned, before it gives the semaphore back
abbrev pub complete : ℕ → ℕ → Pool → Pool
complete now task_time p =
    let counted = record p {
      completed_tasks = p.completed_tasks + 1;
      performance_history = last_20 (p.performance_history ++ task_time ∷ []);
    } in
    if p.auto_scale then consider_scaling now counted else counted

-- `self.active_tasks -= 1`, and the release of the task's semaphore
abbrev pub leave : ℕ → List ℕ → Pool → Pool
leave i others p = record p {
  active_tasks = p.active_tasks - 1;
  running = others;
  values = put_value i (p.values i + 1) p.values;
}

-- What can happen: a call of `submit`; the k-th waiting task gets its semaphore, or is cancelled; the
-- k-th running task returns, raises, or is cancelled.
pub data Op : Type 0 where
  submit : Op
  enter : ℕ → Op
  cancel_waiting : ℕ → Op
  return_task : ℕ → ℕ → ℕ → Op
  raise_task : ℕ → Op
  cancel_task : ℕ → Op

abbrev pub enter_on : Option (ℕ × List ℕ) → Pool → Pool
enter_on none p = p
enter_on (some (i, others)) p = if p.values i == 0 then p else record p {
  values = put_value i (p.values i - 1) p.values;
  waiting = others;
  running = p.running ++ i ∷ [];
  queued_tasks = p.queued_tasks - 1;
  active_tasks = p.active_tasks + 1;
}

-- The count of queued tasks stays.
abbrev pub forget : Option (ℕ × List ℕ) → Pool → Pool
forget none p = p
forget (some (i, others)) p = record p { waiting = others }

abbrev pub leave_on : Option (ℕ × List ℕ) → Pool → Pool
leave_on none p = p
leave_on (some (i, others)) p = leave i others p

abbrev pub return_on : Option (ℕ × List ℕ) → ℕ → ℕ → Pool → Pool
return_on none now task_time p = p
return_on (some (i, others)) now task_time p = leave i others (complete now task_time p)

abbrev pub raise_on : Option (ℕ × List ℕ) → Pool → Pool
raise_on none p = p
raise_on (some (i, others)) p = leave i others (record p { failed_tasks = p.failed_tasks + 1 })

unfoldable pub apply : Op → Pool → Pool
unfolding pick consider_scaling
apply submit p = record p {
  queued_tasks = p.queued_tasks + 1;
  waiting = p.waiting ++ p.semaphore ∷ [];
}
apply (enter k) p = enter_on (pick k p.waiting) p
apply (cancel_waiting k) p = forget (pick k p.waiting) p
apply (return_task k now task_time) p = return_on (pick k p.running) now task_time p
apply (raise_task k) p = raise_on (pick k p.running) p
apply (cancel_task k) p = leave_on (pick k p.running) p

abbrev pub run : List Op → Pool → Pool
run [] p = p
run (op ∷ ops) p = run ops (apply op p)
