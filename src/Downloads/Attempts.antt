-- ===== src/Downloads/Attempts.antt =====
-- No task is downloaded more often than its `max_attempts` allow.
use tobs.Prelude.{
  ◌+◌, ◌≤◌, ◌<◌, ◌≡◌, subst, Bool, true, false, List, [], ◌∷◌, ◌++◌, map, arith, inl, inr,
  Bool-cases, All, All-append, All-parts,
}
use tobs.Downloads.{
  DownloadTask, Settings, State, Result, result_path, missing_result, timed_out, raised, new_task,
  begin, process_result, give_up, retry_or_give_up, should_retry, handle_telegram_error,
  mark_cancelled, start, completed, failed, cancelled, Step, enqueue, put, take, process, requeue,
  unpause, cancel, cancelled_download, Steps, here, next,
}

-- Another attempt is left.
abbrev pub Fresh : DownloadTask → Type 0
Fresh task = (task.max_attempts ≡ 3) × (task.attempts < 3)

abbrev pub Tried : DownloadTask → Type 0
Tried task = (task.max_attempts ≡ 3) × (1 ≤ task.attempts) × (task.attempts ≤ 3)

pub record InBounds (s : State) : Type 0 where
  pub putting : All Fresh s.putting
  pub queue : All Fresh s.queue
  pub working : All Tried s.working
  pub retrying : All Fresh s.retrying
  pub ended : All Tried s.ended

-- A task leaves a list: it has what all had, and so have the others.
moved :
    (P : DownloadTask → Type 0) (tasks before after : List DownloadTask) (task : DownloadTask)
    → tasks ≡ before ++ task ∷ after
    → All P tasks
    → P task × All P (before ++ after)
moved P tasks before after task e h =
    let (a, b, c) = All-parts P before task after (subst (All P) e h) in
    (b, All-append P before after a c)

snoc :
    (P : DownloadTask → Type 0) (tasks : List DownloadTask) (task : DownloadTask)
    → All P tasks
    → P task
    → All P (tasks ++ task ∷ [])
snoc P tasks task h k = All-append P tasks (task ∷ []) h (k, tt)

All-cancelled : (tasks : List DownloadTask) → All Tried tasks → All Tried (map mark_cancelled tasks)
All-cancelled [] h = tt
All-cancelled (task ∷ tasks) h = (h.0, All-cancelled tasks h.1)

module _ (n : Settings) where
  give_up-InBounds :
      (task : DownloadTask) (s : State) → Tried task → InBounds s → InBounds (give_up task s)
  give_up-InBounds task s tried inv = record {
    putting = inv.putting;
    queue = inv.queue;
    working = inv.working;
    retrying = inv.retrying;
    ended = snoc Tried s.ended (record task { status = failed }) inv.ended tried;
  }

  retry_or_give_up-InBounds :
      (is_telegram_error : Bool) (task : DownloadTask) (s : State)
      → Tried task
      → InBounds s
      → InBounds (retry_or_give_up n is_telegram_error task s)
  retry_or_give_up-InBounds is_telegram_error task s tried inv =
      elim (Bool-cases (should_retry n is_telegram_error task s.consecutive_telegram_errors)) [
        | inl e ↦ rw e (record {
          putting = inv.putting;
          queue = inv.queue;
          working = inv.working;
          retrying = snoc Fresh s.retrying _ inv.retrying (ground arith);
          ended = inv.ended;
        })
        | inr e ↦ rw e (give_up-InBounds task s tried inv)
      ]

  process_result-InBounds :
      (result : Result) (task : DownloadTask) (s : State)
      → Tried task
      → InBounds s
      → InBounds (process_result n result task s)
  process_result-InBounds result_path task s tried inv = record {
    putting = inv.putting;
    queue = inv.queue;
    working = inv.working;
    retrying = inv.retrying;
    ended = snoc Tried s.ended (record task { status = completed }) inv.ended tried;
  }
  process_result-InBounds missing_result task s tried inv =
      retry_or_give_up-InBounds false task s tried inv
  process_result-InBounds timed_out task s tried inv = give_up-InBounds task s tried inv
  process_result-InBounds (raised false) task s tried inv =
      retry_or_give_up-InBounds false task s tried inv
  process_result-InBounds (raised true) task s tried inv =
      retry_or_give_up-InBounds true
        (record task { telegram_server_errors = task.telegram_server_errors + 1 })
        (handle_telegram_error n s) tried
        (record {
          putting = inv.putting;
          queue = inv.queue;
          working = inv.working;
          retrying = inv.retrying;
          ended = inv.ended;
        })

  Step-InBounds : {s t : State} → Step n s t → InBounds s → InBounds t
  Step-InBounds {s = s} (enqueue task_id message_id) inv = record {
    putting = snoc Fresh s.putting (new_task task_id message_id) inv.putting (omega arith);
    queue = inv.queue;
    working = inv.working;
    retrying = inv.retrying;
    ended = inv.ended;
  }
  Step-InBounds {s = s} (put before after task e room) inv =
      let (fresh, others) = moved Fresh s.putting before after task e inv.putting in
      record {
        putting = others;
        queue = snoc Fresh s.queue task inv.queue fresh;
        working = inv.working;
        retrying = inv.retrying;
        ended = inv.ended;
      }
  Step-InBounds {s = s} (take task rest free e) inv =
      let (fresh, others) = moved Fresh s.queue [] rest task e inv.queue in
      record {
        putting = inv.putting;
        queue = others;
        working = snoc Tried s.working (begin task) inv.working (omega (arith, fresh));
        retrying = inv.retrying;
        ended = inv.ended;
      }
  Step-InBounds {s = s} (process before after task result e live) inv =
      let (tried, others) = moved Tried s.working before after task e inv.working in
      process_result-InBounds result task (record s { working = before ++ after }) tried
        (record {
          putting = inv.putting;
          queue = inv.queue;
          working = others;
          retrying = inv.retrying;
          ended = inv.ended;
        })
  Step-InBounds {s = s} (requeue before after task e room) inv =
      let (fresh, others) = moved Fresh s.retrying before after task e inv.retrying in
      record {
        putting = inv.putting;
        queue = snoc Fresh s.queue task inv.queue fresh;
        working = inv.working;
        retrying = others;
        ended = inv.ended;
      }
  Step-InBounds (unpause waiting) inv = record {
    putting = inv.putting;
    queue = inv.queue;
    working = inv.working;
    retrying = inv.retrying;
    ended = inv.ended;
  }
  Step-InBounds {s = s} (cancel once) inv = record {
    putting = inv.putting;
    queue = inv.queue;
    working = All-cancelled s.working inv.working;
    retrying = inv.retrying;
    ended = inv.ended;
  }
  Step-InBounds {s = s} (cancelled_download before after task e dead) inv =
      let (tried, others) = moved Tried s.working before after task e inv.working in
      record {
        putting = inv.putting;
        queue = inv.queue;
        working = others;
        retrying = inv.retrying;
        ended = snoc Tried s.ended (record task { status = cancelled }) inv.ended tried;
      }

  -- In every run from the start, a task that waits (in a `put`, in the queue or for a retry) has an
  -- attempt left, and a task that is worked on or has ended was attempted between one and three times.
  pub run-InBounds : {s : State} → Steps n (start n) s → InBounds s
  run-InBounds here = record { putting = tt; queue = tt; working = tt; retrying = tt; ended = tt }
  run-InBounds (next run step) = Step-InBounds step (run-InBounds run)
