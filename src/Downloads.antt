-- ===== src/Downloads.antt =====
-- `MediaDownloadQueue` of src/media/download_queue.py: producers register tasks, workers download
-- them, with retries, a pause after server errors, and the cancellation of stuck downloads. The
-- event loop decides who acts next, so this is a step relation. What the downloader does with a task
-- is a parameter of the step. Seconds are natural numbers.
pub mod Counts
pub mod Accounted
pub mod Attempts
pub mod Stuck
pub mod Totals
mod Tests
use tobs.Prelude.{
  ℕ, zero, suc, ◌+◌, ◌-◌, ◌*◌, ◌≤◌, ◌<◌, ◌≡◌, ◌⊎◌, min, max, Bool, true, false, not, ◌&&◌, List, [],
  ◌∷◌, ◌++◌, map, length, ltb, leb, if◌then◌else◌,
}

pub data DownloadStatus : Type 0 where
  pending in_progress completed failed cancelled : DownloadStatus

pub record DownloadTask : Type 0 where
  pub task_id : ℕ
  pub message_id : ℕ
  pub status : DownloadStatus
  pub attempts : ℕ
  pub max_attempts : ℕ
  pub telegram_server_errors : ℕ

pub record QueueStats : Type 0 where
  pub total_queued : ℕ
  pub total_completed : ℕ
  pub total_failed : ℕ
  pub total_cancelled : ℕ
  pub peak_queue_size : ℕ
  pub telegram_errors : ℕ

-- How the download of a task ends, when nobody cancels it. `missing_result` is the RuntimeError of a
-- download without a file; the pattern search on a message of an exception is given.
pub data Result : Type 0 where
  result_path : Result
  missing_result : Result
  timed_out : Result
  raised : (is_telegram_error : Bool) → Result

pub record Settings : Type 0 where
  pub max_workers : ℕ
  pub max_queue_size : ℕ
  pub retry_delay : ℕ
  pub telegram_error_threshold : ℕ

-- The tasks of `_tasks` by where they are: in a producer's `put`, in the queue, with a worker, in a
-- worker's retry (its delay and its `put`), or ended.
pub record State : Type 0 where
  pub putting : List DownloadTask
  pub queue : List DownloadTask
  pub working : List DownloadTask
  pub retrying : List DownloadTask
  pub ended : List DownloadTask
  pub workers : ℕ
  pub paused : Bool
  pub consecutive_telegram_errors : ℕ
  pub stats : QueueStats

abbrev pub new_task : ℕ → ℕ → DownloadTask
new_task task_id message_id = record {
  task_id = task_id;
  message_id = message_id;
  status = pending;
  attempts = 0;
  max_attempts = 3;
  telegram_server_errors = 0;
}

abbrev pub start : Settings → State
start n = record {
  putting = [];
  queue = [];
  working = [];
  retrying = [];
  ended = [];
  workers = n.max_workers;
  paused = false;
  consecutive_telegram_errors = 0;
  stats = record {
    total_queued = 0;
    total_completed = 0;
    total_failed = 0;
    total_cancelled = 0;
    peak_queue_size = 0;
    telegram_errors = 0;
  };
}

-- `asyncio.Queue(maxsize=...)` has room; 0 is without a bound
abbrev pub HasRoom : Settings → State → Type 0
HasRoom n s = (n.max_queue_size ≡ 0) ⊎ (length s.queue < n.max_queue_size)

-- The part of `enqueue` before the `put`
abbrev pub register : DownloadTask → State → State
register task s = record s {
  putting = s.putting ++ task ∷ [];
  stats = record s.stats {
    total_queued = s.stats.total_queued + 1;
    peak_queue_size = max s.stats.peak_queue_size (length s.queue + 1);
  };
}

abbrev pub begin : DownloadTask → DownloadTask
begin task = record task { status = in_progress; attempts = task.attempts + 1 }

abbrev pub handle_telegram_error : Settings → State → State
handle_telegram_error n s =
    let count = s.consecutive_telegram_errors + 1 in
    record s {
      consecutive_telegram_errors = count;
      stats = record s.stats { telegram_errors = s.stats.telegram_errors + 1 };
      paused = if leb n.telegram_error_threshold count then true else s.paused;
    }

abbrev pub unpause_after : State → State
unpause_after s = record s {
  paused = false;
  consecutive_telegram_errors = s.consecutive_telegram_errors - 2;
}

-- The three decisions about `should_retry`, in their order
abbrev pub should_retry : Settings → Bool → DownloadTask → ℕ → Bool
should_retry n is_telegram_error task consecutive =
    let first = ltb task.attempts task.max_attempts in
    let second = if is_telegram_error && leb 1 task.telegram_server_errors then false else first in
    if is_telegram_error && leb (n.telegram_error_threshold * 2) consecutive then false else second

abbrev pub complete : DownloadTask → State → State
complete task s = record s {
  ended = s.ended ++ record task { status = completed } ∷ [];
  consecutive_telegram_errors = 0;
  stats = record s.stats { total_completed = s.stats.total_completed + 1 };
}

abbrev pub give_up : DownloadTask → State → State
give_up task s = record s {
  ended = s.ended ++ record task { status = failed } ∷ [];
  stats = record s.stats { total_failed = s.stats.total_failed + 1 };
}

abbrev pub retry : DownloadTask → State → State
retry task s = record s { retrying = s.retrying ++ record task { status = pending } ∷ [] }

-- `except Exception as e`
abbrev pub retry_or_give_up : Settings → Bool → DownloadTask → State → State
retry_or_give_up n is_telegram_error task s =
    if should_retry n is_telegram_error task s.consecutive_telegram_errors
    then retry task s
    else give_up task s

abbrev pub after_error : Settings → Bool → DownloadTask → State → State
after_error n false task s = retry_or_give_up n false task s
after_error n true task s =
    retry_or_give_up n true
      (record task { telegram_server_errors = task.telegram_server_errors + 1 })
      (handle_telegram_error n s)

-- What `_process_task` does with the result, for a task no longer among those being worked on
abbrev pub process_result : Settings → Result → DownloadTask → State → State
process_result n result_path task s = complete task s
process_result n missing_result task s = after_error n false task s
process_result n timed_out task s = give_up task s
process_result n (raised is_telegram_error) task s = after_error n is_telegram_error task s

-- `except asyncio.CancelledError`: the exception is raised again and ends the worker's loop
abbrev pub after_cancel : DownloadTask → State → State
after_cancel task s = record s {
  ended = s.ended ++ record task { status = cancelled } ∷ [];
  workers = s.workers - 1;
  stats = record s.stats { total_cancelled = s.stats.total_cancelled + 1 };
}

abbrev pub mark_cancelled : DownloadTask → DownloadTask
mark_cancelled task = record task { status = cancelled }

abbrev pub cancel_stuck_tasks : State → State
cancel_stuck_tasks s = record s {
  working = map mark_cancelled s.working;
  stats = record s.stats { total_cancelled = s.stats.total_cancelled + length s.working };
}

abbrev pub is_in_progress : DownloadTask → Bool
is_in_progress task = elim task.status [ in_progress ↦ true | _ ↦ false ]

abbrev pub is_cancelled : DownloadTask → Bool
is_cancelled task = elim task.status [ cancelled ↦ true | _ ↦ false ]

-- `sum(1 for t in ... if ...)`
unfoldable pub count : (DownloadTask → Bool) → List DownloadTask → ℕ
count p [] = 0
count p (task ∷ tasks) = (if p task then 1 else 0) + count p tasks

abbrev pub get_pending_count : State → ℕ
get_pending_count s = length s.queue

abbrev pub get_in_progress_count : State → ℕ
get_in_progress_count s =
    count is_in_progress s.putting
    + count is_in_progress s.queue
    + count is_in_progress s.working
    + count is_in_progress s.retrying
    + count is_in_progress s.ended

-- The test with which `wait_all` returns True
abbrev pub AllDone : State → Type 0
AllDone s = (get_pending_count s ≡ 0) × (get_in_progress_count s ≡ 0)

module _ (n : Settings) where
  pub data Step : State → State → Type 0 where
    enqueue :
        {s : State} (task_id message_id : ℕ) → Step s (register (new_task task_id message_id) s)
    put :
        {s : State} (before after : List DownloadTask) (task : DownloadTask)
        → s.putting ≡ before ++ task ∷ after
        → HasRoom n s
        → Step s (record s { putting = before ++ after; queue = s.queue ++ task ∷ [] })
    -- A worker tests `_paused` before it waits for a task, for up to a second, and not after: one that
    -- waits takes a task of a queue that has been paused since. So a task is taken paused or not.
    take :
        {s : State} (task : DownloadTask) (rest : List DownloadTask)
        → length s.working + length s.retrying < s.workers
        → s.queue ≡ task ∷ rest
        → Step s (record s { queue = rest; working = s.working ++ begin task ∷ [] })
    process :
        {s : State} (before after : List DownloadTask) (task : DownloadTask) (result : Result)
        → s.working ≡ before ++ task ∷ after
        → is_cancelled task ≡ false
        → Step s (process_result n result task (record s { working = before ++ after }))
    requeue :
        {s : State} (before after : List DownloadTask) (task : DownloadTask)
        → s.retrying ≡ before ++ task ∷ after
        → HasRoom n s
        → Step s (record s { retrying = before ++ after; queue = s.queue ++ task ∷ [] })
    unpause : {s : State} → s.paused ≡ true → Step s (unpause_after s)
    -- `wait_all` timed out; earlier cancellations have reached their workers
    cancel : {s : State} → count is_cancelled s.working ≡ 0 → Step s (cancel_stuck_tasks s)
    cancelled_download :
        {s : State} (before after : List DownloadTask) (task : DownloadTask)
        → s.working ≡ before ++ task ∷ after
        → is_cancelled task ≡ true
        → Step s (after_cancel task (record s { working = before ++ after }))

  pub data Steps (s : State) : State → Type 0 where
    here : Steps s s
    next : {t u : State} → Steps s t → Step t u → Steps s u
