-- ===== src/Downloads/Totals.antt =====
-- Every run of the download queue keeps its statistics in agreement with the tasks, so that what
-- `wait_all` waits for can be told.
use tobs.Prelude.{◌+◌, ◌*◌, ◌<◌, ◌≡◌, ap, true, List, [], ◌∷◌, ◌++◌, length, arith}
use tobs.Downloads.{
  DownloadTask, Settings, State, raised, new_task, begin, process_result, give_up,
  handle_telegram_error, start, Step, enqueue, put, take, process, requeue, unpause, cancel,
  cancelled_download, Steps, here, next, is_in_progress, is_cancelled, count, AllDone,
}
use tobs.Downloads.Accounted.{append, process_result-Holds, after_cancel-Holds}
use tobs.Downloads.Counts.{count-middle, length-middle, count-cancelled, leave, Holds}

module _ (n : Settings) where
  move-Holds :
      (s : State) (before after : List DownloadTask) (task : DownloadTask)
      → s.putting ≡ before ++ task ∷ after
      → Holds n s
      → Holds n (record s { putting = before ++ after; queue = s.queue ++ task ∷ [] })
  move-Holds s before after task e (placed, counted) =
      let more = append s.queue task in
      let size = length-middle before after task in
      let running = count-middle is_in_progress before after task in
      omega (arith, ap length e, ap (count is_in_progress) e)

  requeue-Holds :
      (s : State) (before after : List DownloadTask) (task : DownloadTask)
      → s.retrying ≡ before ++ task ∷ after
      → Holds n s
      → Holds n (record s { retrying = before ++ after; queue = s.queue ++ task ∷ [] })
  requeue-Holds s before after task e (placed, counted) =
      let more = append s.queue task in
      let size = length-middle before after task in
      let running = count-middle is_in_progress before after task in
      omega (arith, ap length e, ap (count is_in_progress) e)

  take-Holds :
      (s : State) (task : DownloadTask) (rest : List DownloadTask)
      → length s.working + length s.retrying < s.workers
      → s.queue ≡ task ∷ rest
      → Holds n s
      → Holds n (record s { queue = rest; working = s.working ++ begin task ∷ [] })
  unfolding count
  take-Holds s task rest free e (placed, counted) =
      let more = append s.working (begin task) in
      omega (arith, ap length e, ap (count is_in_progress) e)

  Step-Holds : {s t : State} → Step n s t → Holds n s → Holds n t
  unfolding count
  Step-Holds {s = s} (enqueue task_id message_id) (placed, counted) =
      let more = append s.putting (new_task task_id message_id) in omega arith
  Step-Holds {s = s} (put before after task e room) holds = move-Holds s before after task e holds
  Step-Holds {s = s} (take task rest free e) holds = take-Holds s task rest free e holds
  Step-Holds {s = s} (process before after task result e live) holds =
      process_result-Holds n s (before ++ after) task result
        (rw live at (leave s before after task e holds.0)) holds
  Step-Holds {s = s} (requeue before after task e room) holds =
      requeue-Holds s before after task e holds
  Step-Holds {s = s} (unpause waiting) (placed, counted) = omega arith
  Step-Holds {s = s} (cancel once) (placed, counted) =
      let (a, b, c) = count-cancelled s.working in omega arith
  Step-Holds {s = s} (cancelled_download before after task e dead) holds =
      after_cancel-Holds n s (before ++ after) task
        (rw dead at (leave s before after task e holds.0)) holds

  start-Holds : Holds n (start n)
  unfolding count
  start-Holds = omega arith

  Steps-Holds : {s : State} → Steps n (start n) s → Holds n s
  Steps-Holds here = start-Holds
  Steps-Holds (next run step) = Step-Holds step (Steps-Holds run)

  -- In every run from the start: the tasks queued are those completed, failed, cancelled by a worker,
  -- or still on their way (in a `put`, queued, worked on, or waiting for a retry). The statistics
  -- count every download that was cancelled twice, once by the time-out and once by its worker, and
  -- every one of them has cost a worker.
  pub run-counted :
      (s : State)
      → Steps n (start n) s
      → (s.stats.total_queued
          ≡ s.stats.total_completed
            + s.stats.total_failed
            + count is_cancelled s.ended
            + (length s.putting + length s.queue + length s.working + length s.retrying))
        × (s.stats.total_cancelled ≡ 2 * count is_cancelled s.ended + count is_cancelled s.working)
        × (s.workers + count is_cancelled s.ended ≡ n.max_workers)
  run-counted s run = let (placed, counted) = Steps-Holds run in omega arith

  -- In every run from the start, where `wait_all` finds nothing queued and nothing in progress, and no
  -- cancellation is under way: every task queued is completed, failed or cancelled, except those of
  -- producers in a `put` and those that wait for a retry.
  pub wait_all-counted :
      (s : State)
      → Steps n (start n) s
      → AllDone s
      → count is_cancelled s.working ≡ 0
      → s.stats.total_queued
        ≡ s.stats.total_completed
          + s.stats.total_failed
          + count is_cancelled s.ended
          + (length s.putting + length s.retrying)
  wait_all-counted s run (empty, idle) none_cancelled =
      let (placed, counted) = Steps-Holds run in omega arith

  -- A server error gives its task up at the first time: the task ends as failed whatever attempts it
  -- has left, and however few server errors came before.
  pub server_error-give_up :
      (task : DownloadTask) (s : State)
      → process_result n (raised true) task s
        ≡ give_up
            (record task { telegram_server_errors = task.telegram_server_errors + 1 })
            (handle_telegram_error n s)
  server_error-give_up task s = ground arith
