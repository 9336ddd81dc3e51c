-- ===== src/Downloads/Accounted.antt =====
-- Every step of the download queue keeps its statistics in agreement with the tasks.
use tobs.Prelude.{
  suc, ◌+◌, ◌≡◌, Bool, true, false, List, [], ◌∷◌, ◌++◌, length, length-append, arith, inl, inr,
  Bool-cases,
}
use tobs.Downloads.{
  pending, completed, failed, cancelled, DownloadTask, Settings, State, Result, result_path,
  missing_result, timed_out, raised, process_result, complete, give_up, retry, after_error,
  retry_or_give_up, should_retry, handle_telegram_error, after_cancel, is_in_progress, is_cancelled,
  count,
}
use tobs.Downloads.Counts.{is_completed, is_failed, count-append, Leaves, Holds}

-- A task of some status is appended to a list of tasks.
pub record Appended (tasks : List DownloadTask) (task : DownloadTask) : Type 0 where
  pub done :
      count is_completed (tasks ++ task ∷ [])
      ≡ count is_completed tasks + count is_completed (task ∷ [])
  pub lost :
      count is_failed (tasks ++ task ∷ []) ≡ count is_failed tasks + count is_failed (task ∷ [])
  pub dead :
      count is_cancelled (tasks ++ task ∷ [])
      ≡ count is_cancelled tasks + count is_cancelled (task ∷ [])
  pub busy :
      count is_in_progress (tasks ++ task ∷ [])
      ≡ count is_in_progress tasks + count is_in_progress (task ∷ [])
  pub size : length (tasks ++ task ∷ []) ≡ suc (length tasks)

pub append : (tasks : List DownloadTask) (task : DownloadTask) → Appended tasks task
append tasks task = record {
  done = count-append is_completed tasks (task ∷ []);
  lost = count-append is_failed tasks (task ∷ []);
  dead = count-append is_cancelled tasks (task ∷ []);
  busy = count-append is_in_progress tasks (task ∷ []);
  size = omega (arith, length-append tasks (task ∷ []));
}

module _ (n : Settings) where
  complete-Holds :
      (s : State) (rest : List DownloadTask) (task : DownloadTask)
      → Leaves s rest 0
      → Holds n s
      → Holds n (complete task (record s { working = rest }))
  unfolding count
  complete-Holds s rest task left (placed, counted) =
      let more = append s.ended (record task { status = completed }) in omega arith

  give_up-Holds :
      (s : State) (rest : List DownloadTask) (task : DownloadTask)
      → Leaves s rest 0
      → Holds n s
      → Holds n (give_up task (record s { working = rest }))
  unfolding count
  give_up-Holds s rest task left (placed, counted) =
      let more = append s.ended (record task { status = failed }) in omega arith

  retry-Holds :
      (s : State) (rest : List DownloadTask) (task : DownloadTask)
      → Leaves s rest 0
      → Holds n s
      → Holds n (retry task (record s { working = rest }))
  unfolding count
  retry-Holds s rest task left (placed, counted) =
      let more = append s.retrying (record task { status = pending }) in omega arith

  retry_or_give_up-Holds :
      (s : State) (rest : List DownloadTask) (task : DownloadTask) (is_telegram_error : Bool)
      → Leaves s rest 0
      → Holds n s
      → Holds n (retry_or_give_up n is_telegram_error task (record s { working = rest }))
  retry_or_give_up-Holds s rest task is_telegram_error left holds =
      elim (Bool-cases (should_retry n is_telegram_error task s.consecutive_telegram_errors)) [
        | inl e ↦ rw e (retry-Holds s rest task left holds)
        | inr e ↦ rw e (give_up-Holds s rest task left holds)
      ]

  handled-Holds : (s : State) → Holds n s → Holds n (handle_telegram_error n s)
  handled-Holds s (placed, counted) = omega arith

  after_error-Holds :
      (s : State) (rest : List DownloadTask) (task : DownloadTask) (is_telegram_error : Bool)
      → Leaves s rest 0
      → Holds n s
      → Holds n (after_error n is_telegram_error task (record s { working = rest }))
  after_error-Holds s rest task false left holds =
      retry_or_give_up-Holds s rest task false left holds
  after_error-Holds s rest task true left holds =
      retry_or_give_up-Holds (handle_telegram_error n s) rest
        (record task { telegram_server_errors = task.telegram_server_errors + 1 }) true
        (record {
          one_less = left.one_less;
          cancelled_left = left.cancelled_left;
          all_known = left.all_known;
        })
        (handled-Holds s holds)

  pub process_result-Holds :
      (s : State) (rest : List DownloadTask) (task : DownloadTask) (result : Result)
      → Leaves s rest 0
      → Holds n s
      → Holds n (process_result n result task (record s { working = rest }))
  process_result-Holds s rest task result_path left holds = complete-Holds s rest task left holds
  process_result-Holds s rest task missing_result left holds =
      after_error-Holds s rest task false left holds
  process_result-Holds s rest task timed_out left holds = give_up-Holds s rest task left holds
  process_result-Holds s rest task (raised is_telegram_error) left holds =
      after_error-Holds s rest task is_telegram_error left holds

  pub after_cancel-Holds :
      (s : State) (rest : List DownloadTask) (task : DownloadTask)
      → Leaves s rest 1
      → Holds n s
      → Holds n (after_cancel task (record s { working = rest }))
  unfolding count
  after_cancel-Holds s rest task left (placed, counted) =
      let more = append s.ended (record task { status = cancelled }) in omega arith
