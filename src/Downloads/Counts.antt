-- ===== src/Downloads/Counts.antt =====
-- The statistics of the download queue account for every task.
use tobs.Prelude.{
  ℕ, suc, ◌+◌, ◌*◌, ◌≤◌, ◌≡◌, refl, ap, Bool, true, false, List, [], ◌∷◌, ◌++◌, map, length,
  length-append, arith,
}
use tobs.Downloads.{
  completed, failed, DownloadTask, Settings, State, mark_cancelled, is_in_progress, is_cancelled,
  count,
}

abbrev pub is_completed : DownloadTask → Bool
is_completed task = elim task.status [ completed ↦ true | _ ↦ false ]

abbrev pub is_failed : DownloadTask → Bool
is_failed task = elim task.status [ failed ↦ true | _ ↦ false ]

pub count-append :
    (p : DownloadTask → Bool) (xs ys : List DownloadTask)
    → count p (xs ++ ys) ≡ count p xs + count p ys
unfolding count
count-append p [] ys = omega arith
count-append p (x ∷ xs) ys = omega (arith, count-append p xs ys)

pub count-middle :
    (p : DownloadTask → Bool) (before after : List DownloadTask) (task : DownloadTask)
    → count p (before ++ task ∷ after) ≡ count p (task ∷ []) + count p (before ++ after)
unfolding count
count-middle p before after task =
    omega (arith, count-append p before (task ∷ after), count-append p before after)

pub length-middle :
    (before after : List DownloadTask) (task : DownloadTask)
    → length (before ++ task ∷ after) ≡ suc (length (before ++ after))
length-middle before after task =
    omega (arith, length-append before (task ∷ after), length-append before after)

pub count-cancelled :
    (tasks : List DownloadTask)
    → (count is_cancelled (map mark_cancelled tasks) ≡ length tasks)
      × (count is_in_progress (map mark_cancelled tasks) ≡ 0)
      × (length (map mark_cancelled tasks) ≡ length tasks)
unfolding count
count-cancelled [] = (refl, refl, refl)
count-cancelled (task ∷ tasks) = let (a, b, c) = count-cancelled tasks in omega arith

-- Where the tasks are, and with which status.
pub record IsPlaced (s : State) : Type 0 where
  pub putting : count is_in_progress s.putting ≡ 0
  pub queue : count is_in_progress s.queue ≡ 0
  pub retrying : count is_in_progress s.retrying ≡ 0
  pub ended_none : count is_in_progress s.ended ≡ 0
  pub working : count is_in_progress s.working + count is_cancelled s.working ≡ length s.working
  pub ended :
      count is_completed s.ended + count is_failed s.ended + count is_cancelled s.ended
      ≡ length s.ended

-- The statistics, and the workers that are left.
pub record IsCounted (n : Settings) (s : State) : Type 0 where
  pub total_queued :
      s.stats.total_queued
      ≡ length s.putting + length s.queue + length s.working + length s.retrying + length s.ended
  pub total_completed : s.stats.total_completed ≡ count is_completed s.ended
  pub total_failed : s.stats.total_failed ≡ count is_failed s.ended
  pub total_cancelled :
      s.stats.total_cancelled ≡ 2 * count is_cancelled s.ended + count is_cancelled s.working
  pub workers : s.workers + count is_cancelled s.ended ≡ n.max_workers
  pub busy : length s.working + length s.retrying ≤ s.workers

statuses-le :
    (tasks : List DownloadTask)
    → count is_in_progress tasks + count is_cancelled tasks ≤ length tasks
unfolding count
statuses-le [] = omega arith
statuses-le (task ∷ tasks) = ground (arith, statuses-le tasks)

-- A worker's task leaves the tasks that are worked on.
pub record Leaves (s : State) (rest : List DownloadTask) (n : ℕ) : Type 0 where
  pub one_less : length s.working ≡ suc (length rest)
  pub cancelled_left : count is_cancelled s.working ≡ n + count is_cancelled rest
  pub all_known : count is_in_progress rest + count is_cancelled rest ≡ length rest

pub leave :
    (s : State) (before after : List DownloadTask) (task : DownloadTask)
    → s.working ≡ before ++ task ∷ after
    → IsPlaced s
    → Leaves s (before ++ after) (count is_cancelled (task ∷ []))
leave s before after task e placed =
    let rest = before ++ after in
    let size = length-middle before after task in
    let running = count-middle is_in_progress before after task in
    let dead = count-middle is_cancelled before after task in
    record {
      one_less = omega (arith, size, ap length e);
      cancelled_left = omega (arith, dead, ap (count is_cancelled) e);
      all_known = omega (
        arith,
        size,
        running,
        dead,
        ap length e,
        ap (count is_cancelled) e,
        ap (count is_in_progress) e,
        placed.working,
        statuses-le rest,
        statuses-le (task ∷ []),
      );
    }

module _ (n : Settings) where
  abbrev pub Holds : State → Type 0
  Holds s = IsPlaced s × IsCounted n s
