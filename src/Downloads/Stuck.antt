-- ===== src/Downloads/Stuck.antt =====
-- A full queue whose workers all wait to put a task back stays as it is.
use tobs.Prelude.{
  suc, ◌≤◌, ◌<◌, ◌≡◌, refl, ◌∙◌, ap, List, [], ◌∷◌, ◌++◌, map, length, length-append, arith, inl,
  inr,
}
use tobs.Downloads.{
  DownloadTask, Settings, State, HasRoom, Step, enqueue, put, take, process, requeue, unpause,
  cancel, cancelled_download, Steps, here, next,
}

-- The queue is bounded and full, and no worker is free or downloading.
pub record IsStuck (n : Settings) (s : State) : Type 0 where
  pub bounded : 0 < n.max_queue_size
  pub full : n.max_queue_size ≤ length s.queue
  pub all_retry : s.workers ≤ length s.retrying
  pub none_work : length s.working ≡ 0

length-middle :
    (before after : List DownloadTask) (task : DownloadTask)
    → length (before ++ task ∷ after) ≡ suc (length (before ++ after))
length-middle before after task =
    omega (arith, length-append before (task ∷ after), length-append before after)

length-map :
    (f : DownloadTask → DownloadTask) (tasks : List DownloadTask)
    → length (map f tasks) ≡ length tasks
length-map f [] = refl
length-map f (task ∷ tasks) = omega (arith, length-map f tasks)

module _ (n : Settings) where
  -- What a stuck state keeps.
  pub record Kept (s t : State) : Type 0 where
    pub queue : t.queue ≡ s.queue
    pub retrying : t.retrying ≡ s.retrying
    pub ended : t.ended ≡ s.ended

  no_room : (s : State) → IsStuck n s → HasRoom n s → ⊥
  no_room s stuck (inl unbounded) = omega (arith, stuck.bounded)
  no_room s stuck (inr room) = omega (arith, stuck.full)

  no_work :
      (s : State) (before after : List DownloadTask) (task : DownloadTask)
      → IsStuck n s
      → s.working ≡ before ++ task ∷ after
      → ⊥
  no_work s before after task stuck e =
      omega (arith, stuck.none_work, ap length e, length-middle before after task)

  Step-Kept : {s t : State} → IsStuck n s → Step n s t → IsStuck n t × Kept s t
  Step-Kept stuck (enqueue task_id message_id) = (
    record {
      bounded = stuck.bounded;
      full = stuck.full;
      all_retry = stuck.all_retry;
      none_work = stuck.none_work;
    },
    record { queue = refl; retrying = refl; ended = refl },
  )
  Step-Kept {s = s} stuck (put before after task e room) = absurd (no_room s stuck room)
  Step-Kept {s = s} stuck (take task rest free e) =
      absurd (omega (arith, stuck.all_retry, stuck.none_work))
  Step-Kept {s = s} stuck (process before after task result e live) =
      absurd (no_work s before after task stuck e)
  Step-Kept {s = s} stuck (requeue before after task e room) = absurd (no_room s stuck room)
  Step-Kept stuck (unpause waiting) = (
    record {
      bounded = stuck.bounded;
      full = stuck.full;
      all_retry = stuck.all_retry;
      none_work = stuck.none_work;
    },
    record { queue = refl; retrying = refl; ended = refl },
  )
  Step-Kept {s = s} stuck (cancel once) = (
    record {
      bounded = stuck.bounded;
      full = stuck.full;
      all_retry = stuck.all_retry;
      none_work = omega (arith, stuck.none_work, length-map _ s.working);
    },
    record { queue = refl; retrying = refl; ended = refl },
  )
  Step-Kept {s = s} stuck (cancelled_download before after task e dead) =
      absurd (no_work s before after task stuck e)

  -- From a state in which the queue is bounded and full while every worker waits to put a task back
  -- after its delay, no run of producers, workers, timers and cancellations ever changes the queue,
  -- the tasks waiting to be put back, or the ended tasks: the download queue is deadlocked.
  pub Steps-Kept : {s t : State} → IsStuck n s → Steps n s t → IsStuck n t × Kept s t
  Steps-Kept stuck here = (stuck, record { queue = refl; retrying = refl; ended = refl })
  Steps-Kept stuck (next run step) =
      let (still, kept) = Steps-Kept stuck run in
      let (still', kept') = Step-Kept still step in
      (
        still',
        record {
          queue = kept'.queue ∙ kept.queue;
          retrying = kept'.retrying ∙ kept.retrying;
          ended = kept'.ended ∙ kept.ended;
        },
      )
