-- ===== src/Shard/Export/Errors.antt =====
-- What the collector makes of a worker that failed.
use tobs.Prelude.{
  ℕ, ◌≡◌, refl, sym, ◌∙◌, ap, none, some, List, [], ◌∷◌, ◌++◌, All-append, All-parts,
}
use tobs.Shard.Fetch.{World, Worker, Error, failed}
use tobs.Shard.Export.{
  Lane, State, Limits, run_chunk, completed, broken, ended, fail, step, Steps, next, queued,
  collect, sort_by_id, checked, merge,
}
use tobs.Shard.Export.Raised.{NoneRaised, start-NoneRaised, Steps-NoneRaised, merge-collects}
use tobs.Shard.Export.Merge.{start}

module _ {ℓ} {C : Type ℓ} where
  queued-same :
      (before after : List (Lane C)) (l l' : Lane C)
      → l.worker.queue ≡ l'.worker.queue
      → queued (before ++ l ∷ after) ≡ queued (before ++ l' ∷ after)
  unfolding queued
  queued-same [] after l l' e = ap (λ q. q ++ queued after) e
  queued-same (k ∷ before) after l l' e =
      ap (λ q. k.worker.queue ++ q) (queued-same before after l l' e)

  collect-same :
      (limit : ℕ) (before after : List (Lane C)) (l l' : Lane C)
      → l.worker.queue ≡ l'.worker.queue
      → collect limit (before ++ l ∷ after) ≡ collect limit (before ++ l' ∷ after)
  unfolding collect
  collect-same limit before after l l' e = rw (queued-same before after l l' e) refl

  -- When the fetch of a chunk fails in a worker, in a run of workers that began with any chunks and
  -- clients, the error ends no later merge: however the run goes on, the merge gives the sorted messages
  -- of the queues (IndexError where there are none). With the failed worker it gives what it would give
  -- had the worker completed the chunk with the messages in its queue and found no more.
  pub merge-ignores_failure :
      (n : Limits) (chunks : List (ℕ × ℕ)) (clients : List (World C)) (tasks : List (ℕ × ℕ))
      (before after : List (Lane C)) (l : Lane C) (chunk : ℕ × ℕ) (e : Error) (w : Worker C)
      (t : State C) (limit : ℕ)
      → Steps n (start chunks clients) (record { task_queue = tasks; lanes = before ++ l ∷ after })
      → l.current ≡ some chunk
      → run_chunk n l chunk ≡ failed e w
      → Steps n (record { task_queue = tasks; lanes = before ++ broken e w l ∷ after }) t
      → (merge limit t.lanes ≡ checked (sort_by_id (collect limit t.lanes)))
        × (merge limit (before ++ broken e w l ∷ after)
            ≡ merge limit (before ++ ended (completed w l) ∷ after))
  merge-ignores_failure n chunks clients tasks before after l chunk e w t limit steps c ran more =
      let quiet = Steps-NoneRaised steps (start-NoneRaised clients) in
      let (front, own, back) =
        All-parts (λ (k : Lane C). k.task_exception ≡ none) before l after quiet in
      let none_broken : NoneRaised (before ++ broken e w l ∷ after) =
        Steps-NoneRaised (next steps (step before after (fail chunk e w c ran)))
          (start-NoneRaised clients) in
      let none_ended : NoneRaised (before ++ ended (completed w l) ∷ after) =
        All-append (λ (k : Lane C). k.task_exception ≡ none) before (ended (completed w l) ∷ after)
          front (own, back) in
      (
        merge-collects limit t.lanes (Steps-NoneRaised more none_broken),
        merge-collects limit (before ++ broken e w l ∷ after) none_broken
            ∙ ap (λ ms. checked (sort_by_id ms))
                (collect-same limit before after (broken e w l) (ended (completed w l)) refl)
            ∙ sym (merge-collects limit (before ++ ended (completed w l) ∷ after) none_ended),
      )
