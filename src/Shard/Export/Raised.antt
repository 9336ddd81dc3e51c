-- ===== src/Shard/Export/Raised.antt =====
-- The tasks of the workers end without an exception, whatever fails in them.
use tobs.Prelude.{
  ℕ, ◌+◌, ◌≡◌, refl, none, Bool-cases, inl, inr, List, [], ◌∷◌, All, All-append, All-parts, length,
  leb, ◌==◌,
}
use tobs.Shard.Fetch.{World}
use tobs.Shard.Export.{
  Lane, State, Limits, LaneStep, grab, complete, fail, finish, step, Steps, here, next,
  start_workers, collect, sort_by_id, checked, raised, merge,
}

module _ {ℓ} {C : Type ℓ} where
  abbrev pub NoneRaised : List (Lane C) → Type 0
  NoneRaised lanes = All (λ (l : Lane C). l.task_exception ≡ none) lanes

  pub start-NoneRaised : (clients : List (World C)) → NoneRaised (start_workers clients)
  unfolding start_workers
  start-NoneRaised [] = tt
  start-NoneRaised (c ∷ clients) = (refl, start-NoneRaised clients)

  LaneStep-raises :
      {n : Limits} {tasks tasks' : List (ℕ × ℕ)} {l l' : Lane C}
      → LaneStep n tasks l tasks' l'
      → l.task_exception ≡ none
      → l'.task_exception ≡ none
  LaneStep-raises (grab f c) h = h
  LaneStep-raises (complete chunk w c ran) h = h
  LaneStep-raises (fail chunk e w c ran) h = h
  LaneStep-raises (finish f c) h = h

  pub Steps-NoneRaised :
      {n : Limits} {s t : State C} → Steps n s t → NoneRaised s.lanes → NoneRaised t.lanes
  Steps-NoneRaised here h = h
  Steps-NoneRaised (next steps (step {l = l} {l' = l'} before after st)) h =
      let (front, own, back) =
        All-parts (λ (k : Lane C). k.task_exception ≡ none) before l after
          (Steps-NoneRaised steps h) in
      All-append (λ (k : Lane C). k.task_exception ≡ none) before (l' ∷ after) front
        (LaneStep-raises st own, back)

  raised-none :
      (limit count : ℕ) (lanes : List (Lane C)) → NoneRaised lanes → raised limit count lanes ≡ none
  unfolding raised
  raised-none limit count [] h = refl
  raised-none limit count (l ∷ lanes) h =
      let count' = count + length l.worker.queue in
      let rest = raised-none limit count' lanes h.1 in
      elim (Bool-cases (limit == 0)) [
        | inl none_given ↦ rw (h.0, none_given) rest
        | inr given ↦ elim (Bool-cases (leb limit count')) [
          | inl reached ↦ rw (h.0, given, reached) refl
          | inr below ↦ rw (h.0, given, below) rest
        ]
      ]

  pub merge-collects :
      (limit : ℕ) (lanes : List (Lane C))
      → NoneRaised lanes
      → merge limit lanes ≡ checked (sort_by_id (collect limit lanes))
  unfolding merge
  merge-collects limit lanes h = rw (raised-none limit 0 lanes h, merge) refl
