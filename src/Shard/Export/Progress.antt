-- ===== src/Shard/Export/Progress.antt =====
-- The workers take finitely many steps.
use tobs.Prelude.{ℕ, ◌+◌, ◌*◌, ◌<◌, ◌≡◌, List, [], ◌∷◌, ◌++◌, length, if◌then◌else◌, is_some, arith}
use tobs.Shard.Export.{Lane, State, Limits, LaneStep, grab, complete, fail, finish, Step, step}

module _ {ℓ} {C : Type ℓ} where
  -- What a worker still has to do: its chunk, and leaving its loop.
  abbrev lane_work : Lane C → ℕ
  lane_work l = (if is_some l.current then 1 else 0) + (if l.finished then 0 else 1)

  abbrev lanes_work : List (Lane C) → ℕ
  lanes_work [] = 0
  lanes_work (l ∷ lanes) = lane_work l + lanes_work lanes

  abbrev pub work : State C → ℕ
  work s = 2 * length s.task_queue + lanes_work s.lanes

  lanes_work-append :
      (before after : List (Lane C))
      → lanes_work (before ++ after) ≡ lanes_work before + lanes_work after
  lanes_work-append [] after = omega arith
  lanes_work-append (l ∷ before) after = omega (arith, lanes_work-append before after)

  LaneStep-work :
      {n : Limits} {tasks tasks' : List (ℕ × ℕ)} {l l' : Lane C}
      → LaneStep n tasks l tasks' l'
      → 2 * length tasks' + lane_work l' < 2 * length tasks + lane_work l
  LaneStep-work (grab {l = l} f c) = ground arith
  LaneStep-work (complete {l = l} chunk w c ran) = ground arith
  LaneStep-work (fail {l = l} chunk e w c ran) = ground arith
  LaneStep-work (finish {l = l} f c) = ground arith

  -- Every step of a worker uses up work, so no run is infinite.
  pub Step-work : {n : Limits} {s t : State C} → Step n s t → work t < work s
  Step-work (step {l = l} {l' = l'} before after st) = omega (
    arith,
    LaneStep-work st,
    lanes_work-append before (l ∷ after),
    lanes_work-append before (l' ∷ after),
  )
