-- ===== src/Shard/Export/Merge.antt =====
-- The merged export holds every message of the range once, oldest first, however the workers
-- shared the chunks.
use mathlib.Core.List.{append-nil, Permᴰ, reverse}
use mathlib.Core.List.Permᴰ
use tobs.Prelude.{
  ℕ, suc, ◌+◌, ◌-◌, ◌≤◌, ◌<◌, ◌≡◌, refl, sym, ◌∙◌, ap, subst, true, some, List, [], ◌∷◌, ◌++◌, All,
  arith, length, length-append,
}
use tobs.Shard.Fetch.{Message, World}
use tobs.Shard.Fetch.Ranges.{Descending, within, Descending-within}
use tobs.Shard.Fetch.Paging.{Serves}
use tobs.Shard.Fetch.Split.{Chains, Chains-le, gather, gather-perm}
use tobs.Shard.Chunks.{Plan, create_chunks}
use tobs.Shard.Chunks.Tiling.{Tiles, IsPositive, create_chunks-Tiles}
use tobs.Shard.Export.{
  Lane, State, Limits, start_workers, step, Steps, here, next, queued, checked, collect, merge,
}
use tobs.Shard.Export.Sort.{Descending-Distinct, sort-perm, sort-Descending}
use tobs.Shard.Export.Raised.{NoneRaised, start-NoneRaised, Steps-NoneRaised, merge-collects}
use tobs.Shard.Export.Invariant.{Fits, LaneInv, Inv, lanes_messages, Step-Inv}

Chains-Fits :
    (n : Limits) (a b : ℕ) (chunks : List (ℕ × ℕ))
    → Chains a b chunks
    → b + 1 - a < n.fuel
    → All (Fits n) chunks
Chains-Fits n a b [] h f = tt
Chains-Fits n a b ((s, e) ∷ rest) h f =
    let le = Chains-le e b rest h.2 in
    ((omega arith, omega arith), Chains-Fits n e b rest h.2 (omega arith))

Tiles-Chains : (a b : ℕ) (chunks : List (ℕ × ℕ)) → a ≤ b → Tiles a b chunks → Chains a b chunks
Tiles-Chains a b [] h t = omega arith
Tiles-Chains a b ((s, e) ∷ rest) h (p, q, r, t) = (p, omega arith, Tiles-Chains e b rest r t)

module _ {ℓ} {C : Type ℓ} where
  start-messages :
      (archive : List (Message C)) (clients : List (World C))
      → lanes_messages archive (start_workers clients) ≡ []
  unfolding start_workers
  start-messages archive [] = refl
  start-messages archive (client ∷ clients) = start-messages archive clients

  Steps-length : {n : Limits} {s t : State C} → Steps n s t → length t.lanes ≡ length s.lanes
  Steps-length here = refl
  Steps-length (next steps (step before after st)) =
      omega (arith, Steps-length steps, length-append before)

  length-start_workers :
      (clients : List (World C)) → length (start_workers clients) ≡ length clients
  unfolding start_workers
  length-start_workers [] = refl
  length-start_workers (c ∷ clients) = ap suc (length-start_workers clients)

  abbrev pub start : List (ℕ × ℕ) → List (World C) → State C
  start chunks clients = record { task_queue = chunks; lanes = start_workers clients }

  abbrev pub AllFinished : State C → Type 0
  AllFinished s = All (λ (l : Lane C). l.finished ≡ true) s.lanes

  -- Once all workers are finished, each message of the range is in their queues.
  queued-All :
      (archive : List (Message C)) (n : Limits) (patience : ℕ) (tasks : List (ℕ × ℕ))
      (lanes : List (Lane C))
      → All (LaneInv archive n patience tasks) lanes
      → All (λ (l : Lane C). l.finished ≡ true) lanes
      → lanes_messages archive lanes ≡ queued lanes
  unfolding queued
  queued-All archive n patience tasks [] inv f = refl
  queued-All archive n patience tasks (l ∷ lanes) inv f = rw (
    (inv.0.drained f.0).1,
    queued-All archive n patience tasks lanes inv.1 f.1,
    append-nil l.worker.queue,
  )

  tasks_drained :
      (archive : List (Message C)) (n : Limits) (patience : ℕ) (tasks : List (ℕ × ℕ))
      (lanes : List (Lane C))
      → 0 < length lanes
      → All (LaneInv archive n patience tasks) lanes
      → All (λ (l : Lane C). l.finished ≡ true) lanes
      → tasks ≡ []
  tasks_drained archive n patience tasks [] h inv f = absurd (omega arith)
  tasks_drained archive n patience tasks (l ∷ lanes) h inv f = (inv.0.drained f.0).0

module _ {ℓ} {C : Type ℓ} (archive : List (Message C)) (n : Limits) (patience : ℕ)
    (descending : Descending archive) (enough : patience ≤ n.tries) where
  start-lanes :
      (tasks : List (ℕ × ℕ)) (clients : List (World C))
      → All (λ (c : World C). Serves c archive patience) clients
      → All (LaneInv archive n patience tasks) (start_workers clients)
  unfolding start_workers
  start-lanes tasks [] h = tt
  start-lanes tasks (c ∷ clients) h = (
    record { serves = h.0; fits = λ chunk e. cc; drained = λ e. cc },
    start-lanes tasks clients h.1,
  )

  Steps-Inv :
      {s t : State C} (target : List (Message C))
      → Steps n s t
      → Inv archive n patience target s
      → Inv archive n patience target t
  Steps-Inv target here inv = inv
  Steps-Inv target (next steps st) inv =
      Step-Inv archive n patience descending enough target st (Steps-Inv target steps inv)

  merge-whole :
      (target : List (Message C)) (t : State C)
      → Descending target
      → 0 < length t.lanes
      → AllFinished t
      → NoneRaised t.lanes
      → Inv archive n patience target t
      → merge 0 t.lanes ≡ checked (reverse target)
  unfolding collect
  merge-whole target t down some_lane f quiet inv =
      let empty = tasks_drained archive n patience t.task_queue t.lanes some_lane inv.lanes f in
      let all = queued-All archive n patience t.task_queue t.lanes inv.lanes f in
      let whole : Permᴰ (queued t.lanes) target =
        subst (λ q. Permᴰ q target) all
          (subst (λ tasks. Permᴰ (gather archive tasks ++ lanes_messages archive t.lanes) target)
            empty inv.whole) in
      merge-collects 0 t.lanes quiet
      ∙ ap checked (
          sym (sort-perm (Permᴰ.symm whole) (Descending-Distinct target down))
          ∙ sort-Descending target down)

  -- For a history listed newest first, positive chunk sizes, at least one worker, more chunk fuel than
  -- lo to hi has identifiers, more page fuel than lo to hi + 1 has, as many attempts as the servers'
  -- patience, and servers that answer as `Serves` says: the chunks that the plan cuts from lo to hi,
  -- fetched by the workers in any order of steps until all are finished, merge without a limit into the
  -- messages with lo < id ≤ hi, oldest first, each once. Where there is no such message, the merge
  -- raises IndexError.
  pub export-whole :
      (p : Plan) (chunk_fuel lo hi : ℕ) (chunks : List (ℕ × ℕ)) (clients : List (World C))
      (t : State C)
      → IsPositive p
      → lo ≤ hi
      → hi - lo < chunk_fuel
      → hi + 1 - lo < n.fuel
      → 0 < length clients
      → All (λ (c : World C). Serves c archive patience) clients
      → create_chunks chunk_fuel p lo hi ≡ some chunks
      → Steps n (start chunks clients) t
      → AllFinished t
      → merge 0 t.lanes ≡ checked (reverse (within lo (hi + 1) archive))
  export-whole p chunk_fuel lo hi chunks clients t positive ordered enough_chunks fits some_client
        serve cut steps f =
      let (chunks', cut', tiles') = create_chunks-Tiles chunk_fuel p lo hi positive enough_chunks in
      let same : chunks' ≡ chunks = cc in
      let tiles = subst (Tiles lo hi) same tiles' in
      let chained = Tiles-Chains lo hi chunks ordered tiles in
      let target = within lo (hi + 1) archive in
      merge-whole target t (Descending-within lo (hi + 1) archive descending)
        (omega (arith, Steps-length steps, length-start_workers clients)) f
        (Steps-NoneRaised steps (start-NoneRaised clients))
        (Steps-Inv target steps (record {
          lanes = start-lanes chunks clients serve;
          fits = Chains-Fits n lo hi chunks chained fits;
          whole =
              rw (start-messages archive clients, append-nil)
                (gather-perm archive lo hi chunks descending chained);
        }))
