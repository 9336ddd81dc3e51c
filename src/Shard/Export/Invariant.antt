-- ===== src/Shard/Export/Invariant.antt =====
-- What the workers keep while they share the chunks: the messages already streamed and those of the
-- chunks still to fetch are together the messages of the range.
use mathlib.Core.List.{append_assoc, append-nil, Permᴰ}
use mathlib.Core.List.Permᴰ
use tobs.Prelude.{
  ℕ, ◌+◌, ◌-◌, ◌≤◌, ◌<◌, ◌≡◌, ◌≢◌, refl, sym, subst, true, Option, none, some, List, [], ◌∷◌, ◌++◌,
  All, All-append, All-parts, perm_inner, perm_to_front, All-imp,
}
use tobs.Shard.Fetch.{Message, Worker, Error, Outcome, done, failed}
use tobs.Shard.Fetch.Ranges.{Descending, within}
use tobs.Shard.Fetch.Paging.{Serves}
use tobs.Shard.Fetch.Split.{gather, Streams, fetch_chunk-Streams}
use tobs.Shard.Export.{
  Lane, State, Limits, run_chunk, LaneStep, grab, complete, fail, finish, Step, step, queued,
}

module _ {ℓ} {A : Type ℓ} where
  -- A step in the middle of the workers.
  perm_step :
      (g g' b m m' a : List A) {target : List A}
      → Permᴰ (g ++ (m ++ a)) (g' ++ (m' ++ a))
      → Permᴰ (g ++ (b ++ (m ++ a))) target
      → Permᴰ (g' ++ (b ++ (m' ++ a))) target
  perm_step g g' b m m' a h w = Permᴰ.trans (perm_to_front g' b (m' ++ a)) (
      Permᴰ.trans (Permᴰ.append_left b (Permᴰ.symm h))
        (Permᴰ.trans (Permᴰ.symm (perm_to_front g b (m ++ a))) w))

  -- A chunk goes from the task queue to a worker.
  perm_grab : (w g q r : List A) → Permᴰ ((w ++ g) ++ ((q ++ []) ++ r)) (g ++ ((q ++ w) ++ r))
  perm_grab w g q r =
      rw (append-nil q, append_assoc w g (q ++ r), append_assoc q w r)
        (Permᴰ.trans (Permᴰ.symm (perm_to_front g w (q ++ r)))
          (Permᴰ.append_left g (Permᴰ.symm (perm_to_front q w r))))

  -- A chunk's messages go into the queue.
  perm_complete :
      (g q w p r : List A) → Permᴰ p w → Permᴰ (g ++ ((q ++ w) ++ r)) (g ++ (((q ++ p) ++ []) ++ r))
  perm_complete g q w p r perm =
      rw (append-nil (q ++ p)) (perm_inner g r (Permᴰ.append_left q (Permᴰ.symm perm)))

-- A chunk for whose identifiers the fuel is enough.
abbrev pub Fits : Limits → ℕ × ℕ → Type 0
Fits n (s, e) = (s ≤ e) × (e + 1 - s < n.fuel)

module _ {ℓ} {C : Type ℓ} (archive : List (Message C)) where
  streamed :
      (run : Outcome C (Worker C)) (v w : Worker C) (target : List (Message C))
      → Streams archive run v target
      → run ≡ done w
      → (put : List (Message C)) × (w.queue ≡ v.queue ++ put) × Permᴰ put target
  streamed run v w target (w', put, ran, queued, counted, perm) ran' =
      let same : w' ≡ w = cc in (put, subst (λ x. x.queue ≡ v.queue ++ put) same queued, perm)

  abbrev pub chunk_messages : ℕ × ℕ → List (Message C)
  chunk_messages (s, e) = within s (e + 1) archive

  abbrev pub pending : Option (ℕ × ℕ) → List (Message C)
  pending none = []
  pending (some chunk) = chunk_messages chunk

  -- What a worker has streamed or is bound to stream.
  abbrev pub lane_messages : Lane C → List (Message C)
  lane_messages l = l.worker.queue ++ pending l.current

  abbrev pub lanes_messages : List (Lane C) → List (Message C)
  lanes_messages [] = []
  lanes_messages (l ∷ lanes) = lane_messages l ++ lanes_messages lanes

  lanes_messages-append :
      (before after : List (Lane C))
      → lanes_messages (before ++ after) ≡ lanes_messages before ++ lanes_messages after
  lanes_messages-append [] after = refl
  lanes_messages-append (l ∷ before) after =
      rw (lanes_messages-append before after) (sym (append_assoc (lane_messages l) _ _))

  pub record LaneInv (n : Limits) (patience : ℕ) (tasks : List (ℕ × ℕ)) (l : Lane C) : Type ℓ where
    pub serves : Serves l.client archive patience
    pub fits : (chunk : ℕ × ℕ) → l.current ≡ some chunk → Fits n chunk
    pub drained : l.finished ≡ true → (tasks ≡ []) × (l.current ≡ none)

  pub record Inv (n : Limits) (patience : ℕ) (target : List (Message C)) (s : State C)
      : Type ℓ where
    pub lanes : All (LaneInv n patience s.task_queue) s.lanes
    pub fits : All (Fits n) s.task_queue
    pub whole : Permᴰ (gather archive s.task_queue ++ lanes_messages s.lanes) target

  module _ (n : Limits) (patience : ℕ) (descending : Descending archive)
      (enough : patience ≤ n.tries) where
    fetches :
        {tasks : List (ℕ × ℕ)} (l : Lane C)
        → LaneInv n patience tasks l
        → (chunk : ℕ × ℕ) → l.current ≡ some chunk
        → Streams archive (run_chunk n l chunk) l.worker (chunk_messages chunk)
    fetches l inv (s, e) c =
        let (ordered, fits) = inv.fits (s, e) c in
        fetch_chunk-Streams l.client archive patience inv.serves descending n.tries enough n.fuel
          n.slow_chunk_threshold n.slow_chunk_max_retries s e l.worker ordered fits

    never_fails :
        {tasks : List (ℕ × ℕ)} (l : Lane C)
        → LaneInv n patience tasks l
        → (chunk : ℕ × ℕ) → l.current ≡ some chunk
        → {e : Error} {w : Worker C} → run_chunk n l chunk ≢ failed e w
    never_fails l inv chunk c {e} {w} ran = let ended = (fetches l inv chunk c).2 in cc ended

    -- A step of one worker moves messages, and loses none.
    LaneStep-perm :
        {tasks tasks' : List (ℕ × ℕ)} {l l' : Lane C}
        → LaneStep n tasks l tasks' l'
        → LaneInv n patience tasks l
        → (rest : List (Message C))
        → Permᴰ
            (gather archive tasks ++ (lane_messages l ++ rest))
            (gather archive tasks' ++ (lane_messages l' ++ rest))
    LaneStep-perm (grab {l = l} {chunk = chunk} {tasks = tasks} f c) inv rest =
        subst
          (λ o.
            Permᴰ (gather archive (chunk ∷ tasks) ++ ((l.worker.queue ++ pending o) ++ rest))
              (gather archive tasks ++ ((l.worker.queue ++ chunk_messages chunk) ++ rest)))
          (sym c) (perm_grab (chunk_messages chunk) (gather archive tasks) l.worker.queue rest)
    LaneStep-perm (complete {l = l} {tasks = tasks} chunk w c ran) inv rest =
        let (put, queued, perm) =
          streamed (run_chunk n l chunk) l.worker w (chunk_messages chunk) (fetches l inv chunk c)
            ran in
        subst
          (λ o.
            Permᴰ (gather archive tasks ++ ((l.worker.queue ++ pending o) ++ rest))
              (gather archive tasks ++ ((w.queue ++ []) ++ rest)))
          (sym c)
          (subst
            (λ q.
              Permᴰ (gather archive tasks ++ ((l.worker.queue ++ chunk_messages chunk) ++ rest))
                (gather archive tasks ++ ((q ++ []) ++ rest)))
            (sym queued)
            (perm_complete (gather archive tasks) l.worker.queue (chunk_messages chunk) put rest
              perm))
    LaneStep-perm (fail {l = l} {tasks = tasks} chunk e w c ran) inv rest =
        absurd (never_fails l inv chunk c ran)
    LaneStep-perm (finish {l = l} f c) inv rest = Permᴰ.refl _

    LaneStep-drained :
        {tasks tasks' : List (ℕ × ℕ)} {l l' : Lane C}
        → LaneStep n tasks l tasks' l'
        → tasks ≡ []
        → tasks' ≡ []
    LaneStep-drained (grab f c) e = cc
    LaneStep-drained (complete chunk w c ran) e = e
    LaneStep-drained (fail chunk x w c ran) e = e
    LaneStep-drained (finish f c) e = e

    LaneInv-others :
        {tasks tasks' : List (ℕ × ℕ)} (lanes : List (Lane C))
        → (tasks ≡ [] → tasks' ≡ [])
        → All (LaneInv n patience tasks) lanes
        → All (LaneInv n patience tasks') lanes
    LaneInv-others lanes down h =
        All-imp lanes
          (λ l inv. record {
            serves = inv.serves;
            fits = inv.fits;
            drained = λ f. (down (inv.drained f).0, (inv.drained f).1);
          })
          h

    LaneStep-LaneInv :
        {tasks tasks' : List (ℕ × ℕ)} {l l' : Lane C}
        → LaneStep n tasks l tasks' l'
        → All (Fits n) tasks
        → LaneInv n patience tasks l
        → LaneInv n patience tasks' l' × All (Fits n) tasks'
    LaneStep-LaneInv (grab {l = l} {chunk = chunk} f c) fits inv = (
      record {
        serves = inv.serves;
        fits = λ other e. let same : chunk ≡ other = cc in subst (Fits n) same fits.0;
        drained = λ f'. cc;
      },
      fits.1,
    )
    LaneStep-LaneInv (complete {l = l} chunk w c ran) fits inv = (
      record {
        serves = inv.serves;
        fits = λ other e. cc;
        drained = λ f'. ((inv.drained f').0, refl);
      },
      fits,
    )
    LaneStep-LaneInv (fail {l = l} chunk e w c ran) fits inv =
        absurd (never_fails l inv chunk c ran)
    LaneStep-LaneInv (finish {l = l} f c) fits inv =
        (record { serves = inv.serves; fits = inv.fits; drained = λ f'. (refl, c) }, fits)

    -- Every step keeps the invariant.
    pub Step-Inv :
        {s t : State C} (target : List (Message C))
        → Step n s t
        → Inv n patience target s
        → Inv n patience target t
    Step-Inv target (step {tasks = tasks} {tasks' = tasks'} {l = l} {l' = l'} before after st) inv =
        let (inv_before, inv_l, inv_after) = All-parts _ before l after inv.lanes in
        let (inv_l', fits') = LaneStep-LaneInv st inv.fits inv_l in
        let down = LaneStep-drained st in
        record {
          lanes =
              All-append (LaneInv n patience tasks') before (l' ∷ after)
                (LaneInv-others before down inv_before)
                (inv_l', LaneInv-others after down inv_after);
          fits = fits';
          whole = rw (lanes_messages-append before (l' ∷ after)) (
              perm_step (gather archive tasks) (gather archive tasks') (lanes_messages before)
                (lane_messages l) (lane_messages l') (lanes_messages after)
                (LaneStep-perm st inv_l (lanes_messages after))
                (rw (lanes_messages-append before (l ∷ after)) at inv.whole));
        }
