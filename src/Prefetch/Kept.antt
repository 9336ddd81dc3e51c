-- ===== src/Prefetch/Kept.antt =====
-- The producer keeps the promise: received, queued and coming batches are those of the loop.
use tobs.Prelude.{
  ◌+◌, ◌≡◌, refl, sym, ap, subst, Option, none, some, Bool, true, false, List, [], ◌∷◌, ◌++◌,
  length, length-append, leb, arith, inl, inr, Bool-cases,
}
use tobs.Prefetch.{
  Phase, fetching, putting, putting_last, signalling, cancelled, failing, done, Consumer, taking,
  ended, stopping, stopped, stop_raised, State, Setting, has_room, producer, producer_in, or_same,
  fetch_one, end_of_messages, put, put_batch,
}
use tobs.Prefetch.Batches.{batch_all, last_batch}

abbrev pub over : Phase → Bool
over done = true
over p = false

module _ {M : Type 0} where
  -- The batches in a queue
  abbrev pub somes : List (Option (List M)) → List (List M)
  somes [] = []
  somes (none ∷ queue) = somes queue
  somes (some batch ∷ queue) = batch ∷ somes queue

  -- The None stands at the end of the queue where the producer has ended, and nowhere before.
  abbrev pub Marked : Bool → List (Option (List M)) → Type 0
  Marked over [] = over ≡ false
  Marked over (none ∷ queue) = (over ≡ true) × (queue ≡ [])
  Marked over (some batch ∷ queue) = Marked over queue

  somes-snoc :
      (queue : List (Option (List M))) (batch : List M)
      → somes (queue ++ some batch ∷ []) ≡ somes queue ++ batch ∷ []
  somes-snoc [] batch = refl
  somes-snoc (none ∷ queue) batch = somes-snoc queue batch
  somes-snoc (some b ∷ queue) batch = rw (somes-snoc queue batch)

  somes-end : (queue : List (Option (List M))) → somes (queue ++ none ∷ []) ≡ somes queue
  somes-end [] = refl
  somes-end (none ∷ queue) = somes-end queue
  somes-end (some b ∷ queue) = rw (somes-end queue)

  Marked-snoc :
      (queue : List (Option (List M))) (batch : List M)
      → Marked false queue
      → Marked false (queue ++ some batch ∷ [])
  Marked-snoc [] batch h = refl
  Marked-snoc (none ∷ queue) batch h = cc
  Marked-snoc (some b ∷ queue) batch h = Marked-snoc queue batch h

  Marked-end :
      (queue : List (Option (List M))) → Marked false queue → Marked true (queue ++ none ∷ [])
  Marked-end [] h = (refl, refl)
  Marked-end (none ∷ queue) h = cc
  Marked-end (some b ∷ queue) h = Marked-end queue h

  batches_assoc : (a b d : List (List M)) → (a ++ b) ++ d ≡ a ++ (b ++ d)
  batches_assoc [] b d = refl
  batches_assoc (x ∷ a) b d = rw (batches_assoc a b d)

  -- The queue while the consumer takes batches, and after it has seen the None
  abbrev pub QueueInv : Consumer → Phase → List (Option (List M)) → Type 0
  QueueInv taking p queue = Marked (over p) queue
  QueueInv ended p queue = (p ≡ done) × (queue ≡ [])
  QueueInv c p queue = ⊥

  module _ (g : Setting M) where
    -- The batches that the producer has still to put, by its phase
    abbrev pub remaining : Phase → List M → List M → List (List M)
    remaining fetching batch ms = batch_all g batch ms
    remaining putting batch ms = batch ∷ batch_all g [] ms
    remaining putting_last batch ms = batch ∷ []
    remaining signalling batch ms = []
    remaining cancelled batch ms = []
    remaining failing batch ms = []
    remaining done batch ms = []

    pub record RunInv (all : List M) (s : State M) : Type 0 where
      pub whole :
          s.received ++ (somes s.queue ++ remaining s.phase s.current_batch s.messages)
          ≡ batch_all g [] all
      pub marks : QueueInv s.consumer s.phase s.queue
      pub fetched : s.batches_fetched ≡ length s.received + length (somes s.queue)
      pub processed : s.batches_processed ≡ length s.received

    QueueInv-step :
        (c : Consumer) (p p' : Phase) (queue queue' : List (Option (List M)))
        → over p ≡ false
        → QueueInv c p queue
        → (Marked false queue → Marked (over p') queue')
        → QueueInv c p' queue'
    QueueInv-step taking p p' queue queue' h k f = f (subst (λ b. Marked b queue) h k)
    QueueInv-step ended p p' queue queue' h k f = absurd (ground (arith, k.0))
    QueueInv-step stopping p p' queue queue' h k f = absurd k
    QueueInv-step stopped p p' queue queue' h k f = absurd k
    QueueInv-step stop_raised p p' queue queue' h k f = absurd k

    put-RunInv :
        (all : List M) (s : State M)
        → over s.phase ≡ false
        → remaining s.phase s.current_batch s.messages ≡ []
        → RunInv all s
        → RunInv all (or_same g s (put g none done s))
    put-RunInv all s h e inv = elim (Bool-cases (has_room g s.queue)) [
      | inr full ↦ rw full inv
      | inl room ↦ rw room (record {
        whole = rw (somes-end s.queue) (rw e at inv.whole);
        marks = QueueInv-step s.consumer s.phase done s.queue _ h inv.marks (Marked-end s.queue);
        fetched = rw (somes-end s.queue) inv.fetched;
        processed = inv.processed;
      })
    ]

    put_batch-RunInv :
        (next : Phase) (all : List M) (s : State M)
        → over s.phase ≡ false
        → over next ≡ false
        → remaining s.phase s.current_batch s.messages
          ≡ s.current_batch ∷ remaining next [] s.messages
        → RunInv all s
        → RunInv all (or_same g s (put_batch g next s))
    put_batch-RunInv next all s h k e inv = elim (Bool-cases (has_room g s.queue)) [
      | inr full ↦ rw full inv
      | inl room ↦ rw room (record {
        whole =
            rw
              (
                somes-snoc s.queue s.current_batch,
                batches_assoc (somes s.queue) (s.current_batch ∷ []) (remaining next [] s.messages),
              )
              (rw e at inv.whole);
        marks = QueueInv-step s.consumer s.phase next s.queue _ h inv.marks (λ m.
            subst (λ b. Marked b (s.queue ++ some s.current_batch ∷ [])) (sym k)
              (Marked-snoc s.queue s.current_batch m));
        fetched =
            rw (somes-snoc s.queue s.current_batch)
              (omega (arith, inv.fetched, length-append (somes s.queue) (s.current_batch ∷ [])));
        processed = inv.processed;
      })
    ]

    remaining-end :
        (raises : Bool) (batch ms : List M)
        → g.fetch_raises ≡ raises
        → remaining (end_of_messages g batch) batch ms ≡ last_batch raises batch
    remaining-end true batch ms e = rw e refl
    remaining-end false [] ms e = rw e refl
    remaining-end false (m ∷ batch) ms e = rw e refl

    over-end : (batch : List M) → over (end_of_messages g batch) ≡ false
    over-end [] = ground arith
    over-end (m ∷ batch) = ground arith

    fetch-RunInv :
        (all : List M) (s : State M) (ms : List M)
        → s.phase ≡ fetching
        → s.messages ≡ ms
        → RunInv all s
        → RunInv all (fetch_one g ms s)
    unfolding batch_all
    fetch-RunInv all s [] p e inv = record {
      whole =
          rw (remaining-end g.fetch_raises s.current_batch s.messages refl)
            (rw (p, e) at inv.whole);
      marks =
          QueueInv-step s.consumer s.phase _ s.queue s.queue (rw p refl) inv.marks
            (λ m. rw (over-end s.current_batch) m);
      fetched = inv.fetched;
      processed = inv.processed;
    }
    fetch-RunInv all s (m ∷ ms) p e inv = elim (Bool-cases (g.skip_condition m)) [
      | inl skipped ↦ rw (skipped) (record {
        whole = rw p (rw (p, e, batch_all, skipped) at inv.whole);
        marks = inv.marks;
        fetched = inv.fetched;
        processed = inv.processed;
      })
      | inr taken ↦ elim (Bool-cases (leb g.batch_size (length s.current_batch + 1))) [
        | inl full ↦
            rw (taken, full)
              (record {
                whole = rw (p, e, batch_all, taken, full) at inv.whole;
                marks =
                    QueueInv-step s.consumer s.phase putting s.queue s.queue (rw p refl) inv.marks
                      (λ m. m);
                fetched = inv.fetched;
                processed = inv.processed;
              })
        | inr part ↦
            rw (taken, part)
              (record {
                whole = rw (p, e, batch_all, taken, part) at inv.whole;
                marks =
                    QueueInv-step s.consumer s.phase fetching s.queue s.queue (rw p refl) inv.marks
                      (λ m. m);
                fetched = inv.fetched;
                processed = inv.processed;
              })
      ]
    ]

    pub producer-RunInv :
        (all : List M) (s : State M) → RunInv all s → RunInv all (or_same g s (producer g s))
    unfolding producer
    producer-RunInv all s inv = go s.phase refl
      where
        at :
            (p : Phase)
            → s.phase ≡ p
            → RunInv all (or_same g s (producer_in g p s))
            → RunInv all (or_same g s (producer g s))
        at p e inv' =
            subst (λ o. RunInv all (or_same g s o)) (sym (ap (λ q. producer_in g q s) e)) inv'

        go : (p : Phase) → s.phase ≡ p → RunInv all (or_same g s (producer g s))
        go fetching e = at fetching e (fetch-RunInv all s s.messages e refl inv)
        go putting e =
            at putting e (put_batch-RunInv fetching all s (rw e refl) refl (rw e refl) inv)
        go putting_last e =
            at putting_last e (put_batch-RunInv signalling all s (rw e refl) refl (rw e refl) inv)
        go signalling e = at signalling e (put-RunInv all s (rw e refl) (rw e refl) inv)
        go cancelled e = at cancelled e (put-RunInv all s (rw e refl) (rw e refl) inv)
        go failing e = at failing e (put-RunInv all s (rw e refl) (rw e refl) inv)
        go done e = at done e inv
