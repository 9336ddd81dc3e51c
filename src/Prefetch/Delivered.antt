-- ===== src/Prefetch/Delivered.antt =====
-- The consumer gets the batches of the loop, in every order of turns.
use tobs.Prelude.{
  ◌≤◌, ◌<◌, ◌≡◌, refl, sym, ◌∙◌, ap, subst, Option, none, some, List, [], ◌∷◌, ◌++◌, length,
  length-append, arith, inl, inr, Bool-cases, if◌then◌else◌,
}
use tobs.Prefetch.{
  done, Consumer, taking, ended, stopping, stopped, stop_raised, State, Setting, Actor,
  producer_turn, consumer_turn, get_next_batch, consumer_in, turn, or_same, run, start_producer,
}
use tobs.Prefetch.Batches.{
  flat, Batched, batch_all, cut_off, wanted, flat-batch_all, cut_off_none, length-cut_off,
  batch_all-Batched,
}
use tobs.Prefetch.Kept.{somes, Marked, over, remaining, RunInv, producer-RunInv}

module _ {M : Type 0} (g : Setting M) where
  snoc_assoc :
      (a : List (List M)) (b : List M) (d : List (List M)) → (a ++ b ∷ []) ++ d ≡ a ++ b ∷ d
  snoc_assoc [] b d = refl
  snoc_assoc (x ∷ a) b d = rw (snoc_assoc a b d)

  append_nil : (a : List (List M)) → a ++ [] ≡ a
  append_nil [] = refl
  append_nil (x ∷ a) = rw (append_nil a)

  get-RunInv :
      (all : List M) (s : State M) (queue : List (Option (List M)))
      → s.consumer ≡ taking
      → s.queue ≡ queue
      → RunInv g all s
      → RunInv g all (or_same g s (get_next_batch g (record s { queue = queue })))
  unfolding get_next_batch
  get-RunInv all s [] c e inv = inv
  get-RunInv all s (none ∷ rest) c e inv =
      let marks : Marked (over s.phase) (none ∷ rest) = rw (c, e) at inv.marks in
      record {
        whole = rw e at inv.whole;
        marks = (ground (arith, marks.0), marks.1);
        fetched = rw e at inv.fetched;
        processed = inv.processed;
      }
  get-RunInv all s (some batch ∷ rest) c e inv = record {
    whole =
        rw
          (snoc_assoc s.received batch
            (somes rest ++ remaining g s.phase s.current_batch s.messages))
          (rw e at inv.whole);
    marks = rw c (rw (c, e) at inv.marks);
    fetched =
        omega
          (arith, inv.fetched, ap (λ q. length (somes q)) e, length-append s.received (batch ∷ []));
    processed = omega (arith, inv.processed, length-append s.received (batch ∷ []));
  }

  turn-RunInv :
      (all : List M) (actor : Actor) (s : State M)
      → RunInv g all s
      → RunInv g all (or_same g s (turn g actor s))
  unfolding turn
  turn-RunInv all producer_turn s inv = producer-RunInv g all s inv
  turn-RunInv all consumer_turn s inv = go s.consumer refl
    where
      at :
          (c : Consumer)
          → s.consumer ≡ c
          → RunInv g all (or_same g s (consumer_in g c s))
          → RunInv g all (or_same g s (turn g consumer_turn s))
      at c e inv' =
          subst (λ o. RunInv g all (or_same g s o)) (sym (ap (λ d. consumer_in g d s) e)) inv'

      go : (c : Consumer) → s.consumer ≡ c → RunInv g all (or_same g s (turn g consumer_turn s))
      go taking e = at taking e (get-RunInv all s s.queue e refl inv)
      go ended e = at ended e inv
      go stopping e = absurd (rw e at inv.marks)
      go stopped e = at stopped e inv
      go stop_raised e = at stop_raised e inv

  pub run-RunInv :
      (all : List M) (actors : List Actor) (s : State M)
      → RunInv g all s
      → RunInv g all (run g actors s)
  run-RunInv all [] s inv = inv
  run-RunInv all (actor ∷ actors) s inv = run-RunInv all actors _ (turn-RunInv all actor s inv)

  pub start-RunInv : (all : List M) → RunInv g all (start_producer all)
  start-RunInv all = record {
    whole = refl;
    marks = refl;
    fetched = omega arith;
    processed = omega arith;
  }

  -- The state in which the consumer has seen the None
  ended_whole :
      (all : List M) (s : State M)
      → s.consumer ≡ ended
      → RunInv g all s
      → (s.received ≡ batch_all g [] all)
        × (s.batches_fetched ≡ length s.received)
        × (s.batches_processed ≡ length s.received)
  ended_whole all s e inv =
      let (finished, empty) : (s.phase ≡ done) × (s.queue ≡ []) = rw e at inv.marks in
      (
        sym (append_nil s.received) ∙ (rw (empty, finished) at inv.whole),
        omega (arith, inv.fetched, ap (λ q. length (somes q)) empty),
        inv.processed,
      )

  lost-few :
      (messages : List M)
      → 1 ≤ g.batch_size
      → length (cut_off g [] messages) < (if g.fetch_raises then g.batch_size else 1)
  lost-few messages h =
      let few = length-cut_off g [] messages (omega arith) in
      elim (Bool-cases g.fetch_raises) [
        | inl raises ↦
            subst (λ b. length (cut_off g [] messages) < (if b then g.batch_size else 1))
              (sym raises) few
        | inr ends ↦
            subst (λ b. length (cut_off g [] messages) < (if b then g.batch_size else 1)) (sym ends)
              (omega (arith, ap length (cut_off_none g [] messages ends)))
      ]

  -- In whatever order the producer and the consumer get their turns, once the consumer has seen the
  -- None it has received the wanted messages (those that are not skipped) in their order, in batches of
  -- `batch_size` but for the last, and each batch is counted once by either side. Nothing is missing,
  -- unless the iterator ends with an error: then the messages after the last full batch are, fewer than
  -- `batch_size`.
  pub run-delivers :
      (messages : List M) (actors : List Actor)
      → 1 ≤ g.batch_size
      → (run g actors (start_producer messages)).consumer ≡ ended
      → let s = run g actors (start_producer messages) in
        (flat s.received ++ cut_off g [] messages ≡ wanted g messages)
        × (length (cut_off g [] messages) < (if g.fetch_raises then g.batch_size else 1))
        × Batched g.batch_size s.received
        × (s.batches_fetched ≡ length s.received)
        × (s.batches_processed ≡ length s.received)
  run-delivers messages actors h e =
      let s = run g actors (start_producer messages) in
      let inv = run-RunInv messages actors (start_producer messages) (start-RunInv messages) in
      let (same, fetched, processed) = ended_whole messages s e inv in
      (
        rw same (flat-batch_all g [] messages),
        lost-few messages h,
        rw same (batch_all-Batched g [] messages (omega arith)),
        fetched,
        processed,
      )
