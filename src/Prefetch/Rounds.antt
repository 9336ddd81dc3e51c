-- ===== src/Prefetch/Rounds.antt =====
-- The batches end after a number of rounds.
use tobs.Prelude.{
  ◌+◌, ◌*◌, ◌≤◌, ◌<◌, ◌≡◌, ◌⊎◌, refl, ap, none, List, [], ◌∷◌, ◌++◌, length, All, arith, inl, inr,
  Option-cases,
}
use tobs.Prefetch.{
  done, ended, producer, producer_in, consumer_in, State, Setting, Actor, producer_turn,
  consumer_turn, turn, run, start_producer,
}
use tobs.Prefetch.Kept.{RunInv}
use tobs.Prefetch.Delivered.{start-RunInv, run-RunInv}
use tobs.Prefetch.Finishes.{measure, Less, turn-Less, both_wait}

abbrev Has : Actor → List Actor → Type 0
Has a [] = ⊥
Has a (b ∷ actors) = (a ≡ b) ⊎ Has a actors

-- In a round either side has a turn, or more.
abbrev pub IsRound : List Actor → Type 0
IsRound actors = Has producer_turn actors × Has consumer_turn actors

abbrev pub joined : List (List Actor) → List Actor
joined [] = []
joined (round ∷ rounds) = round ++ joined rounds

module _ {M : Type 0} (g : Setting M) where
  no_more :
      (all : List M) (actors : List Actor) (s : State M)
      → RunInv g all s
      → measure g (run g actors s) ≤ measure g s
  no_more all [] s inv = omega arith
  no_more all (actor ∷ actors) s inv =
      let after = run-RunInv g all (actor ∷ []) s inv in
      elim (Option-cases (turn g actor s)) [
        | inl e ↦ rw (run, e) (no_more all actors s inv)
        | inr (t, e) ↦
            let step : Less g s (turn g actor s) = turn-Less g all actor s inv in
            let less : measure g t < measure g s = rw e at step in
            rw (run, e) (omega (arith, less, no_more all actors t (rw e at after)))
      ]

  -- A round either does something, or all its turns are of sides that wait.
  round_works :
      (all : List M) (actors : List Actor) (s : State M)
      → RunInv g all s
      → (measure g (run g actors s) < measure g s) ⊎ All (λ actor. turn g actor s ≡ none) actors
  round_works all [] s inv = inr tt
  round_works all (actor ∷ actors) s inv =
      let after = run-RunInv g all (actor ∷ []) s inv in
      elim (Option-cases (turn g actor s)) [
        | inl e ↦ elim (round_works all actors s inv) [
          | inl less ↦ inl (rw (run, e) less)
          | inr waits ↦ inr (e, waits)
        ]
        | inr (t, e) ↦
            let step : Less g s (turn g actor s) = turn-Less g all actor s inv in
            let less : measure g t < measure g s = rw e at step in
            inl (rw (run, e) (omega (arith, less, no_more all actors t (rw e at after))))
      ]

  waits_of :
      (a : Actor) (actors : List Actor) (s : State M)
      → Has a actors
      → All (λ actor. turn g actor s ≡ none) actors
      → turn g a s ≡ none
  waits_of a [] s h k = absurd h
  waits_of a (b ∷ actors) s (inl e) k = rw e k.0
  waits_of a (b ∷ actors) s (inr h) k = waits_of a actors s h k.1

  -- Once the consumer has seen the None, no turn does anything.
  ended_waits :
      (all : List M) (actor : Actor) (s : State M)
      → s.consumer ≡ ended
      → RunInv g all s
      → turn g actor s ≡ none
  unfolding turn producer
  ended_waits all producer_turn s e inv =
      let (finished, empty) : (s.phase ≡ done) × (s.queue ≡ []) = rw e at inv.marks in
      ap (λ p. producer_in g p s) finished
  ended_waits all consumer_turn s e inv = ap (λ d. consumer_in g d s) e

  stays_ended :
      (all : List M) (actors : List Actor) (s : State M)
      → s.consumer ≡ ended
      → RunInv g all s
      → (run g actors s).consumer ≡ ended
  stays_ended all [] s e inv = e
  stays_ended all (actor ∷ actors) s e inv =
      rw (run, ended_waits all actor s e inv) (stays_ended all actors s e inv)

  run-append : (a b : List Actor) (s : State M) → run g (a ++ b) s ≡ run g b (run g a s)
  run-append [] b s = refl
  run-append (actor ∷ a) b s = run-append a b _

  rounds_end :
      (all : List M) (rounds : List (List Actor)) (s : State M)
      → RunInv g all s
      → All IsRound rounds
      → measure g s < length rounds
      → (run g (joined rounds) s).consumer ≡ ended
  rounds_end all [] s inv h k = absurd (omega arith)
  rounds_end all (round ∷ rounds) s inv h k = elim (round_works all round s inv) [
    | inl less ↦
        rw (run-append round (joined rounds) s)
          (rounds_end all rounds (run g round s) (run-RunInv g all round s inv) h.1 (omega arith))
    | inr waits ↦
        stays_ended all (round ++ joined rounds) s
          (both_wait g all s inv (waits_of producer_turn round s h.0.0 waits)
            (waits_of consumer_turn round s h.0.1 waits))
          inv
  ]

  -- After more rounds than four for each message and five, in which the producer and the consumer have
  -- a turn each or more in any order, the consumer has seen the None: whatever the size of the queue and
  -- of the batches, and whether or not the iterator ends with an error.
  pub rounds-end :
      (messages : List M) (rounds : List (List Actor))
      → All IsRound rounds
      → 4 * length messages + 5 < length rounds
      → (run g (joined rounds) (start_producer messages)).consumer ≡ ended
  rounds-end messages rounds h k =
      rounds_end messages rounds (start_producer messages) (start-RunInv g messages) h (omega arith)
