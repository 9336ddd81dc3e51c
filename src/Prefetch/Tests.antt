-- ===== src/Prefetch/Tests.antt =====
-- Five numbers in batches of two, the even ones skipped, and the theorems applied there.
use tobs.Prelude.{
  ℕ, ◌<◌, ◌≡◌, refl, false, List, [], ◌∷◌, ◌++◌, length, some, arith, if◌then◌else◌, inl, inr, ◌==◌,
  ◌%◌,
}
use tobs.Prefetch.{
  Setting, State, Actor, producer_turn, consumer_turn, ended, stopped, stopping, putting, has_room,
  run, start_producer, stop, turn, producer, get_next_batch,
}
use tobs.Prefetch.Batches.{flat, Batched, cut_off, wanted}
use tobs.Prefetch.Delivered.{run-delivers}
use tobs.Prefetch.Rounds.{IsRound, joined, rounds-end}
use tobs.Prefetch.Stopped.{stop_lem}

abbrev setting : Setting ℕ
setting = record {
  batch_size = 2;
  queue_size = 1;
  skip_condition = λ m. m % 2 == 0;
  fetch_raises = false;
}

abbrev round : List Actor
round = producer_turn ∷ producer_turn ∷ consumer_turn ∷ []

abbrev six_rounds : List (List Actor)
six_rounds = round ∷ round ∷ round ∷ round ∷ round ∷ round ∷ []

abbrev numbers : List ℕ
numbers = 1 ∷ 2 ∷ 3 ∷ 4 ∷ 5 ∷ []

all_rounds-test :
    (run setting (joined six_rounds) (start_producer numbers)).received
    ≡ (1 ∷ 3 ∷ []) ∷ (5 ∷ []) ∷ []
unfolding turn producer get_next_batch
all_rounds-test = refl

six_rounds-ended : (run setting (joined six_rounds) (start_producer numbers)).consumer ≡ ended
unfolding turn producer get_next_batch
six_rounds-ended = refl

run-delivers_example :
    let s = run setting (joined six_rounds) (start_producer numbers) in
    (flat s.received ++ cut_off setting [] numbers ≡ wanted setting numbers)
    × (length (cut_off setting [] numbers) < 1)
    × Batched 2 s.received
    × (s.batches_fetched ≡ length s.received)
    × (s.batches_processed ≡ length s.received)
run-delivers_example =
    run-delivers setting numbers (joined six_rounds) (omega arith) six_rounds-ended

round-IsRound : IsRound round
round-IsRound = (inl refl, inr (inr (inl refl)))

rounds-end_example : (run setting (joined six_rounds) (start_producer [])).consumer ≡ ended
rounds-end_example =
    rounds-end setting [] six_rounds
      (
        round-IsRound,
        (round-IsRound, (round-IsRound, (round-IsRound, (round-IsRound, (round-IsRound, tt))))),
      )
      (omega arith)

-- The queue has its one batch, and the producer waits to put the next.
abbrev waiting : State ℕ
waiting = record (start_producer (9 ∷ [])) {
  current_batch = 5 ∷ 7 ∷ [];
  phase = putting;
  queue = some (1 ∷ 3 ∷ []) ∷ [];
  batches_fetched = 1;
}

stop_lem_example :
    (run setting (producer_turn ∷ consumer_turn ∷ round) (stop setting waiting)).consumer
    ≡ (if has_room setting waiting.queue then stopped else stopping)
stop_lem_example = stop_lem setting waiting round refl tt
