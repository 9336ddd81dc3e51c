-- ===== src/Pipeline/Tests.antt =====
-- A run of the pipeline in which the second message is processed before the first.
use tobs.Prelude.{ℕ, zero, suc, ◌+◌, ◌≡◌, refl, Bool, true, List, [], ◌∷◌, arith}
use tobs.Pipeline.Writing.{Item, value, nothing, failure, receive, new_writer}
use tobs.Pipeline.{State, Sizes, Steps, fetch, take, process_one, write_one, here, next}
use tobs.Pipeline.Conserved.{start}
use tobs.Pipeline.Run.{run-written}

-- `process_fn` fails on 0 and gives nothing for 1.
abbrev process : ℕ → Item ℕ
process zero = failure
process (suc zero) = nothing
process (suc (suc n)) = value n

abbrev accepts : ℕ → Bool
accepts n = true

abbrev sizes : Sizes
sizes = record { process_workers = 2; fetch_queue_size = 2; process_queue_size = 2 }

abbrev both : List ℕ
both = 9 ∷ 0 ∷ []

abbrev one_fetched : State ℕ ℕ
one_fetched = record (start both) { source = 0 ∷ []; seq = 1; fetch_q = (1, 9) ∷ [] }

abbrev two_fetched : State ℕ ℕ
two_fetched = record (start both) { source = []; seq = 2; fetch_q = (1, 9) ∷ (2, 0) ∷ [] }

abbrev one_taken : State ℕ ℕ
one_taken = record two_fetched { fetch_q = (2, 0) ∷ []; processing = (1, 9) ∷ [] }

abbrev two_taken : State ℕ ℕ
two_taken = record two_fetched { fetch_q = []; processing = (1, 9) ∷ (2, 0) ∷ [] }

abbrev second_processed : State ℕ ℕ
second_processed = record two_taken {
  processing = (1, 9) ∷ [];
  write_q = (2, failure) ∷ [];
  errors = 0 + 1;
}

abbrev both_processed : State ℕ ℕ
both_processed = record second_processed {
  processing = [];
  write_q = (2, failure) ∷ (1, value 7) ∷ [];
  errors = 0 + 1 + 0;
}

abbrev second_received : State ℕ ℕ
second_received = record both_processed {
  write_q = (1, value 7) ∷ [];
  writer = receive accepts (2, failure) new_writer;
}

abbrev both_received : State ℕ ℕ
both_received = record both_processed {
  write_q = [];
  writer = receive accepts (1, value 7) (receive accepts (2, failure) new_writer);
}

out_of_order : Steps process accepts sizes (start both) both_received
out_of_order =
    let fetched : Steps process accepts sizes (start both) two_fetched =
      next (next {u = one_fetched} here (fetch 9 (0 ∷ []) refl (omega arith)))
        (fetch 0 [] refl (omega arith)) in
    let taken : Steps process accepts sizes (start both) two_taken =
      next (next {u = one_taken} fetched (take (1, 9) ((2, 0) ∷ []) refl (omega arith)))
        (take (2, 0) [] refl (omega arith)) in
    let processed : Steps process accepts sizes (start both) both_processed =
      next (next {u = second_processed} taken (process_one ((1, 9) ∷ []) [] 2 0 refl (omega arith)))
        (process_one [] [] 1 9 refl (omega arith)) in
    next (next {u = second_received} processed (write_one (2, failure) ((1, value 7) ∷ []) refl))
      (write_one (1, value 7) [] refl)

run-written_example :
    (both_received.writer.written ≡ 7 ∷ [])
    × (both_received.writer.processed_count ≡ 1)
    × (both_received.errors ≡ 1)
run-written_example =
    run-written process accepts sizes both both_received out_of_order
      (record { source = refl; fetch_q = refl; processing = refl; write_q = refl })
