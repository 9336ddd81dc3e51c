-- ===== src/Pipeline/Run.antt =====
-- A run of the pipeline that ends has written what all its messages give, in order.
use mathlib.Core.List.{append_assoc, append-nil, Permᴰ}
use mathlib.Core.List.Permᴰ
use tobs.Prelude.{
  ℕ, ◌≤◌, ◌≡◌, ap, subst, Bool, List, [], ◌∷◌, ◌++◌, map, length, ℕ_discrete, All-perm, All-parts,
  arith, none,
}
use tobs.Dict.{lookup}
use tobs.Dict.Perm.{perm_lookup, Distinct-middle}
use tobs.Pipeline.Writing.{Item, receive}
use tobs.Pipeline.Writing.Reorder.{receive-Inv}
use tobs.Pipeline.Order.{numbered, numbered-Distinct, numbered_positive, emits, written_all}
use tobs.Pipeline.{State, Sizes, Step, fetch, take, process_one, write_one, Steps, here, next}
use tobs.Pipeline.Conserved.{
  failures, failures-append, failures-perm, start, ahead, StateInv, start-StateInv, fetch-whole,
  take-whole, process-whole,
}

module _ {M V : Type 0} (process : M → Item V) (accepts : V → Bool) (sizes : Sizes) where
  abbrev Whole : List M → List (ℕ × Item V) → Type 0
  Whole all items = Permᴰ items (numbered 1 (map process all))

  write_keeps_all :
      (all : List M) (s : State M V) (received : List (ℕ × Item V)) (item : ℕ × Item V)
      (rest : List (ℕ × Item V))
      → s.write_q ≡ item ∷ rest
      → Whole all (received ++ (s.write_q ++ ahead process accepts sizes s))
      → Whole all (received ++ (item ∷ (rest ++ ahead process accepts sizes s)))
  write_keeps_all all s received item rest e whole =
      subst (λ q. Whole all (received ++ (q ++ ahead process accepts sizes s))) e whole

  -- An item that comes next has a number from 1 on which no received item has.
  next_is_fresh :
      (all : List M) (received rest : List (ℕ × Item V)) (seq : ℕ) (item : Item V)
      → Whole all (received ++ ((seq, item) ∷ rest))
      → (1 ≤ seq) × (lookup ℕ_discrete seq received ≡ none)
  next_is_fresh all received rest seq item whole =
      let items = numbered 1 (map process all) in
      let (_, distinct) =
        perm_lookup ℕ_discrete (Permᴰ.symm whole) (numbered-Distinct 1 (map process all)) in
      let positive =
        All-perm (λ e. 1 ≤ e.0) (Permᴰ.symm whole)
          (numbered_positive 1 (map process all) (omega arith)) in
      (
        (All-parts (λ e. 1 ≤ e.0) received (seq, item) rest positive).1,
        Distinct-middle ℕ_discrete seq item received rest distinct,
      )

  write-StateInv :
      (all : List M) (s : State M V) (seq : ℕ) (item : Item V) (rest : List (ℕ × Item V))
      → s.write_q ≡ (seq, item) ∷ rest
      → StateInv process accepts sizes all s
      → StateInv process accepts sizes all
          (record s { write_q = rest; writer = receive accepts (seq, item) s.writer })
  write-StateInv all s seq item rest e inv =
      let whole = write_keeps_all all s inv.received (seq, item) rest e inv.whole in
      let (positive, fresh) =
        next_is_fresh all inv.received (rest ++ ahead process accepts sizes s) seq item whole in
      let (kept, ready) =
        receive-Inv accepts inv.received s.writer seq item positive fresh inv.writer in
      record {
        received = inv.received ++ (seq, item) ∷ [];
        whole = simp (append_assoc) whole;
        writer = kept;
        ready = ready;
        errors =
            omega
              (arith, inv.errors, ap failures e, failures-append inv.received ((seq, item) ∷ []));
      }

  Step-StateInv :
      (all : List M) {s t : State M V}
      → Step process accepts sizes s t
      → StateInv process accepts sizes all s
      → StateInv process accepts sizes all t
  Step-StateInv all {s = s} (fetch message rest e room) inv = record {
    received = inv.received;
    whole = fetch-whole process accepts sizes all s inv.received message rest e inv.whole;
    writer = inv.writer;
    ready = inv.ready;
    errors = inv.errors;
  }
  Step-StateInv all {s = s} (take item rest e free) inv = record {
    received = inv.received;
    whole = take-whole process accepts sizes all s inv.received item rest e inv.whole;
    writer = inv.writer;
    ready = inv.ready;
    errors = inv.errors;
  }
  Step-StateInv all {s = s} (process_one before after seq message e room) inv = record {
    received = inv.received;
    whole =
        process-whole process accepts sizes all s inv.received before after seq message e inv.whole;
    writer = inv.writer;
    ready = inv.ready;
    errors = omega (arith, inv.errors, failures-append s.write_q ((seq, process message) ∷ []));
  }
  Step-StateInv all {s = s} (write_one (seq, item) rest e) inv =
      write-StateInv all s seq item rest e inv

  Steps-StateInv :
      (all : List M) {s t : State M V}
      → Steps process accepts sizes s t
      → StateInv process accepts sizes all s
      → StateInv process accepts sizes all t
  Steps-StateInv all here inv = inv
  Steps-StateInv all (next run step) inv = Step-StateInv all step (Steps-StateInv all run inv)

  -- Nothing is left to fetch, to process or to write.
  pub record Idle (s : State M V) : Type 0 where
    pub source : s.source ≡ []
    pub fetch_q : s.fetch_q ≡ []
    pub processing : s.processing ≡ []
    pub write_q : s.write_q ≡ []

  nothing_is_left :
      (all : List M) (s : State M V) (received : List (ℕ × Item V))
      → Idle s
      → Whole all (received ++ (s.write_q ++ ahead process accepts sizes s))
      → Whole all received
  nothing_is_left all s received idle whole =
      simp (idle.source, idle.fetch_q, idle.processing, idle.write_q, append-nil) at whole

  -- In every run of the fetcher, the processors and the writer from the start, whatever the order
  -- in which they act, that ends with nothing left to fetch, process or write: the writer has
  -- written exactly what all messages give, in the order in which they were fetched, it counts
  -- what it wrote, and the errors counted are the messages whose processing failed.
  pub run-written :
      (all : List M) (s : State M V)
      → Steps process accepts sizes (start all) s
      → Idle s
      → (s.writer.written ≡ emits accepts (map process all))
        × (s.writer.processed_count ≡ length (emits accepts (map process all)))
        × (s.errors ≡ failures (numbered 1 (map process all)))
  run-written all s run idle =
      let inv = Steps-StateInv all run (start-StateInv process accepts sizes all) in
      let whole = nothing_is_left all s inv.received idle inv.whole in
      let (written, counted) =
        written_all accepts (map process all) inv.received s.writer whole inv.writer inv.ready in
      (written, counted, omega (arith, inv.errors, ap failures idle.write_q, failures-perm whole))
