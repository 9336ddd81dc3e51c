-- ===== src/Pipeline/Conserved.antt =====
-- The steps of the pipeline's tasks neither lose nor repeat a message.
use mathlib.Core.List.{append_assoc, Permᴰ, map-append}
use mathlib.Core.List.Permᴰ
use tobs.Prelude.{ℕ, suc, ◌+◌, ◌≡◌, refl, ◌∙◌, ap, subst, Bool, List, [], ◌∷◌, ◌++◌, map, arith}
use tobs.Dict.{lookup}
use tobs.Pipeline.Writing.{Item, new_writer}
use tobs.Pipeline.Writing.Reorder.{Inv, Ready, outputs}
use tobs.Pipeline.Order.{numbered}
use tobs.Pipeline.{State, Sizes, error_count}

module _ {V : Type 0} where
  abbrev pub failures : List (ℕ × Item V) → ℕ
  failures [] = 0
  failures ((s, item) ∷ rest) = error_count item + failures rest

  pub failures-append : (d e : List (ℕ × Item V)) → failures (d ++ e) ≡ failures d + failures e
  failures-append [] e = omega arith
  failures-append ((s, item) ∷ d) e = omega (arith, failures-append d e)

  pub failures-perm : {d e : List (ℕ × Item V)} → Permᴰ d e → failures d ≡ failures e
  failures-perm Permᴰ.nil = refl
  failures-perm (Permᴰ.cons e p) = omega (arith, ap (λ x. error_count x.1) e, failures-perm p)
  failures-perm (Permᴰ.swap e e') =
      omega (arith, ap (λ x. error_count x.1) e, ap (λ x. error_count x.1) e')
  failures-perm (Permᴰ.trans p q) = failures-perm p ∙ failures-perm q

module _ {M V : Type 0} where
  abbrev pub start : List M → State M V
  start messages = record {
    source = messages;
    seq = 0;
    fetch_q = [];
    processing = [];
    write_q = [];
    writer = new_writer;
    errors = 0;
  }

  module _ (process : M → Item V) (accepts : V → Bool) (sizes : Sizes) where
    -- What the messages in a queue will become.
    abbrev pub processed : List (ℕ × M) → List (ℕ × Item V)
    processed = map (λ e. (e.0, process e.1))

    abbrev pub ahead : State M V → List (ℕ × Item V)
    ahead s =
        processed s.processing
        ++ (processed s.fetch_q ++ numbered (suc s.seq) (map process s.source))

    -- The items that the writer received, those in the write queue and those still to come are the
    -- numbered items of all messages.
    pub record StateInv (all : List M) (s : State M V) : Type 0 where
      pub received : List (ℕ × Item V)
      pub whole : Permᴰ (received ++ (s.write_q ++ ahead s)) (numbered 1 (map process all))
      pub writer : Inv accepts received s.writer
      pub ready : Ready accepts s.writer
      pub errors : s.errors ≡ failures received + failures s.write_q

    pub start-StateInv : (all : List M) → StateInv all (start all)
    unfolding lookup outputs
    start-StateInv all = record {
      received = [];
      whole = Permᴰ.refl _;
      writer = record {
        positive = omega arith;
        distinct = tt;
        holds = λ s. ground arith;
        past = λ s p q. absurd (omega arith);
        output = refl;
        counted = refl;
      };
      ready = refl;
      errors = omega arith;
    }

    -- One item moves from the processors to the write queue.
    perm_process :
        (x : ℕ × Item V) (received write_q before after rest : List (ℕ × Item V))
        → Permᴰ
            (received ++ (write_q ++ (x ∷ (before ++ (after ++ rest)))))
            (received ++ (write_q ++ (before ++ (x ∷ (after ++ rest)))))
    perm_process x received write_q before after rest =
        Permᴰ.append_left received
          (Permᴰ.append_left write_q (Permᴰ.symm (Permᴰ.middle x before (after ++ rest))))

    pub fetch-whole :
        (all : List M) (s : State M V) (received : List (ℕ × Item V)) (message : M) (rest : List M)
        → s.source ≡ message ∷ rest
        → Permᴰ (received ++ (s.write_q ++ ahead s)) (numbered 1 (map process all))
        → Permᴰ
            (received
              ++ (s.write_q
                  ++ (processed s.processing
                      ++ (processed (s.fetch_q ++ (suc s.seq, message) ∷ [])
                          ++ numbered (suc (suc s.seq)) (map process rest)))))
            (numbered 1 (map process all))
    fetch-whole all s received message rest e whole =
        simp (map-append, append_assoc)
          (subst
            (λ src.
              Permᴰ
                (received
                  ++ (s.write_q
                      ++ (processed s.processing
                          ++ (processed s.fetch_q ++ numbered (suc s.seq) (map process src)))))
                (numbered 1 (map process all)))
            e whole)

    pub take-whole :
        (all : List M) (s : State M V) (received : List (ℕ × Item V)) (item : ℕ × M)
        (rest : List (ℕ × M))
        → s.fetch_q ≡ item ∷ rest
        → Permᴰ (received ++ (s.write_q ++ ahead s)) (numbered 1 (map process all))
        → Permᴰ
            (received
              ++ (s.write_q
                  ++ (processed (s.processing ++ item ∷ [])
                      ++ (processed rest ++ numbered (suc s.seq) (map process s.source)))))
            (numbered 1 (map process all))
    take-whole all s received item rest e whole =
        simp (map-append, append_assoc)
          (subst
            (λ q.
              Permᴰ
                (received
                  ++ (s.write_q
                      ++ (processed s.processing
                          ++ (processed q ++ numbered (suc s.seq) (map process s.source)))))
                (numbered 1 (map process all)))
            e whole)

    pub process-whole :
        (all : List M) (s : State M V) (received : List (ℕ × Item V)) (before after : List (ℕ × M))
        (seq : ℕ) (message : M)
        → s.processing ≡ before ++ (seq, message) ∷ after
        → Permᴰ (received ++ (s.write_q ++ ahead s)) (numbered 1 (map process all))
        → Permᴰ
            (received
              ++ ((s.write_q ++ (seq, process message) ∷ [])
                  ++ (processed (before ++ after)
                      ++ (processed s.fetch_q ++ numbered (suc s.seq) (map process s.source)))))
            (numbered 1 (map process all))
    process-whole all s received before after seq message e whole =
        let rest = processed s.fetch_q ++ numbered (suc s.seq) (map process s.source) in
        let moved =
          perm_process (seq, process message) received s.write_q (processed before)
            (processed after) rest in
        simp (map-append, append_assoc)
          (Permᴰ.trans moved (
            simp (map-append, append_assoc) at
              (subst
                (λ q.
                  Permᴰ (received ++ (s.write_q ++ (processed q ++ rest)))
                    (numbered 1 (map process all)))
                e whole)))
