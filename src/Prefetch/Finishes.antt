-- ===== src/Prefetch/Finishes.antt =====
-- The queue never blocks both sides, and each turn that does something leaves less to do.
use tobs.Prelude.{
  ℕ, ◌+◌, ◌*◌, ◌≤◌, ◌<◌, ◌≡◌, refl, sym, ◌∙◌, ap, subst, Option, none, some, List, [], ◌∷◌, length,
  length-append, arith, inl, inr, Bool-cases,
}
use tobs.Prefetch.{
  Phase, fetching, putting, putting_last, signalling, cancelled, failing, done, Consumer, taking,
  ended, stopping, stopped, stop_raised, State, Setting, Actor, producer_turn, consumer_turn,
  has_room, put, put_batch, fetch_one, end_of_messages, producer_in, producer, get_next_batch,
  consumer_in, turn,
}
use tobs.Prefetch.Kept.{RunInv}

abbrev pub weight : Phase → ℕ
weight fetching = 5
weight putting = 7
weight putting_last = 4
weight signalling = 2
weight cancelled = 2
weight failing = 2
weight done = 0

module _ {M : Type 0} (g : Setting M) where
  -- How many turns can still do something
  abbrev pub measure : State M → ℕ
  measure s = 4 * length s.messages + weight s.phase + length s.queue

  abbrev pub Less : State M → Option (State M) → Type 0
  Less s none = Unit
  Less s (some t) = measure t < measure s

  put_batch-Less :
      (next : Phase) (s : State M) → weight next + 1 < weight s.phase → Less s (put_batch g next s)
  put_batch-Less next s h = elim (Bool-cases (has_room g s.queue)) [
    | inr full ↦ rw full tt
    | inl room ↦ rw room (omega (arith, length-append s.queue (some s.current_batch ∷ [])))
  ]

  put-Less : (s : State M) → weight s.phase ≡ 2 → Less s (put g none done s)
  put-Less s h = elim (Bool-cases (has_room g s.queue)) [
    | inr full ↦ rw full tt
    | inl room ↦ rw room (omega (arith, h, length-append s.queue (none ∷ [])))
  ]

  end-weight : (batch : List M) → weight (end_of_messages g batch) ≤ 4
  end-weight [] = ground arith
  end-weight (m ∷ batch) = ground arith

  fetch-Less :
      (s : State M) (ms : List M)
      → s.phase ≡ fetching
      → s.messages ≡ ms
      → measure (fetch_one g ms s) < measure s
  fetch-Less s [] p e = omega (arith, end-weight s.current_batch, ap weight p, ap length e)
  fetch-Less s (m ∷ ms) p e = ground (arith, ap weight p, ap length e)

  producer-Less : (s : State M) → Less s (producer g s)
  unfolding producer
  producer-Less s = go s.phase refl
    where
      at : (p : Phase) → s.phase ≡ p → Less s (producer_in g p s) → Less s (producer g s)
      at p e h = subst (Less s) (sym (ap (λ q. producer_in g q s) e)) h

      go : (p : Phase) → s.phase ≡ p → Less s (producer g s)
      go fetching e = at fetching e (fetch-Less s s.messages e refl)
      go putting e = at putting e (put_batch-Less fetching s (omega (arith, ap weight e)))
      go putting_last e =
          at putting_last e (put_batch-Less signalling s (omega (arith, ap weight e)))
      go signalling e = at signalling e (put-Less s (ap weight e))
      go cancelled e = at cancelled e (put-Less s (ap weight e))
      go failing e = at failing e (put-Less s (ap weight e))
      go done e = at done e tt

  get-Less :
      (s : State M) (queue : List (Option (List M)))
      → s.queue ≡ queue
      → Less s (get_next_batch g (record s { queue = queue }))
  unfolding get_next_batch
  get-Less s [] e = tt
  get-Less s (none ∷ rest) e = omega (arith, ap length e)
  get-Less s (some batch ∷ rest) e = omega (arith, ap length e)

  pub turn-Less :
      (all : List M) (actor : Actor) (s : State M) → RunInv g all s → Less s (turn g actor s)
  unfolding turn
  turn-Less all producer_turn s inv = producer-Less s
  turn-Less all consumer_turn s inv = go s.consumer refl
    where
      at :
          (c : Consumer)
          → s.consumer ≡ c
          → Less s (consumer_in g c s)
          → Less s (turn g consumer_turn s)
      at c e h = subst (Less s) (sym (ap (λ d. consumer_in g d s) e)) h

      go : (c : Consumer) → s.consumer ≡ c → Less s (turn g consumer_turn s)
      go taking e = at taking e (get-Less s s.queue refl)
      go ended e = at ended e tt
      go stopping e = absurd (rw e at inv.marks)
      go stopped e = at stopped e tt
      go stop_raised e = at stop_raised e tt

  -- What waits finds an empty queue, or no room in it.
  get_waits :
      (s : State M) (queue : List (Option (List M)))
      → get_next_batch g (record s { queue = queue }) ≡ none
      → queue ≡ []
  unfolding get_next_batch
  get_waits s [] h = refl
  get_waits s (item ∷ rest) h = cc

  producer_waits : (p : Phase) (s : State M) → s.queue ≡ [] → producer_in g p s ≡ none → p ≡ done
  producer_waits fetching s e h = cc
  producer_waits putting s e h = absurd (ground (arith, ap length e))
  producer_waits putting_last s e h = absurd (ground (arith, ap length e))
  producer_waits signalling s e h = absurd (ground (arith, ap length e))
  producer_waits cancelled s e h = absurd (ground (arith, ap length e))
  producer_waits failing s e h = absurd (ground (arith, ap length e))
  producer_waits done s e h = refl

  -- Both sides wait only at the end.
  pub both_wait :
      (all : List M) (s : State M)
      → RunInv g all s
      → turn g producer_turn s ≡ none
      → turn g consumer_turn s ≡ none
      → s.consumer ≡ ended
  unfolding turn producer
  both_wait all s inv p c = go s.consumer refl
    where
      go : (d : Consumer) → s.consumer ≡ d → s.consumer ≡ ended
      go taking e =
          let empty = get_waits s s.queue (sym (ap (λ d. consumer_in g d s) e) ∙ c) in
          let finished = producer_waits s.phase s empty p in
          absurd (ground (arith, rw (e, finished, empty) at inv.marks))
      go ended e = e
      go stopping e = absurd (rw e at inv.marks)
      go stopped e = absurd (rw e at inv.marks)
      go stop_raised e = absurd (rw e at inv.marks)
