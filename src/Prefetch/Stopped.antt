-- ===== src/Prefetch/Stopped.antt =====
-- `stop` waits for the producer, which waits for room in the queue.
use tobs.Prelude.{◌≡◌, refl, ap, false, List, [], ◌∷◌, inl, inr, Bool-cases, if◌then◌else◌}
use tobs.Prefetch.{
  Phase, fetching, putting, putting_last, signalling, cancelled, failing, done, stopping, stopped,
  State, Setting, Actor, producer_turn, consumer_turn, has_room, producer, is_stopped, stop, turn,
  run,
}

-- The phases in which the producer runs and handles no exception
abbrev pub IsLive : Phase → Type 0
IsLive failing = ⊥
IsLive cancelled = ⊥
IsLive done = ⊥
IsLive p = Unit

module _ {M : Type 0} (g : Setting M) where
  stop_live :
      (s : State M)
      → is_stopped g s.consumer ≡ false
      → IsLive s.phase
      → stop g s ≡ record s { phase = cancelled; consumer = stopping }
  unfolding stop
  stop_live s first h = go s.phase refl h
    where
      go :
          (p : Phase)
          → s.phase ≡ p
          → IsLive p
          → stop g s ≡ record s { phase = cancelled; consumer = stopping }
      go fetching e k = rw (first, e) refl
      go putting e k = rw (first, e) refl
      go putting_last e k = rw (first, e) refl
      go signalling e k = rw (first, e) refl
      go cancelled e k = absurd k
      go failing e k = absurd k
      go done e k = absurd k

  -- Where the queue is full neither side can move.
  full_waits :
      (actors : List Actor) (s : State M)
      → has_room g s.queue ≡ false
      → run g actors (record s { phase = cancelled; consumer = stopping })
        ≡ record s { phase = cancelled; consumer = stopping }
  unfolding turn producer
  full_waits [] s h = refl
  full_waits (producer_turn ∷ actors) s h = rw h (full_waits actors s h)
  full_waits (consumer_turn ∷ actors) s h = full_waits actors s h

  stopped_stays :
      (actors : List Actor) (s : State M)
      → (run g actors (record s { phase = done; consumer = stopped })).consumer ≡ stopped
  unfolding turn producer
  stopped_stays [] s = refl
  stopped_stays (producer_turn ∷ actors) s = stopped_stays actors s
  stopped_stays (consumer_turn ∷ actors) s = stopped_stays actors s

  -- When `stop` is called for the first time while the producer runs and handles no exception, it returns after the next turn
  -- of the producer where the queue has room. Where the queue is full it never returns, whatever turns
  -- follow: the handler of the cancellation waits for room for its None, and `stop`, the only one that
  -- would make room, waits for the handler.
  pub stop_lem :
      (s : State M) (actors : List Actor)
      → is_stopped g s.consumer ≡ false
      → IsLive s.phase
      → (run g (producer_turn ∷ consumer_turn ∷ actors) (stop g s)).consumer
        ≡ (if has_room g s.queue then stopped else stopping)
  unfolding turn producer
  stop_lem s actors first live = elim (Bool-cases (has_room g s.queue)) [
    | inl room ↦
        rw (stop_live s first live, run, turn, producer, room)
          (stopped_stays actors (record s { queue = [] }))
    | inr full ↦
        rw (stop_live s first live, full)
          (ap (λ t. t.consumer) (full_waits (producer_turn ∷ consumer_turn ∷ actors) s full))
  ]
