-- ===== src/Retry/Outcomes.antt =====
-- Which attempts are made, and what the loop returns and counts.
use tobs.Prelude.{
  ℕ, zero, suc, ◌+◌, ◌-◌, ◌≤◌, ◌<◌, ◌≡◌, ◌⊎◌, refl, ◌∙◌, ap, false, List, ◌∷◌, ◌++◌, arith, inl,
  inr, ◌==◌, ◌||◌, Bool-cases,
}
use tobs.Retry.{
  ConnectionConfig, OperationStats, update_success, update_failure, Failure, Attempt, returned,
  raised, result, last_exception, Fraction, Trace, Call, throttle_sleeps, delay_after,
  attempts_from, execute_with_retry, handle_telegram_error, flood_wait, slow_mode_wait,
  timeout_error, get_file_request, rpc_error, other_error, ErrorKind,
}

pub Attempt-cases :
    {R : Type 0} (a : Attempt R) → ((r : R) × (a ≡ returned r)) ⊎ ((e : Failure) × (a ≡ raised e))
Attempt-cases (returned r) = inl (r, refl)
Attempt-cases (raised e) = inr (e, refl)

module _ {R : Type 0} (call : Call R) where
  -- All of the n attempts from the given one on raise.
  abbrev pub AllRaise : ℕ → ℕ → Type 0
  AllRaise zero attempt = Unit
  AllRaise (suc n) attempt =
      ((e : Failure) × (call.operation attempt ≡ raised e)) × AllRaise n (attempt + 1)

  -- The loop returns the result of the first attempt that does not raise, or the error of the last one.
  pub data IsOutcome (n first : ℕ) (t : Trace R) : Type 0 where
    success :
        (k : ℕ) (r : R)
        → k < n
        → AllRaise k first
        → call.operation (first + k) ≡ returned r
        → t.outcome ≡ result r
        → t.attempts ≡ suc k
        → IsOutcome n first t
    failure :
        (e : Failure)
        → AllRaise n first
        → call.operation (first + (n - 1)) ≡ raised e
        → t.outcome ≡ last_exception e
        → t.attempts ≡ n
        → IsOutcome n first t

  module _ (c : ConnectionConfig) where
    telegram-counts :
        (kind : ErrorKind) (s : OperationStats) (attempt : ℕ)
        → let s' = (handle_telegram_error kind s attempt).1 in
          (s'.total_attempts ≡ s.total_attempts)
          × (s'.successful_attempts ≡ s.successful_attempts)
          × (s'.failed_attempts ≡ s.failed_attempts)
    unfolding handle_telegram_error
    telegram-counts (flood_wait seconds) s attempt = (refl, refl, refl)
    telegram-counts (slow_mode_wait seconds) s attempt = (refl, refl, refl)
    telegram-counts timeout_error s attempt = (refl, refl, refl)
    telegram-counts get_file_request s attempt = (refl, refl, refl)
    telegram-counts rpc_error s attempt = (refl, refl, refl)
    telegram-counts other_error s attempt = (refl, refl, refl)

    delay-counts :
        (e : Failure) (s : OperationStats) (attempt : ℕ)
        → let s' = (delay_after c call e s attempt).1 in
          (s'.total_attempts ≡ s.total_attempts)
          × (s'.successful_attempts ≡ s.successful_attempts)
          × (s'.failed_attempts ≡ s.failed_attempts)
    unfolding delay_after
    delay-counts e s attempt = elim (Bool-cases (call.telegram_name || e.is_telegram)) [
      | inl telegram ↦ rw telegram (telegram-counts e.kind s attempt)
      | inr other ↦ rw other (refl, refl, refl)
    ]

    record Counted (s : OperationStats) (t : Trace R) : Type 0 where
      total : t.stats.total_attempts ≡ s.total_attempts + t.attempts
      balanced :
          t.stats.successful_attempts + t.stats.failed_attempts
          ≡ s.successful_attempts + s.failed_attempts + t.attempts

    -- What the loop does by what the attempt gives
    pub on_return :
        (n first : ℕ) (s : OperationStats) (r : R)
        → call.operation first ≡ returned r
        → attempts_from c call (suc n) first s ≡ record {
          outcome = result r;
          stats = update_success s;
          attempts = 1;
          sleeps = throttle_sleeps c call s first;
        }
    unfolding attempts_from
    on_return n first s r e = rw (attempts_from, e) refl

    pub on_last :
        (first : ℕ) (s : OperationStats) (f : Failure)
        → call.operation first ≡ raised f
        → attempts_from c call 1 first s ≡ record {
          outcome = last_exception f;
          stats = update_failure s;
          attempts = 1;
          sleeps = throttle_sleeps c call s first;
        }
    unfolding attempts_from
    on_last first s f e = rw (attempts_from, e) refl

    abbrev pub retried : Failure → ℕ → ℕ → OperationStats → Trace R
    retried f n first s =
        attempts_from c call (suc n) (first + 1) (delay_after c call f (update_failure s) first).1

    suc-nonzero : (n : ℕ) → (suc n == 0) ≡ false
    suc-nonzero n = ground arith

    pub on_raise :
        (n first : ℕ) (s : OperationStats) (f : Failure)
        → call.operation first ≡ raised f
        → attempts_from c call (suc (suc n)) first s ≡ record (retried f n first s) {
          attempts = (retried f n first s).attempts + 1;
          sleeps =
              throttle_sleeps c call s first
              ++ (delay_after c call f (update_failure s) first).0 ∷ (retried f n first s).sleeps;
        }
    unfolding attempts_from
    on_raise n first s f e = rw (attempts_from, e, suc-nonzero n) refl

    later-IsOutcome :
        (n first : ℕ) (f : Failure) (t : Trace R) (sleeps : List Fraction)
        → call.operation first ≡ raised f
        → IsOutcome (suc n) (first + 1) t
        → IsOutcome (suc (suc n)) first (record t { attempts = t.attempts + 1; sleeps = sleeps })
    later-IsOutcome n first f t sleeps e (success k r h all ret o a) =
        success (suc k) r (omega (arith, h)) ((f, e), all) (ap call.operation (omega arith) ∙ ret) o
          (omega (arith, a))
    later-IsOutcome n first f t sleeps e (failure g all last o a) =
        failure g ((f, e), all) (ap call.operation (omega arith) ∙ last) o (omega (arith, a))

    attempts_from-IsOutcome :
        (n first : ℕ) (s : OperationStats)
        → IsOutcome (suc n) first (attempts_from c call (suc n) first s)
          × Counted s (attempts_from c call (suc n) first s)
    attempts_from-IsOutcome zero first s = elim (Attempt-cases (call.operation first)) [
      | inl (r, e) ↦ rw (on_return 0 first s r e) (
        success 0 r (omega arith) tt (ap call.operation (omega arith) ∙ e) refl refl,
        record { total = omega arith; balanced = omega arith },
      )
      | inr (f, e) ↦ rw (on_last first s f e) (
        failure f ((f, e), tt) (ap call.operation (omega arith) ∙ e) refl refl,
        record { total = omega arith; balanced = omega arith },
      )
    ]
    attempts_from-IsOutcome (suc n) first s = elim (Attempt-cases (call.operation first)) [
      | inl (r, e) ↦ rw (on_return (suc n) first s r e) (
        success 0 r (omega arith) tt (ap call.operation (omega arith) ∙ e) refl refl,
        record { total = omega arith; balanced = omega arith },
      )
      | inr (f, e) ↦
          let (outcome, counted) =
            attempts_from-IsOutcome n (first + 1)
              (delay_after c call f (update_failure s) first).1 in
          let (total, successful, failed) = delay-counts f (update_failure s) first in
          rw (on_raise n first s f e) (
            later-IsOutcome n first f (retried f n first s) _ e outcome,
            record {
              total = omega (arith, counted.total, total);
              balanced = omega (arith, counted.balanced, successful, failed);
            },
          )
    ]

    -- The loop makes attempts until one does not raise, `max_attempts` at most, and returns that result,
    -- or else the error of the last attempt; each attempt is counted once in the total and once as a
    -- success or as a failure.
    pub execute_with_retry-IsOutcome :
        (s : OperationStats)
        → 1 ≤ c.max_attempts
        → let t = execute_with_retry c call s in
          IsOutcome c.max_attempts 1 t
          × (t.stats.total_attempts ≡ s.total_attempts + t.attempts)
          × (t.stats.successful_attempts + t.stats.failed_attempts
              ≡ s.successful_attempts + s.failed_attempts + t.attempts)
    execute_with_retry-IsOutcome s h = go c.max_attempts h
      where
        go :
            (n : ℕ)
            → 1 ≤ n
            → let t = attempts_from c call n 1 s in
              IsOutcome n 1 t
              × (t.stats.total_attempts ≡ s.total_attempts + t.attempts)
              × (t.stats.successful_attempts + t.stats.failed_attempts
                  ≡ s.successful_attempts + s.failed_attempts + t.attempts)
        go zero k = absurd (omega arith)
        go (suc n) k =
            let (outcome, counted) = attempts_from-IsOutcome n 1 s in
            (outcome, counted.total, counted.balanced)
