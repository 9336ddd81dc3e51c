-- ===== src/Retry/Delays.antt =====
-- How long the loop sleeps.
use native.Mathlib.Nat.{mul-le-mul, mul-le-mul_left, mul-le-mul_right}
use tobs.Prelude.{
  ℕ, zero, suc, ◌+◌, ◌*◌, ◌≤◌, ◌≡◌, min, Bool, true, false, [], ◌∷◌, All, All-append, arith, inl,
  inr, ◌==◌, leb, if◌then◌else◌, ◌||◌, Bool-cases,
}
use tobs.Retry.Outcomes.{Attempt-cases, on_return, on_last, on_raise}
use tobs.Retry.{
  ConnectionConfig, OperationStats, Fraction, whole, times, at_most, at_least, add_jitter,
  base_delay_of, calculate_delay, is_throttled, calculate_throttle_delay, ErrorKind, flood_wait,
  slow_mode_wait, timeout_error, get_file_request, rpc_error, other_error, handle_telegram_error,
  update_failure, Failure, raised, Call, throttle_sleeps, delay_after, attempts_from,
  execute_with_retry,
}

-- A fraction that is at most n
abbrev pub IsWithin : ℕ → Fraction → Type 0
IsWithin n f = f.num ≤ n * f.den

at_most-IsWithin : (n : ℕ) (f : Fraction) → IsWithin n (at_most n f)
at_most-IsWithin n f = ground arith

le_of_scaled : (n bound range : ℕ) → (1000 + range) * n ≤ 1000 * bound → n ≤ bound
le_of_scaled n bound range h = omega (arith, h)

IsWithin-weaken : (n bound : ℕ) (f : Fraction) → n ≤ bound → IsWithin n f → IsWithin bound f
IsWithin-weaken n bound f h k = omega (arith, k, mul-le-mul_right f.den h)

if-IsWithin :
    (bound : ℕ) (b : Bool) (f g : Fraction)
    → IsWithin bound f
    → IsWithin bound g
    → IsWithin bound (if b then f else g)
if-IsWithin bound true f g h k = h
if-IsWithin bound false f g h k = k

add_jitter-IsWithin :
    (n bound factor range : ℕ) (f : Fraction)
    → IsWithin n f
    → factor ≤ 1000 + range
    → 100 ≤ bound
    → (1000 + range) * n ≤ 1000 * bound
    → IsWithin bound (add_jitter factor f range)
add_jitter-IsWithin n bound factor range f h k low all =
    let jittered : Fraction = times f (record { num = factor; den = 1000 }) in
    if-IsWithin bound (range == 0) f (at_least (whole 100) jittered)
      (IsWithin-weaken n bound f (le_of_scaled n bound range all) h)
      (if-IsWithin bound (leb (100 * jittered.den) (jittered.num * 1)) jittered (whole 100)
        (omega (arith, mul-le-mul h k, mul-le-mul_left f.den all)) (omega (arith, low)))

-- The limits that hold of the sleeps: five minutes, the greatest delay with its jitter, and the waits
-- that the server asks for
pub record Limits {R : Type 0} (c : ConnectionConfig) (call : Call R) (bound : ℕ) : Type 0 where
  pub five_minutes : 300000 ≤ bound
  pub greatest_delay : (1000 + c.jitter_range) * c.max_delay ≤ 1000 * bound
  pub jitter : (attempt : ℕ) → call.jitter_factor attempt ≤ 1000 + c.jitter_range
  pub throttle : (attempt : ℕ) → call.throttle_factor attempt ≤ 1200
  pub flood :
      (attempt seconds : ℕ) (telegram : Bool)
      → call.operation attempt
        ≡ raised (record { kind = flood_wait seconds; is_telegram = telegram })
      → 1000 * seconds ≤ bound
  pub slow :
      (attempt seconds : ℕ) (telegram : Bool)
      → call.operation attempt
        ≡ raised (record { kind = slow_mode_wait seconds; is_telegram = telegram })
      → 1000 * seconds ≤ bound

module _ {R : Type 0} (c : ConnectionConfig) (call : Call R) (bound : ℕ)
    (l : Limits c call bound) where
  delay-IsWithin :
      (s : OperationStats) (attempt : ℕ)
      → IsWithin bound (calculate_delay c (call.jitter_factor attempt) s attempt)
  unfolding calculate_delay
  delay-IsWithin s attempt =
      let delay : Fraction = at_most c.max_delay (base_delay_of c c.strategy s attempt) in
      let capped = at_most-IsWithin c.max_delay (base_delay_of c c.strategy s attempt) in
      if-IsWithin bound c.jitter (add_jitter (call.jitter_factor attempt) delay c.jitter_range)
        delay
        (add_jitter-IsWithin c.max_delay bound (call.jitter_factor attempt) c.jitter_range delay
          capped (l.jitter attempt) (omega (arith, l.five_minutes)) l.greatest_delay)
        (IsWithin-weaken c.max_delay bound delay
          (le_of_scaled c.max_delay bound c.jitter_range l.greatest_delay) capped)

  throttle-IsWithin :
      (s : OperationStats) (attempt : ℕ)
      → IsWithin bound (calculate_throttle_delay c (call.throttle_factor attempt) s)
  unfolding calculate_throttle_delay
  throttle-IsWithin s attempt =
      if-IsWithin bound (is_throttled c s)
        (record {
          num = min 30000 (2000 * s.consecutive_failures) * call.throttle_factor attempt;
          den = 1000;
        })
        (whole 0)
        (omega
          (arith, l.five_minutes, mul-le-mul (few s.consecutive_failures) (l.throttle attempt)))
        (omega arith)
    where
      few : (n : ℕ) → min 30000 (2000 * n) ≤ 30000
      few n = omega arith

  telegram-IsWithin :
      (attempt : ℕ) (s : OperationStats) (kind : ErrorKind) (telegram : Bool)
      → call.operation attempt ≡ raised (record { kind = kind; is_telegram = telegram })
      → (handle_telegram_error kind s attempt).0 ≤ bound
  unfolding handle_telegram_error
  telegram-IsWithin attempt s (flood_wait seconds) telegram h = l.flood attempt seconds telegram h
  telegram-IsWithin attempt s (slow_mode_wait seconds) telegram h =
      l.slow attempt seconds telegram h
  telegram-IsWithin attempt s timeout_error telegram h = omega (arith, l.five_minutes)
  telegram-IsWithin attempt s get_file_request telegram h = omega (arith, l.five_minutes)
  telegram-IsWithin attempt s rpc_error telegram h = omega (arith, l.five_minutes)
  telegram-IsWithin attempt s other_error telegram h = omega (arith, l.five_minutes)

  delay_after-IsWithin :
      (attempt : ℕ) (s : OperationStats) (e : Failure)
      → call.operation attempt ≡ raised e
      → IsWithin bound (delay_after c call e s attempt).0
  unfolding delay_after
  delay_after-IsWithin attempt s e h = elim (Bool-cases (call.telegram_name || e.is_telegram)) [
    | inl telegram ↦
        rw (delay_after, telegram)
          (omega (arith, telegram-IsWithin attempt s e.kind e.is_telegram h))
    | inr other ↦ rw (delay_after, other) (delay-IsWithin s attempt)
  ]

  throttle_sleeps-IsWithin :
      (s : OperationStats) (attempt : ℕ) → All (IsWithin bound) (throttle_sleeps c call s attempt)
  throttle_sleeps-IsWithin s attempt =
      go (calculate_throttle_delay c (call.throttle_factor attempt) s) (throttle-IsWithin s attempt)
    where
      go :
          (delay : Fraction)
          → IsWithin bound delay
          → All (IsWithin bound) (if delay.num == 0 then [] else delay ∷ [])
      go delay h = elim (Bool-cases (delay.num == 0)) [ inl e ↦ rw e tt | inr e ↦ rw e (h, tt) ]

  sleeps-IsWithin :
      (n first : ℕ) (s : OperationStats)
      → All (IsWithin bound) (attempts_from c call (suc n) first s).sleeps
  sleeps-IsWithin zero first s = elim (Attempt-cases (call.operation first)) [
    | inl (r, e) ↦ rw (on_return call c 0 first s r e) (throttle_sleeps-IsWithin s first)
    | inr (f, e) ↦ rw (on_last call c first s f e) (throttle_sleeps-IsWithin s first)
  ]
  sleeps-IsWithin (suc n) first s = elim (Attempt-cases (call.operation first)) [
    | inl (r, e) ↦ rw (on_return call c (suc n) first s r e) (throttle_sleeps-IsWithin s first)
    | inr (f, e) ↦ rw (on_raise call c n first s f e) (
        All-append (IsWithin bound) (throttle_sleeps c call s first) _
          (throttle_sleeps-IsWithin s first)
          (
            delay_after-IsWithin first (update_failure s) f e,
            sleeps-IsWithin n (first + 1) (delay_after c call f (update_failure s) first).1,
          ))
  ]

  -- Every sleep of the loop is at most the bound, which is five minutes or more, at least the greatest
  -- delay with its jitter on top, and at least each wait that the server asks for.
  pub execute_with_retry-IsWithin :
      (s : OperationStats)
      → 1 ≤ c.max_attempts
      → All (IsWithin bound) (execute_with_retry c call s).sleeps
  execute_with_retry-IsWithin s h = go c.max_attempts h
    where
      go : (n : ℕ) → 1 ≤ n → All (IsWithin bound) (attempts_from c call n 1 s).sleeps
      go zero k = absurd (omega arith)
      go (suc n) k = sleeps-IsWithin n 1 s
