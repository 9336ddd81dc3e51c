-- ===== src/Retry.antt =====
-- The retry loop of `ConnectionManager` in src/core/connection.py, with its delays and time-outs. Times
-- are milliseconds, and a computed time is a fraction of them; factors are thousandths. The operation,
-- run in its pool with the time-out, and the random jitter are parameters.
pub mod Outcomes
pub mod Delays
pub mod Timeouts
mod Tests
use tobs.Prelude.{
  ℕ, zero, suc, ◌+◌, ◌-◌, ◌*◌, ◌^◌, min, max, Option, none, some, Bool, true, false, ◌||◌, List, [],
  ◌∷◌, ◌++◌, length, drop, ltb, leb, ◌==◌, if◌then◌else◌,
}
use tobs.Pool.{sum}

pub data BackoffStrategy : Type 0 where
  fixed linear exponential adaptive : BackoffStrategy

pub record ConnectionConfig : Type 0 where
  pub max_attempts : ℕ
  pub base_delay : ℕ
  pub max_delay : ℕ
  pub strategy : BackoffStrategy
  pub jitter : Bool
  pub jitter_range : ℕ
  pub backoff_multiplier : ℕ
  pub base_timeout : ℕ
  pub large_file_timeout : ℕ
  pub huge_file_timeout : ℕ
  pub speed_threshold_kbps : ℕ
  pub detection_window : ℕ

pub record OperationStats : Type 0 where
  pub total_attempts : ℕ
  pub successful_attempts : ℕ
  pub failed_attempts : ℕ
  pub consecutive_failures : ℕ
  pub consecutive_successes : ℕ
  pub speed_history : List ℕ
  pub timeout_count : ℕ

pub record Fraction : Type 0 where
  pub num : ℕ
  pub den : ℕ

abbrev pub update_success : OperationStats → OperationStats
update_success s = record s {
  total_attempts = s.total_attempts + 1;
  successful_attempts = s.successful_attempts + 1;
  consecutive_successes = s.consecutive_successes + 1;
  consecutive_failures = 0;
}

abbrev pub update_failure : OperationStats → OperationStats
update_failure s = record s {
  total_attempts = s.total_attempts + 1;
  failed_attempts = s.failed_attempts + 1;
  consecutive_failures = s.consecutive_failures + 1;
  consecutive_successes = 0;
}

abbrev pub whole : ℕ → Fraction
whole n = record { num = n; den = 1 }

abbrev pub times : Fraction → Fraction → Fraction
times a b = record { num = a.num * b.num; den = a.den * b.den }

abbrev pub at_most : ℕ → Fraction → Fraction
at_most n f = if leb f.num (n * f.den) then f else whole n

abbrev pub at_least : Fraction → Fraction → Fraction
at_least low f = if leb (low.num * f.den) (f.num * low.den) then f else low

-- `success_rate`
abbrev pub success_rate : OperationStats → Fraction
success_rate s =
    if s.total_attempts == 0
    then whole 1
    else record { num = s.successful_attempts; den = s.total_attempts }

-- `1.0 - (rate - 0.8) * 2` is (13 - 10 rate) / 5, and `1.0 + (0.3 - rate) * 3` is (19 - 30 rate) / 10.
abbrev pub multiplier_of : Fraction → ℕ → Fraction
multiplier_of rate failures =
    if leb (4 * rate.den) (5 * rate.num)
    then at_least (record { num = 1; den = 2 })
        (record { num = 13 * rate.den - 10 * rate.num; den = 5 * rate.den })
    else if leb (10 * rate.num) (3 * rate.den)
    then (let multiplier : Fraction = record {
      num = 19 * rate.den - 30 * rate.num;
      den = 10 * rate.den;
    } in
        at_most 5
          (if ltb 3 failures then times multiplier (record { num = 3; den = 2 }) else multiplier))
    else whole 1

abbrev pub calculate_adaptive_multiplier : OperationStats → Fraction
calculate_adaptive_multiplier s = multiplier_of (success_rate s) s.consecutive_failures

abbrev pub add_jitter : ℕ → Fraction → ℕ → Fraction
add_jitter factor delay jitter_range =
    if jitter_range == 0
    then delay
    else at_least (whole 100) (times delay (record { num = factor; den = 1000 }))

module _ (c : ConnectionConfig) where
  abbrev pub exponential_delay : ℕ → Fraction
  exponential_delay attempt = record {
    num = c.base_delay * c.backoff_multiplier ^ (attempt - 1);
    den = 1000 ^ (attempt - 1);
  }

  abbrev pub base_delay_of : BackoffStrategy → OperationStats → ℕ → Fraction
  base_delay_of fixed s attempt = whole c.base_delay
  base_delay_of linear s attempt = whole (c.base_delay * attempt)
  base_delay_of exponential s attempt = exponential_delay attempt
  base_delay_of adaptive s attempt =
      times (exponential_delay attempt) (calculate_adaptive_multiplier s)

  -- `factor` is 1 with the jitter that `random.uniform` gives.
  unfoldable pub calculate_delay : ℕ → OperationStats → ℕ → Fraction
  calculate_delay factor s attempt =
      let delay = at_most c.max_delay (base_delay_of c.strategy s attempt) in
      if c.jitter then add_jitter factor delay c.jitter_range else delay

  abbrev pub base_timeout_for : ℕ → ℕ
  base_timeout_for file_size =
      if ltb (1000 * 1048576) file_size
      then c.huge_file_timeout
      else if ltb (500 * 1048576) file_size
      then c.large_file_timeout
      else c.base_timeout

  -- In 1024 parts of a millisecond: `estimated_time` is the size in KB over 1000 KB/s.
  unfoldable pub calculate_timeout : ℕ → OperationStats → ℕ
  calculate_timeout file_size s =
      let adapted = 512 * (base_timeout_for file_size * min (2 + s.timeout_count) 6) in
      max (min (max adapted (2 * file_size)) (14400000 * 1024)) (180000 * 1024)

  -- The window is positive.
  abbrev pub is_throttled : OperationStats → Bool
  is_throttled s =
      if ltb (length s.speed_history) c.detection_window
      then false
      else (let recent = drop (length s.speed_history - c.detection_window) s.speed_history in
          ltb (sum recent) (c.speed_threshold_kbps * length recent))

  unfoldable pub calculate_throttle_delay : ℕ → OperationStats → Fraction
  calculate_throttle_delay factor s =
      if is_throttled s
      then record { num = min 30000 (2000 * s.consecutive_failures) * factor; den = 1000 }
      else whole 0

-- The first test of `handle_telegram_error` that an error meets
pub data ErrorKind : Type 0 where
  flood_wait : ℕ → ErrorKind
  slow_mode_wait : ℕ → ErrorKind
  timeout_error get_file_request rpc_error other_error : ErrorKind

-- `is_telegram`: one of the four classes of Telethon that `execute_with_retry` tests for
pub record Failure : Type 0 where
  pub kind : ErrorKind
  pub is_telegram : Bool

abbrev pub timeout_delay : ℕ → ℕ → ℕ
timeout_delay timeout_count attempt =
    let base_delay = 10000 + 5000 * attempt in
    min (if ltb 1 timeout_count then base_delay * min timeout_count 5 else base_delay) 300000

unfoldable pub handle_telegram_error : ErrorKind → OperationStats → ℕ → ℕ × OperationStats
handle_telegram_error (flood_wait seconds) s attempt = (1000 * seconds, s)
handle_telegram_error (slow_mode_wait seconds) s attempt = (1000 * seconds, s)
handle_telegram_error timeout_error s attempt =
    (timeout_delay (s.timeout_count + 1) attempt, record s { timeout_count = s.timeout_count + 1 })
handle_telegram_error get_file_request s attempt = (min (5000 + 2000 * attempt) 60000, s)
handle_telegram_error rpc_error s attempt = (min (3000 + 1500 * attempt) 30000, s)
handle_telegram_error other_error s attempt = (min (2000 + 1000 * attempt) 60000, s)

pub data Attempt (R : Type 0) : Type 0 where
  returned : R → Attempt R
  raised : Failure → Attempt R

-- How `execute_with_retry` ends; `never_ran` is its RuntimeError.
pub data Ended (R : Type 0) : Type 0 where
  result : R → Ended R
  last_exception : Failure → Ended R
  never_ran : Ended R

pub record Trace (R : Type 0) : Type 0 where
  pub outcome : Ended R
  pub stats : OperationStats
  pub attempts : ℕ
  pub sleeps : List Fraction

-- The n-th attempt, the factors of its two jitters, and whether the name has "telegram" in it
pub record Call (R : Type 0) : Type 0 where
  pub operation : ℕ → Attempt R
  pub jitter_factor : ℕ → ℕ
  pub throttle_factor : ℕ → ℕ
  pub telegram_name : Bool

module _ {R : Type 0} (c : ConnectionConfig) (call : Call R) where
  abbrev pub throttle_sleeps : OperationStats → ℕ → List Fraction
  throttle_sleeps s attempt =
      let delay = calculate_throttle_delay c (call.throttle_factor attempt) s in
      if delay.num == 0 then [] else delay ∷ []

  unfoldable pub delay_after : Failure → OperationStats → ℕ → Fraction × OperationStats
  unfolding handle_telegram_error calculate_delay
  delay_after e s attempt =
      if call.telegram_name || e.is_telegram
      then (let (delay, s') = handle_telegram_error e.kind s attempt in (whole delay, s'))
      else (calculate_delay c (call.jitter_factor attempt) s attempt, s)

  -- `remaining` attempts, from the given one on
  unfoldable pub attempts_from : ℕ → ℕ → OperationStats → Trace R
  unfolding calculate_throttle_delay delay_after
  attempts_from zero attempt s = record {
    outcome = never_ran;
    stats = s;
    attempts = 0;
    sleeps = [];
  }
  attempts_from (suc remaining) attempt s =
      let before = throttle_sleeps s attempt in
      elim (call.operation attempt) [
        | returned r ↦ record {
          outcome = result r;
          stats = update_success s;
          attempts = 1;
          sleeps = before;
        }
        | raised e ↦
            let (delay, s') = delay_after e (update_failure s) attempt in
            let rest = attempts_from remaining (attempt + 1) s' in
            if remaining == 0
            then record {
              outcome = last_exception e;
              stats = update_failure s;
              attempts = 1;
              sleeps = before;
            }
            else record rest {
              attempts = rest.attempts + 1;
              sleeps = before ++ delay ∷ rest.sleeps;
            }
      ]

  abbrev pub execute_with_retry : OperationStats → Trace R
  execute_with_retry s = attempts_from c.max_attempts 1 s
