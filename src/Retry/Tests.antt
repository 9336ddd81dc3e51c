-- ===== src/Retry/Tests.antt =====
-- An operation that fails twice, and the theorems applied there.
use tobs.Prelude.{ℕ, zero, suc, ◌+◌, ◌*◌, ◌≤◌, ◌≡◌, refl, Bool, true, false, [], ◌∷◌, All, arith}
use tobs.Retry.{
  ConnectionConfig, exponential, OperationStats, Failure, flood_wait, slow_mode_wait, other_error,
  Attempt, returned, raised, result, Call, execute_with_retry, attempts_from,
  calculate_throttle_delay, delay_after, handle_telegram_error, calculate_delay,
}
use tobs.Retry.Outcomes.{IsOutcome, execute_with_retry-IsOutcome}
use tobs.Retry.Delays.{IsWithin, Limits, execute_with_retry-IsWithin}

abbrev config : ConnectionConfig
config = record {
  max_attempts = 3;
  base_delay = 1000;
  max_delay = 60000;
  strategy = exponential;
  jitter = true;
  jitter_range = 100;
  backoff_multiplier = 2000;
  base_timeout = 300000;
  large_file_timeout = 3600000;
  huge_file_timeout = 7200000;
  speed_threshold_kbps = 50;
  detection_window = 5;
}

abbrev new_stats : OperationStats
new_stats = record {
  total_attempts = 0;
  successful_attempts = 0;
  failed_attempts = 0;
  consecutive_failures = 0;
  consecutive_successes = 0;
  speed_history = [];
  timeout_count = 0;
}

abbrev flood : Failure
flood = record { kind = flood_wait 7; is_telegram = true }

abbrev broken : Failure
broken = record { kind = other_error; is_telegram = false }

abbrev attempt : ℕ → Attempt ℕ
attempt zero = returned 0
attempt (suc zero) = raised broken
attempt (suc (suc zero)) = raised flood
attempt (suc (suc (suc n))) = returned (n + 3)

abbrev call : Call ℕ
call = record {
  operation = attempt;
  jitter_factor = λ n. 1050;
  throttle_factor = λ n. 1000;
  telegram_name = false;
}

outcome-test : (execute_with_retry config call new_stats).outcome ≡ result 3
unfolding attempts_from calculate_throttle_delay delay_after handle_telegram_error calculate_delay
outcome-test = refl

-- 1050 milliseconds after the first attempt, 7 seconds after the second
sleeps-test :
    (execute_with_retry config call new_stats).sleeps
    ≡ record { num = 1050000; den = 1000 } ∷ record { num = 7000; den = 1 } ∷ []
unfolding attempts_from calculate_throttle_delay delay_after handle_telegram_error calculate_delay
sleeps-test = refl

execute_with_retry-IsOutcome_example :
    let t = execute_with_retry config call new_stats in
    IsOutcome call 3 1 t
    × (t.stats.total_attempts ≡ 0 + t.attempts)
    × (t.stats.successful_attempts + t.stats.failed_attempts ≡ 0 + t.attempts)
execute_with_retry-IsOutcome_example =
    execute_with_retry-IsOutcome call config new_stats (omega arith)

raised-flood :
    (n seconds : ℕ) (telegram : Bool)
    → attempt n ≡ raised (record { kind = flood_wait seconds; is_telegram = telegram })
    → 1000 * seconds ≤ 300000
raised-flood zero seconds telegram h = absurd (ground arith)
raised-flood (suc zero) seconds telegram h = absurd (ground arith)
raised-flood (suc (suc zero)) seconds telegram h = ground arith
raised-flood (suc (suc (suc n))) seconds telegram h = absurd (ground arith)

raised-slow :
    (n seconds : ℕ) (telegram : Bool)
    → attempt n ≡ raised (record { kind = slow_mode_wait seconds; is_telegram = telegram })
    → 1000 * seconds ≤ 300000
raised-slow zero seconds telegram h = absurd (ground arith)
raised-slow (suc zero) seconds telegram h = absurd (ground arith)
raised-slow (suc (suc zero)) seconds telegram h = absurd (ground arith)
raised-slow (suc (suc (suc n))) seconds telegram h = absurd (ground arith)

call-Limits : Limits config call 300000
call-Limits = record {
  five_minutes = omega arith;
  greatest_delay = omega arith;
  jitter = λ n. omega arith;
  throttle = λ n. omega arith;
  flood = raised-flood;
  slow = raised-slow;
}

execute_with_retry-IsWithin_example :
    All (IsWithin 300000) (execute_with_retry config call new_stats).sleeps
execute_with_retry-IsWithin_example =
    execute_with_retry-IsWithin config call 300000 call-Limits new_stats (omega arith)
