-- ===== src/Retry/Timeouts.antt =====
-- The time-out of an attempt.
use native.Mathlib.Nat.{mul-le-mul}
use tobs.Prelude.{ℕ, ◌+◌, ◌*◌, ◌≤◌, min, max, arith}
use tobs.Retry.{ConnectionConfig, OperationStats, base_timeout_for, calculate_timeout}

module _ (c : ConnectionConfig) where
  base_mono :
      (small large : ℕ)
      → c.base_timeout ≤ c.large_file_timeout
      → c.large_file_timeout ≤ c.huge_file_timeout
      → small ≤ large
      → base_timeout_for c small ≤ base_timeout_for c large
  base_mono small large h k l = ground arith

  clamp_mono : (a b low high : ℕ) → a ≤ b → max (min a high) low ≤ max (min b high) low
  clamp_mono a b low high h = omega arith

  max_mono : (a b d e : ℕ) → a ≤ b → d ≤ e → max a d ≤ max b e
  max_mono a b d e h k = omega arith

  -- The time-out of an attempt lies between three minutes and four hours, and where the three time-outs
  -- of the configuration grow with the size of the file, it never falls when the file is larger or more
  -- attempts have timed out.
  pub calculate_timeout_mono :
      (small large : ℕ) (s later : OperationStats)
      → c.base_timeout ≤ c.large_file_timeout
      → c.large_file_timeout ≤ c.huge_file_timeout
      → small ≤ large
      → s.timeout_count ≤ later.timeout_count
      → (180000 * 1024 ≤ calculate_timeout c small s)
        × (calculate_timeout c small s ≤ calculate_timeout c large later)
        × (calculate_timeout c large later ≤ 14400000 * 1024)
  unfolding calculate_timeout
  calculate_timeout_mono small large s later h k l counts =
      let base = base_mono small large h k l in
      let factor : min (2 + s.timeout_count) 6 ≤ min (2 + later.timeout_count) 6 =
        omega (arith, counts) in
      let product = mul-le-mul base factor in
      (
        omega arith,
        clamp_mono _ _ _ _ (max_mono _ _ _ _ (omega (arith, product)) (omega (arith, l))),
        omega arith,
      )
