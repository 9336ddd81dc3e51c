-- ===== src/LogBatcher/Tests.antt =====
-- Two threads that log a message, with two flushes that overlap.
use text.Mathlib.Text.{◌==◌ as str_eq}
use text.Mathlib.TextEquality.{eq_iff}
use tobs.Prelude.{
  String, Bool-cases, inl, inr, ℕ, ◌+◌, ◌≡◌, refl, List, [], ◌∷◌, ℕ_discrete, ◌==◌, arith,
}
use tobs.LogBatcher.{Level, info, error, other, new_batcher, Op, log_op, flush_op, emit_op, run}
use tobs.LogBatcher.Kept.{total_emitted, total_flushing, total_batches, logged, run-kept}

string_discrete : Discrete String
string_discrete s t = elim (Bool-cases (str_eq s t)) [
  | inl e ↦ yes ((eq_iff s t).0 e)
  | inr e ↦ no (λ same. let e' = (eq_iff s t).1 same in absurd (ground (arith, e, e')))
]

keys_discrete : Discrete (Level × ℕ)
keys_discrete = hlevel (ℕ_discrete, string_discrete)

-- The message 7 is logged twice, a first flush takes it, and it is logged again before it is emitted.
abbrev calls : List (Op ℕ)
calls =
    log_op info 7
    ∷ log_op (other "TRACE") 7
    ∷ log_op info 7
    ∷ flush_op
    ∷ log_op info 7
    ∷ log_op error 7
    ∷ flush_op
    ∷ emit_op 1
    ∷ emit_op 0
    ∷ []

calls-logged : logged keys_discrete (λ level message. message == 7) calls ≡ 5
calls-logged = refl

run-kept_example :
    let b = run keys_discrete calls new_batcher in
    total_emitted keys_discrete (λ level message. message == 7) b.emitted
      + total_flushing keys_discrete (λ level message. message == 7) b.flushing
      + total_batches keys_discrete (λ level message. message == 7) b.batches
    ≡ logged keys_discrete (λ level message. message == 7) calls
run-kept_example = run-kept keys_discrete (λ level message. message == 7) calls
