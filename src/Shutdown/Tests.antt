-- ===== src/Shutdown/Tests.antt =====
-- Two hooks, one of which raises, and signals with a time-out of five seconds.
use tobs.Prelude.{ℕ, ◌≡◌, refl, Bool, true, false, List, [], ◌∷◌, ◌==◌}
use tobs.Shutdown.{
  new_manager, Op, register_op, register_async_op, sigint_op, cleanup_op, run_hooks,
  run_graceful_cleanup, run,
}
use tobs.Shutdown.Stages.{run-exits}

abbrev raises : ℕ → Bool
raises hook = hook == 2

abbrev slow_signals : List (Op ℕ)
slow_signals =
    register_async_op 1
    ∷ register_op 2
    ∷ cleanup_op
    ∷ sigint_op 1000
    ∷ sigint_op 6000
    ∷ cleanup_op
    ∷ []

abbrev signals : List (Op ℕ)
signals =
    register_op 1
    ∷ sigint_op 1000
    ∷ sigint_op 7000
    ∷ cleanup_op
    ∷ sigint_op 9000
    ∷ cleanup_op
    ∷ sigint_op 10000
    ∷ []

run-exits_example :
    let m = run raises 5000 signals new_manager in
    (m.exited ≡ true) × (m.force_shutdown ≡ true) × (m.flushes ≡ 2)
run-exits_example = run-exits raises 5000 signals

graceful-test :
    let m = run raises 5000 slow_signals new_manager in
    (m.ran ≡ 2 ∷ 1 ∷ []) × (m.failures ≡ 1) × (m.exited ≡ false)
unfolding run run_graceful_cleanup run_hooks
graceful-test = (refl, refl, refl)
