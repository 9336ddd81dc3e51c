-- ===== src/Shutdown/Hooks.antt =====
-- Which hooks a graceful clean-up runs.
use tobs.Prelude.{
  ℕ, ◌+◌, ◌≡◌, refl, ◌∙◌, ap, Bool, List, [], ◌∷◌, ◌++◌, length, keep, arith, if◌then◌else◌,
}
use mathlib.Core.List.{append_assoc}
use tobs.Shutdown.{Manager, run_hook, run_hooks, run_graceful_cleanup}

module _ {H : Type 0} (raises : H → Bool) (timeout : ℕ) where
  append_nil : (hooks : List H) → hooks ++ [] ≡ hooks
  append_nil [] = refl
  append_nil (hook ∷ hooks) = rw (append_nil hooks)

  -- What running hooks does
  abbrev with_hooks : List H → Manager H → Manager H
  with_hooks hooks m = record m {
    ran = m.ran ++ hooks;
    failures = m.failures + length (keep raises hooks);
  }

  run_hooks-with_hooks :
      (hooks : List H) (m : Manager H) → run_hooks raises timeout hooks m ≡ with_hooks hooks m
  unfolding run_hooks
  run_hooks-with_hooks [] m =
      let same : m.failures + 0 ≡ m.failures = omega arith in rw (append_nil m.ran, same) refl
  run_hooks-with_hooks (hook ∷ hooks) m =
      let counted : (if raises hook then m.failures + 1 else m.failures)
            + length (keep raises hooks)
          ≡ m.failures + length (keep raises (hook ∷ hooks)) =
        ground arith in
      run_hooks-with_hooks hooks (run_hook raises timeout hook m)
      ∙ ap (λ n. record m { ran = (m.ran ++ hook ∷ []) ++ hooks; failures = n }) counted
      ∙ ap (λ r. record m { ran = r; failures = m.failures + length (keep raises (hook ∷ hooks)) })
          (append_assoc m.ran (hook ∷ []) hooks)

  -- A graceful clean-up that was requested runs each registered hook once, the synchronous ones first,
  -- in the order of their registration, whichever of them raise, and counts those that do; one that
  -- was not requested does nothing.
  pub run_graceful_cleanup-ran :
      (m : Manager H)
      → run_graceful_cleanup raises timeout m ≡ (
          if m.shutdown_requested
          then record m {
            ran = m.ran ++ (m.cleanup_hooks ++ m.async_cleanup_hooks);
            failures =
                m.failures
                + length (keep raises m.cleanup_hooks)
                + length (keep raises m.async_cleanup_hooks);
          }
          else m)
  unfolding run_graceful_cleanup
  run_graceful_cleanup-ran m =
      ap (λ r. if m.shutdown_requested then r else m)
        (ap (run_hooks raises timeout m.async_cleanup_hooks)
            (run_hooks-with_hooks m.cleanup_hooks m)
          ∙ run_hooks-with_hooks m.async_cleanup_hooks (with_hooks m.cleanup_hooks m)
          ∙ ap
              (λ r. record m {
                ran = r;
                failures =
                    m.failures
                    + length (keep raises m.cleanup_hooks)
                    + length (keep raises m.async_cleanup_hooks);
              })
              (append_assoc m.ran m.cleanup_hooks m.async_cleanup_hooks))
