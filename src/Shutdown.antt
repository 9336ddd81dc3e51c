-- ===== src/Shutdown.antt =====
-- `ShutdownManager` of src/shutdown_manager.py. Times are in milliseconds. A hook is given with whether it
-- raises; `ran` are the hooks that were called, `flushes` counts the times `_run_minimal_cleanup` flushes
-- the log (a hook that flushes it too is among `ran`), `exited` is set by `sys.exit`. The output is left
-- out.
pub mod Hooks
pub mod Stages
mod Tests
use tobs.Prelude.{
  ℕ, ◌+◌, Option, none, some, Bool, true, false, List, [], ◌∷◌, ◌++◌, ltb, if◌then◌else◌,
}

pub record Manager (H : Type 0) : Type 0 where
  pub shutdown_requested : Bool
  pub force_shutdown : Bool
  pub first_sigint_time : Option ℕ
  pub cleanup_hooks : List H
  pub async_cleanup_hooks : List H
  pub ran : List H
  pub failures : ℕ
  pub flushes : ℕ
  pub exited : Bool

abbrev pub new_manager : {H : Type 0} → Manager H
new_manager = record {
  shutdown_requested = false;
  force_shutdown = false;
  first_sigint_time = none;
  cleanup_hooks = [];
  async_cleanup_hooks = [];
  ran = [];
  failures = 0;
  flushes = 0;
  exited = false;
}

-- What happens to the manager; `sigint_op` has the time of the signal.
pub data Op (H : Type 0) : Type 0 where
  register_op : H → Op H
  register_async_op : H → Op H
  sigint_op : ℕ → Op H
  cleanup_op : Op H

-- `self.first_sigint_time or 0`
abbrev pub or_zero : Option ℕ → ℕ
or_zero none = 0
or_zero (some time) = time

module _ {H : Type 0} (raises : H → Bool) (force_shutdown_timeout : ℕ) where
  abbrev pub register_cleanup_hook : H → Manager H → Manager H
  register_cleanup_hook hook m = record m { cleanup_hooks = m.cleanup_hooks ++ hook ∷ [] }

  abbrev pub register_async_cleanup_hook : H → Manager H → Manager H
  register_async_cleanup_hook hook m = record m {
    async_cleanup_hooks = m.async_cleanup_hooks ++ hook ∷ [];
  }

  abbrev pub request_shutdown : ℕ → Manager H → Manager H
  request_shutdown now m = record m { shutdown_requested = true; first_sigint_time = some now }

  -- With `_run_minimal_cleanup`
  abbrev pub force : Manager H → Manager H
  force m = record m { force_shutdown = true; flushes = m.flushes + 1; exited = true }

  -- The time since the first signal is below the time-out where the sum is above the time now.
  abbrev pub handle_sigint : ℕ → Manager H → Manager H
  handle_sigint now m =
      if m.shutdown_requested
      then (if ltb now (or_zero m.first_sigint_time + force_shutdown_timeout)
          then force m
          else request_shutdown now m)
      else request_shutdown now m

  abbrev pub run_hook : H → Manager H → Manager H
  run_hook hook m = record m {
    ran = m.ran ++ hook ∷ [];
    failures = (if raises hook then m.failures + 1 else m.failures);
  }

  unfoldable pub run_hooks : List H → Manager H → Manager H
  run_hooks [] m = m
  run_hooks (hook ∷ hooks) m = run_hooks hooks (run_hook hook m)

  unfoldable pub run_graceful_cleanup : Manager H → Manager H
  unfolding run_hooks
  run_graceful_cleanup m =
      if m.shutdown_requested
      then run_hooks m.async_cleanup_hooks (run_hooks m.cleanup_hooks m)
      else m

  abbrev pub apply_op : Op H → Manager H → Manager H
  apply_op (register_op hook) m = register_cleanup_hook hook m
  apply_op (register_async_op hook) m = register_async_cleanup_hook hook m
  apply_op (sigint_op now) m = handle_sigint now m
  apply_op cleanup_op m = run_graceful_cleanup m

  -- `sys.exit` raises SystemExit, after which the `finally` blocks run and signals still come in.
  unfoldable pub run : List (Op H) → Manager H → Manager H
  unfolding run_graceful_cleanup
  run [] m = m
  run (op ∷ ops) m = run ops (apply_op op m)
