-- ===== src/Shutdown/Stages.antt =====
-- When a shutdown is forced.
use tobs.Prelude.{
  ℕ, ◌+◌, ◌≡◌, refl, sym, subst, ◌∙◌, ap, Option, none, some, Bool, true, false, List, [], ◌∷◌,
  ◌++◌, length, keep, ltb, ◌||◌, is_some, arith, inl, inr, Bool-cases, if◌then◌else◌,
}
use tobs.Shutdown.{
  Manager, new_manager, Op, register_op, register_async_op, sigint_op, cleanup_op, or_zero,
  handle_sigint, force, request_shutdown, run_graceful_cleanup, apply_op, run,
}
use tobs.Shutdown.Hooks.{run_graceful_cleanup-ran}

abbrev pub sigints : {H : Type 0} → List (Op H) → List ℕ
sigints [] = []
sigints (register_op hook ∷ ops) = sigints ops
sigints (register_async_op hook ∷ ops) = sigints ops
sigints (sigint_op now ∷ ops) = now ∷ sigints ops
sigints (cleanup_op ∷ ops) = sigints ops

-- Some two signals after one another are less than the time-out apart.
abbrev pub close_after : ℕ → Option ℕ → List ℕ → Bool
close_after timeout last [] = false
close_after timeout none (now ∷ times) = close_after timeout (some now) times
close_after timeout (some last) (now ∷ times) =
    ltb now (last + timeout) || close_after timeout (some now) times

-- The signals that come within the time-out of the last one that asked for a graceful shutdown
abbrev pub forced_after : ℕ → Option ℕ → List ℕ → ℕ
forced_after timeout last [] = 0
forced_after timeout none (now ∷ times) = forced_after timeout (some now) times
forced_after timeout (some last) (now ∷ times) =
    if ltb now (last + timeout)
    then forced_after timeout (some last) times + 1
    else forced_after timeout (some now) times

-- The first signal has none before it.
abbrev pub has_close_signals : ℕ → List ℕ → Bool
has_close_signals timeout times = close_after timeout none times

module _ {H : Type 0} (raises : H → Bool) (timeout : ℕ) where
  -- The time is kept where a shutdown was requested.
  abbrev IsTimed : Manager H → Type 0
  IsTimed m = m.shutdown_requested ≡ is_some m.first_sigint_time

  -- A manager after some signals, given the one before them and the time kept then
  abbrev Ended : Manager H → Option ℕ → List ℕ → Manager H → Type 0
  Ended m last times n =
      (n.exited ≡ (m.exited || close_after timeout last times))
      × (n.force_shutdown ≡ (m.force_shutdown || close_after timeout last times))
      × (n.flushes ≡ m.flushes + forced_after timeout last times)

  handle_sigint-is :
      (now : ℕ) (m : Manager H) (requested close : Bool) (last : ℕ)
      → m.shutdown_requested ≡ requested
      → or_zero m.first_sigint_time ≡ last
      → ltb now (last + timeout) ≡ close
      → handle_sigint raises timeout now m ≡ (
          if requested
          then (if close then force raises timeout m else request_shutdown raises timeout now m)
          else request_shutdown raises timeout now m)
  handle_sigint-is now m requested close last e f g =
      let asked = request_shutdown raises timeout now m in
      let forced = force raises timeout m in
      ap
        (λ b.
          if b
          then (if ltb now (or_zero m.first_sigint_time + timeout) then forced else asked)
          else asked)
        e
      ∙ ap (λ t. if requested then (if ltb now (t + timeout) then forced else asked) else asked) f
      ∙ ap (λ b. if requested then (if b then forced else asked) else asked) g

  -- A signal within the time-out is one that forces.
  forced-Ended :
      (now last : ℕ) (times : List ℕ) (m n : Manager H)
      → ltb now (last + timeout) ≡ true
      → Ended (force raises timeout m) (some last) times n
      → Ended m (some last) (now ∷ times) n
  forced-Ended now last times m n close (exits, forces, flushed) = (
    exits ∙ sym (ap (λ b. m.exited || (b || rest)) close ∙ or_true m.exited),
    forces ∙ sym (ap (λ b. m.force_shutdown || (b || rest)) close ∙ or_true m.force_shutdown),
    flushed
        ∙ omega arith
        ∙ sym (
            ap
              (λ b.
                m.flushes
                + (if b
                    then forced_after timeout (some last) times + 1
                    else forced_after timeout (some now) times))
              close),
  )
    where
      rest : Bool
      rest = close_after timeout (some now) times

      or_true : (b : Bool) → (b || true) ≡ true
      or_true false = refl
      or_true true = refl

  -- A later one asks again.
  asked-Ended :
      (now last : ℕ) (times : List ℕ) (m n : Manager H)
      → ltb now (last + timeout) ≡ false
      → Ended m (some now) times n
      → Ended m (some last) (now ∷ times) n
  asked-Ended now last times m n apart (exits, forces, flushed) =
      let rest = close_after timeout (some now) times in
      (
        exits ∙ sym (ap (λ b. m.exited || (b || rest)) apart),
        forces ∙ sym (ap (λ b. m.force_shutdown || (b || rest)) apart),
        flushed
            ∙ sym (
                ap
                  (λ b.
                    m.flushes
                    + (if b
                        then forced_after timeout (some last) times + 1
                        else forced_after timeout (some now) times))
                  apart),
      )

  sigint-Ended :
      (now : ℕ) (times : List ℕ) (m n : Manager H) (k : Manager H → Manager H)
      → IsTimed m
      → k (handle_sigint raises timeout now m) ≡ n
      → ((o : Manager H) → IsTimed o → Ended o o.first_sigint_time times (k o))
      → Ended m m.first_sigint_time (now ∷ times) n
  sigint-Ended now times m n k h e rec = go m.first_sigint_time refl
    where
      by : (o : Manager H) → handle_sigint raises timeout now m ≡ o → k o ≡ n
      by o same = ap k (sym same) ∙ e

      go : (t : Option ℕ) → m.first_sigint_time ≡ t → Ended m t (now ∷ times) n
      go none f =
          let is =
            handle_sigint-is now m false (ltb now (0 + timeout)) 0 (h ∙ ap is_some f) (ap or_zero f)
              refl in
          subst (Ended m (some now) times) (by (request_shutdown raises timeout now m) is)
            (rec (request_shutdown raises timeout now m) refl)
      go (some last) f = elim (Bool-cases (ltb now (last + timeout))) [
        | inl close ↦
            let forced = force raises timeout m in
            let is =
              handle_sigint-is now m true true last (h ∙ ap is_some f) (ap or_zero f) close in
            forced-Ended now last times m n close (
              subst (Ended forced (some last) times) (by forced is)
                (subst (λ t. Ended forced t times (k forced)) f (rec forced h)))
        | inr apart ↦
            let is =
              handle_sigint-is now m true false last (h ∙ ap is_some f) (ap or_zero f) apart in
            asked-Ended now last times m n apart (
              subst (Ended m (some now) times) (by (request_shutdown raises timeout now m) is)
                (rec (request_shutdown raises timeout now m) refl))
      ]

  -- What a clean-up leaves alone
  abbrev Same : Manager H → Manager H → Type 0
  Same m n =
      (n.exited ≡ m.exited)
      × (n.force_shutdown ≡ m.force_shutdown)
      × (n.flushes ≡ m.flushes)
      × (n.first_sigint_time ≡ m.first_sigint_time)
      × (n.shutdown_requested ≡ m.shutdown_requested)

  cleanup-Same : (m : Manager H) → Same m (run_graceful_cleanup raises timeout m)
  cleanup-Same m =
      subst (Same m) (sym (run_graceful_cleanup-ran raises timeout m)) (go m.shutdown_requested)
    where
      go :
          (b : Bool)
          → Same m (
              if b
              then record m {
                ran = m.ran ++ (m.cleanup_hooks ++ m.async_cleanup_hooks);
                failures =
                    m.failures
                    + length (keep raises m.cleanup_hooks)
                    + length (keep raises m.async_cleanup_hooks);
              }
              else m)
      go false = (refl, refl, refl, refl, refl)
      go true = (refl, refl, refl, refl, refl)

  run-Ended :
      (ops : List (Op H)) (m : Manager H)
      → IsTimed m
      → Ended m m.first_sigint_time (sigints ops) (run raises timeout ops m)
  unfolding run
  run-Ended [] m h = nothing m.first_sigint_time
    where
      or_false : (b : Bool) → b ≡ (b || false)
      or_false false = refl
      or_false true = refl

      nothing : (t : Option ℕ) → Ended m t [] m
      nothing none = (or_false m.exited, or_false m.force_shutdown, omega arith)
      nothing (some last) = (or_false m.exited, or_false m.force_shutdown, omega arith)
  run-Ended (register_op hook ∷ ops) m h =
      run-Ended ops (apply_op raises timeout (register_op hook) m) h
  run-Ended (register_async_op hook ∷ ops) m h =
      run-Ended ops (apply_op raises timeout (register_async_op hook) m) h
  run-Ended (sigint_op now ∷ ops) m h =
      sigint-Ended now (sigints ops) m _ (run raises timeout ops) h refl (λ o k. run-Ended ops o k)
  run-Ended (cleanup_op ∷ ops) m h =
      let n = run_graceful_cleanup raises timeout m in
      let (exits, forces, flushed, time, asked) = cleanup-Same m in
      let (exits', forces', flushed') = run-Ended ops n (asked ∙ h ∙ ap is_some (sym time)) in
      let times = sigints ops in
      (
        exits'
            ∙ ap (λ b. b || close_after timeout n.first_sigint_time times) exits
            ∙ ap (λ t. m.exited || close_after timeout t times) time,
        forces'
            ∙ ap (λ b. b || close_after timeout n.first_sigint_time times) forces
            ∙ ap (λ t. m.force_shutdown || close_after timeout t times) time,
        flushed'
            ∙ ap (λ c. c + forced_after timeout n.first_sigint_time times) flushed
            ∙ ap (λ t. m.flushes + forced_after timeout t times) time,
      )

  -- Whatever hooks are registered and whatever clean-ups run, before an exit or after it, the program is
  -- made to exit by force where some two signals after one another are less than the time-out apart, and
  -- only there; the forced shutdown flushes the log once for each signal that comes within the time-out
  -- of the last signal that asked for a graceful shutdown, and has no other flush.
  pub run-exits :
      (ops : List (Op H))
      → let m = run raises timeout ops new_manager in
        let close = has_close_signals timeout (sigints ops) in
        (m.exited ≡ close)
        × (m.force_shutdown ≡ close)
        × (m.flushes ≡ forced_after timeout none (sigints ops))
  run-exits ops =
      let (exits, forces, flushed) = run-Ended ops new_manager refl in
      (exits, forces, flushed ∙ omega arith)
