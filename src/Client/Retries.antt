-- ===== src/Client/Retries.antt =====
-- The retries of a batch: its messages, or an error after as many failed calls as there are retries.
use tobs.Prelude.{ℕ, zero, suc, ◌+◌, ◌≤◌, ◌≡◌, refl, false, List, [], ◌∷◌, ◌++◌, ◌==◌, arith}
use tobs.Client.{
  Attempt, succeeds, fails, floods, Client, Batch, batch_raised, batch_messages, fetch_batch,
}

abbrev pub Failed : Attempt → Type 0
Failed succeeds = ⊥
Failed fails = Unit
Failed (floods seconds) = Unit

module _ {M : Type 0} (c : Client M) where
  -- So many calls from the k-th on fail.
  abbrev pub AllFail : ℕ → ℕ → Type 0
  AllFail k zero = Unit
  AllFail k (suc n) = Failed (c.attempt k) × AllFail (k + 1) n

  -- What a batch is fetched as: the client's messages, or an error after as many failed calls
  abbrev pub Fetches : ℕ → List M → ℕ → Batch M → Type 0
  Fetches n messages k (batch_raised calls sleeps) = AllFail k n
  Fetches n messages k (batch_messages ms calls sleeps) = ms ≡ messages

  pub fetch_batch-Fetches :
      (retries limit off least calls : ℕ) (sleeps : List ℕ)
      → 1 ≤ retries
      → Fetches retries
          (c.get_messages limit off least)
          calls
          (fetch_batch c retries limit off least calls sleeps)
  unfolding fetch_batch
  fetch_batch-Fetches zero limit off least calls sleeps h = absurd (omega arith)
  fetch_batch-Fetches (suc retries) limit off least calls sleeps h =
      go retries (c.attempt calls) refl
        (λ h s. fetch_batch-Fetches retries limit off least (calls + 1) s h)
    where
      again :
          (r : ℕ) (b : Batch M)
          → Failed (c.attempt calls)
          → Fetches r (c.get_messages limit off least) (calls + 1) b
          → Fetches (suc r) (c.get_messages limit off least) calls b
      again r (batch_raised k s) f h = (f, h)
      again r (batch_messages ms k s) f h = h

      go :
          (r : ℕ) (a : Attempt)
          → c.attempt calls ≡ a
          → (1 ≤ r
              → (s : List ℕ)
              → Fetches r
                  (c.get_messages limit off least)
                  (calls + 1)
                  (fetch_batch c r limit off least (calls + 1) s))
          → Fetches
              (suc r)
              (c.get_messages limit off least)
              calls
              (fetch_batch c (suc r) limit off least calls sleeps)
      go r succeeds e rec = rw (fetch_batch, e) refl
      go zero fails e rec =
          let failed : Failed (c.attempt calls) = rw e tt in rw (fetch_batch, e) (failed, tt)
      go zero (floods n) e rec =
          let failed : Failed (c.attempt calls) = rw e tt in rw (fetch_batch, e) (failed, tt)
      go (suc r) fails e rec =
          let more : (suc r == 0) ≡ false = ground arith in
          let failed : Failed (c.attempt calls) = rw e tt in
          rw (fetch_batch, e, more)
            (again (suc r) (fetch_batch c (suc r) limit off least (calls + 1) (sleeps ++ 5 ∷ []))
              failed (rec (omega arith) (sleeps ++ 5 ∷ [])))
      go (suc r) (floods n) e rec =
          let more : (suc r == 0) ≡ false = ground arith in
          let failed : Failed (c.attempt calls) = rw e tt in
          rw (fetch_batch, e, more)
            (again (suc r)
              (fetch_batch c (suc r) limit off least (calls + 1) (sleeps ++ (n + 1) ∷ [])) failed
              (rec (omega arith) (sleeps ++ (n + 1) ∷ [])))
