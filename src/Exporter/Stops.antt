-- ===== src/Exporter/Stops.antt =====
-- How the export without prefetching ends where a shutdown is requested or the first batch is empty.
use tobs.Prelude.{
  ℕ, zero, suc, ◌+◌, ◌*◌, ◌≤◌, ◌<◌, ◌≡◌, refl, sym, ◌∙◌, ap, subst, inl, inr, Bool, true, false,
  List, [], ◌∷◌, ◌++◌, length, length-append, map, keep, All, le→ltb, arith,
}
use mathlib.Core.List.{append_assoc}
use tobs.Exporter.{EntityDict, Processed, Progress, Saves, write_results}
use tobs.Exporter.Batches.{
  Arrival, Loop, left, Export, messages_to_process, process_messages, process_batch, collect,
  receive, loop, start, export_batches,
}
use tobs.Exporter.Written.{
  Adds, write_results-Adds, write_results-append, taken, GoesOn, Ready, process_batch-parts,
}
use tobs.Exporter.Loop.{StartsWith, collect-Ready, loop-Ends}

-- What is left of k batches after n whole ones, of which the last has its last message missing
last_batch_full : (k n size len : ℕ) → len < size → n * size + len + 1 ≡ k * size → len + 1 ≡ size
last_batch_full zero zero size len h e = absurd (omega arith)
last_batch_full zero (suc n) size len h e = absurd (omega arith)
last_batch_full (suc zero) zero size len h e = omega arith
last_batch_full (suc (suc k)) zero size len h e = absurd (omega arith)
last_batch_full (suc k) (suc n) size len h e = last_batch_full k n size len h (omega arith)

module _ {A M K S : Type 0} (dec : Discrete K) (cache_set : K → EntityDict → S → S × Bool)
    (x : Export A M K) where
  abbrev pub results_of : List M → List (Processed A)
  results_of ms = map x.process (keep x.has_content ms)

  process_batch-batch :
      (l : Loop A M K S) (ms : List M) → (process_batch dec cache_set x l ms).batch ≡ l.batch
  unfolding process_batch
  process_batch-batch l [] = refl
  process_batch-batch l (m ∷ ms) = refl

  receive-stops :
      (a : Arrival M) (l : Loop A M K S)
      → a.stop_before ≡ false
      → a.stop_after ≡ true
      → x.is_processed a.message ≡ false
      → Ready dec cache_set x (collect dec cache_set x a.message l)
      → length l.batch + 1 ≡ x.batch_size
      → let l' = collect dec cache_set x a.message l in
        receive dec cache_set x a l
        ≡ left (process_batch dec cache_set x l' (messages_to_process dec cache_set x l'.batch))
  unfolding receive
  receive-stops a l before after new ready full =
      let l' = collect dec cache_set x a.message l in
      let (progress, fetched, started) =
        process_batch-parts dec cache_set x l' (messages_to_process dec cache_set x l'.batch) in
      rw
        (
          before,
          new,
          after,
          le→ltb (length l'.batch) x.batch_size
              (omega (arith, length-append l.batch (a.message ∷ []))),
          started ready,
        )
        refl

  -- A loop that has stopped after a full batch, when the rest of the messages are processed
  twice :
      (l : Loop A M K S)
      → let ms = messages_to_process dec cache_set x l.batch in
        let l' = process_batch dec cache_set x l ms in
        (process_batch dec cache_set x l' (messages_to_process dec cache_set x l'.batch)).progress
        ≡ process_messages dec cache_set x ms (process_messages dec cache_set x ms l.progress)
  twice l =
      let ms = messages_to_process dec cache_set x l.batch in
      let l' = process_batch dec cache_set x l ms in
      let again =
        process_batch-parts dec cache_set x l' (messages_to_process dec cache_set x l'.batch) in
      let once = process_batch-parts dec cache_set x l ms in
      again.0
      ∙ ap (λ b. process_messages dec cache_set x (keep x.has_content b) l'.progress)
          (process_batch-batch l ms)
      ∙ ap (process_messages dec cache_set x ms) once.0

  starts-Ready :
      (front : List (Arrival M)) (m : M) (l : Loop A M K S)
      → (1 ≤ length (taken dec cache_set x front) → Ready dec cache_set x l)
      → StartsWith dec cache_set x (taken dec cache_set x front ++ m ∷ [])
      → Ready dec cache_set x (collect dec cache_set x m l)
  starts-Ready front m l ready first = go (taken dec cache_set x front) ready first
    where
      go :
          (ms : List M)
          → (1 ≤ length ms → Ready dec cache_set x l)
          → StartsWith dec cache_set x (ms ++ m ∷ [])
          → Ready dec cache_set x (collect dec cache_set x m l)
      go [] r s = collect-Ready dec cache_set x m l (inr s)
      go (n ∷ ms) r s = collect-Ready dec cache_set x m l (inl (r (omega arith)))

  front-StartsWith :
      (ms : List M) (m : M)
      → StartsWith dec cache_set x (ms ++ m ∷ [])
      → StartsWith dec cache_set x ms
  front-StartsWith [] m h = tt
  front-StartsWith (n ∷ ms) m h = h

  -- Where a shutdown is requested after the message that fills the k-th batch, that batch is written
  -- twice: the file has the texts of the messages of the batches before it, then its own, then its own
  -- again, and the counts and the ids have them twice as well. What would come after is not fetched.
  pub export_batches-writes_twice :
      (front rest : List (Arrival M)) (a : Arrival M) (fetch_raises : Bool) (k : ℕ) (p : Progress A)
      (v : Saves K S)
      → All (GoesOn dec cache_set x) front
      → a.stop_before ≡ false
      → a.stop_after ≡ true
      → x.is_processed a.message ≡ false
      → StartsWith dec cache_set x (taken dec cache_set x front ++ a.message ∷ [])
      → length (taken dec cache_set x front) + 1 ≡ k * x.batch_size
      → 1 ≤ x.batch_size
      → (before batch : List M) × (taken dec cache_set x front ++ a.message ∷ [] ≡ before ++ batch)
        × (length batch ≡ x.batch_size)
        × (l : Loop A M K S) × (export_batches dec cache_set x fetch_raises (front ++ a ∷ rest) p v
            ≡ left l)
        × Adds (results_of before ++ (results_of batch ++ results_of batch)) p l.progress
  unfolding export_batches loop write_results
  export_batches-writes_twice front rest a raises k p v h before after new first full positive =
      let begin = start dec cache_set x p v in
      let ends =
        loop-Ends dec cache_set x front begin h
          (inr (front-StartsWith (taken dec cache_set x front) a.message first)) positive in
      let l = collect dec cache_set x a.message ends.last in
      let ready =
        starts-Ready front a.message ends.last (λ some_taken. ends.ready (inr some_taken)) first in
      let ms = messages_to_process dec cache_set x l.batch in
      let done = process_batch dec cache_set x l ms in
      let sum = length-append ends.cut ends.last.batch in
      let last_full =
        last_batch_full k ends.batches x.batch_size (length ends.last.batch) ends.short
          (omega (arith, sum, full, ends.whole, ap length ends.parts)) in
      let stops = receive-stops a ends.last before after new ready last_full in
      let results = results_of ends.cut ++ (results_of l.batch ++ results_of l.batch) in
      (
        ends.cut,
        l.batch,
        ap (λ b. b ++ a.message ∷ []) ends.parts
            ∙ append_assoc ends.cut ends.last.batch (a.message ∷ []),
        omega (arith, last_full, length-append ends.last.batch (a.message ∷ [])),
        process_batch dec cache_set x done (messages_to_process dec cache_set x done.batch),
        rw (ends.goes raises (a ∷ rest), loop, stops) refl,
        subst (Adds results p)
            (write_results-append (results_of ends.cut) (results_of l.batch ++ results_of l.batch) p
              ∙ write_results-append (results_of l.batch) (results_of l.batch)
                  (write_results (results_of ends.cut) p)
              ∙ ap (λ q. write_results (results_of l.batch) (write_results (results_of l.batch) q))
                  (sym ends.progress)
              ∙ sym (twice l))
            (write_results-Adds results p),
      )
