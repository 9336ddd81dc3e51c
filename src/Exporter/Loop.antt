-- ===== src/Exporter/Loop.antt =====
-- The export by batches without a shutdown writes what an export of one message at a time would.
use tobs.Prelude.{
  ℕ, suc, ◌+◌, ◌*◌, ◌≤◌, ◌<◌, subst, ◌≡◌, refl, sym, ◌∙◌, ap, ◌⊎◌, inl, inr, Bool, true, false,
  List, [], ◌∷◌, ◌++◌, length, length-append, map, keep, keep-append, All, arith, Bool-cases,
}
use mathlib.Core.List.{append_assoc}
use tobs.Exporter.{EntityDict, Progress, Saves, write_results}
use tobs.Exporter.Batches.{
  Arrival, Loop, going, left, Export, messages_to_process, process_messages, collect, process_batch,
  receive, loop, start, export_batches,
}
use tobs.Exporter.Written.{
  Adds, write_results-Adds, snoc_append, append_nil, taken, GoesOn, Ready, Advance,
  process_messages-append, full_batch-Advance, process_batch-parts,
}

module _ {A M K S : Type 0} (dec : Discrete K) (cache_set : K → EntityDict → S → S × Bool)
    (x : Export A M K) where
  abbrev pub StartsWith : List M → Type 0
  StartsWith [] = Unit
  StartsWith (m ∷ ms) = x.has_content m ≡ true

  -- A message is collected where the loop is ready or the message has content.
  pub collect-Ready :
      (m : M) (l : Loop A M K S)
      → Ready dec cache_set x l ⊎ (x.has_content m ≡ true)
      → Ready dec cache_set x (collect dec cache_set x m l)
  collect-Ready m l (inl (inl e)) = inl e
  collect-Ready m l (inl (inr h)) = inr (
      omega (
        arith,
        ap length (keep-append x.has_content l.batch (m ∷ [])),
        length-append (keep x.has_content l.batch) (keep x.has_content (m ∷ [])),
      ))
  collect-Ready m l (inr e) =
      let one : length (keep x.has_content (m ∷ [])) ≡ 1 = rw e refl in
      inr (
        omega (
          arith,
          one,
          ap length (keep-append x.has_content l.batch (m ∷ [])),
          length-append (keep x.has_content l.batch) (keep x.has_content (m ∷ [])),
        ))

  receive-Advance :
      (a : Arrival M) (l : Loop A M K S)
      → GoesOn dec cache_set x a
      → x.is_processed a.message ≡ false
      → Ready dec cache_set x (collect dec cache_set x a.message l)
      → length l.batch < x.batch_size
      → Advance dec cache_set x l (a.message ∷ []) (receive dec cache_set x a l)
  unfolding receive
  receive-Advance a l (before, after) new ready few =
      let step =
        full_batch-Advance dec cache_set x (collect dec cache_set x a.message l) ready (omega arith)
          (omega (arith, length-append l.batch (a.message ∷ []))) in
      record {
        next = step.next;
        goes = rw (before, new, after) step.goes;
        ready = step.ready;
        progress = step.progress;
        counted = omega (arith, step.counted);
        cut = step.cut;
        parts = sym (append_nil (l.batch ++ a.message ∷ [])) ∙ step.parts;
        whole = step.whole;
        short = step.short;
      }

  receive-skips :
      (a : Arrival M) (l : Loop A M K S)
      → GoesOn dec cache_set x a
      → x.is_processed a.message ≡ true
      → receive dec cache_set x a l ≡ going l
  unfolding receive
  receive-skips a l (before, after) old = rw (before, old) refl

  -- The loop goes on with `last`, which has processed n batches and has the other messages in its batch.
  pub record Ends (l : Loop A M K S) (arrivals : List (Arrival M)) : Type 0 where
    pub last : Loop A M K S
    pub goes :
        (fetch_raises : Bool) (more : List (Arrival M))
        → loop dec cache_set x fetch_raises (arrivals ++ more) l
          ≡ loop dec cache_set x fetch_raises more last
    pub ready :
        Ready dec cache_set x l ⊎ (1 ≤ length (taken dec cache_set x arrivals))
        → Ready dec cache_set x last
    pub counted : last.fetched_count ≡ l.fetched_count + length (taken dec cache_set x arrivals)
    pub cut : List M
    pub progress :
        last.progress ≡ process_messages dec cache_set x (keep x.has_content cut) l.progress
    pub parts : l.batch ++ taken dec cache_set x arrivals ≡ cut ++ last.batch
    pub batches : ℕ
    pub whole : length cut ≡ batches * x.batch_size
    pub short : length last.batch < x.batch_size

  skip-Ends :
      (a : Arrival M) (arrivals : List (Arrival M)) (l : Loop A M K S)
      → GoesOn dec cache_set x a
      → x.is_processed a.message ≡ true
      → Ends l arrivals
      → Ends l (a ∷ arrivals)
  unfolding loop
  skip-Ends a arrivals l h old rest = record {
    last = rest.last;
    goes = λ raises more. rw (loop, receive-skips a l h old) (rest.goes raises more);
    ready = rw old rest.ready;
    progress = rest.progress;
    counted = rw old rest.counted;
    cut = rest.cut;
    parts = rw old rest.parts;
    batches = rest.batches;
    whole = rest.whole;
    short = rest.short;
  }

  more_batches : (n k cut : ℕ) → (cut ≡ 0) ⊎ (cut ≡ k) → (m : ℕ) × (cut + n * k ≡ m * k)
  more_batches n k cut (inl e) = (n, omega (arith, e))
  more_batches n k cut (inr e) = (suc n, omega (arith, e))

  take-Ends :
      (a : Arrival M) (arrivals : List (Arrival M)) (l : Loop A M K S)
      → x.is_processed a.message ≡ false
      → (step : Advance dec cache_set x l (a.message ∷ []) (receive dec cache_set x a l))
      → Ends step.next arrivals
      → Ends l (a ∷ arrivals)
  unfolding loop
  take-Ends a arrivals l new step rest =
      let (batches, whole) = more_batches rest.batches x.batch_size (length step.cut) step.whole in
      record {
        last = rest.last;
        goes = λ raises more. rw (loop, step.goes) (rest.goes raises more);
        ready = λ h. rest.ready (inl step.ready);
        progress =
            rest.progress
            ∙ ap (process_messages dec cache_set x (keep x.has_content rest.cut)) step.progress
            ∙ sym (process_messages-append dec cache_set x step.cut rest.cut l.progress);
        counted = rw new (omega (arith, rest.counted, step.counted));
        cut = step.cut ++ rest.cut;
        parts = rw new (
            sym (snoc_append l.batch a.message (taken dec cache_set x arrivals))
            ∙ ap (λ b. b ++ taken dec cache_set x arrivals) step.parts
            ∙ append_assoc step.cut step.next.batch (taken dec cache_set x arrivals)
            ∙ ap (λ b. step.cut ++ b) rest.parts
            ∙ sym (append_assoc step.cut rest.cut rest.last.batch));
        batches = batches;
        whole = omega (arith, length-append step.cut rest.cut, rest.whole, whole);
        short = rest.short;
      }

  pub loop-Ends :
      (arrivals : List (Arrival M)) (l : Loop A M K S)
      → All (GoesOn dec cache_set x) arrivals
      → Ready dec cache_set x l ⊎ StartsWith (taken dec cache_set x arrivals)
      → length l.batch < x.batch_size
      → Ends l arrivals
  unfolding write_results
  loop-Ends [] l h ready few = record {
    last = l;
    goes = λ raises more. refl;
    ready = λ h. elim h [ inl r ↦ r | inr e ↦ absurd (omega arith) ];
    progress = refl;
    counted = omega arith;
    cut = [];
    parts = append_nil l.batch;
    batches = 0;
    whole = omega arith;
    short = few;
  }
  loop-Ends (a ∷ arrivals) l h ready few = elim (Bool-cases (x.is_processed a.message)) [
    | inl old ↦ skip-Ends a arrivals l h.0 old (loop-Ends arrivals l h.1 (rw old at ready) few)
    | inr new ↦
        let step = receive-Advance a l h.0 new (collect-Ready a.message l (rw new at ready)) few in
        take-Ends a arrivals l new step
          (loop-Ends arrivals step.next h.1 (inl step.ready) step.short)
  ]

  -- The progress of the whole export
  pub export_batches-progress :
      (arrivals : List (Arrival M)) (p : Progress A) (v : Saves K S)
      → All (GoesOn dec cache_set x) arrivals
      → StartsWith (taken dec cache_set x arrivals)
      → 1 ≤ x.batch_size
      → (l : Loop A M K S) × (export_batches dec cache_set x false arrivals p v ≡ left l)
        × (l.progress
            ≡ process_messages dec cache_set x
                (keep x.has_content (taken dec cache_set x arrivals))
                p)
        × (l.fetched_count ≡ length (taken dec cache_set x arrivals))
  unfolding export_batches loop
  export_batches-progress arrivals p v h first positive =
      let ends = loop-Ends arrivals (start dec cache_set x p v) h (inr first) positive in
      let l = ends.last in
      let ms = messages_to_process dec cache_set x l.batch in
      let (progress, fetched, started) = process_batch-parts dec cache_set x l ms in
      let leaves =
        subst (λ b. loop dec cache_set x false b (start dec cache_set x p v) ≡ left l)
          (append_nil arrivals) (ends.goes false []) in
      (
        process_batch dec cache_set x l ms,
        rw leaves refl,
        progress
            ∙ ap (process_messages dec cache_set x ms) ends.progress
            ∙ sym (process_messages-append dec cache_set x ends.cut l.batch p)
            ∙ ap (λ b. process_messages dec cache_set x (keep x.has_content b) p) (sym ends.parts),
        omega (arith, fetched, ends.counted),
      )

  -- Without prefetching, where no shutdown is requested, the messages end without an exception, and the
  -- first message to export has a text or media, the export ends, for every positive size of the
  -- batches. It then has added to the file, in order, the texts of all messages that are not among the
  -- processed ones, have a text or media, and were processed to a text, and has added their number,
  -- their media and their ids to the counts and to the entity's data; and it has counted the messages
  -- fetched.
  pub export_batches-writes :
      (arrivals : List (Arrival M)) (p : Progress A) (v : Saves K S)
      → All (GoesOn dec cache_set x) arrivals
      → StartsWith (taken dec cache_set x arrivals)
      → 1 ≤ x.batch_size
      → (l : Loop A M K S) × (export_batches dec cache_set x false arrivals p v ≡ left l)
        × Adds (map x.process (keep x.has_content (taken dec cache_set x arrivals))) p l.progress
        × (l.fetched_count ≡ length (taken dec cache_set x arrivals))
  unfolding write_results
  export_batches-writes arrivals p v h first positive =
      let (l, ends, progress, fetched) = export_batches-progress arrivals p v h first positive in
      let results = map x.process (keep x.has_content (taken dec cache_set x arrivals)) in
      (l, ends, subst (Adds results p) (sym progress) (write_results-Adds results p), fetched)
