-- ===== src/Exporter/Unbound.antt =====
-- An export whose first batch has nothing to process, where `io_start` has no value when it is used.
use tobs.Prelude.{
  ◌+◌, ◌≤◌, ◌<◌, ◌≡◌, refl, ◌∙◌, ap, inl, inr, Bool, true, false, List, [], ◌∷◌, ◌++◌, length,
  length-append, keep, keep-append, All, ltb, le→ltb, lt→ltb, ltb→lt, ltb→le, arith, Bool-cases,
}
use tobs.Exporter.{EntityDict, Progress, Saves}
use tobs.Exporter.Batches.{
  Arrival, Loop, Flow, going, failed, Export, process_batch, collect, receive, loop, start,
  export_batches,
}
use tobs.Exporter.Written.{taken}

module _ {A M K S : Type 0} (dec : Discrete K) (cache_set : K → EntityDict → S → S × Bool)
    (x : Export A M K) where
  abbrev pub Waits : Arrival M → Type 0
  Waits a = a.stop_before ≡ false

  -- Nothing has been processed, and the batch has nothing to process.
  abbrev Untouched : Progress A → Saves K S → Loop A M K S → Type 0
  Untouched p v l =
      (l.io_start ≡ false) × (l.progress ≡ p) × (l.saves ≡ v) × (keep x.has_content l.batch ≡ [])

  abbrev Fails : Progress A → Saves K S → Flow (Loop A M K S) → Type 0
  Fails p v flow = (l : Loop A M K S) × (flow ≡ failed l) × (l.progress ≡ p) × (l.saves ≡ v)

  receive-part :
      (a : Arrival M) (l : Loop A M K S)
      → a.stop_before ≡ false
      → x.is_processed a.message ≡ false
      → length l.batch + 1 < x.batch_size
      → receive dec cache_set x a l ≡ going (collect dec cache_set x a.message l)
  unfolding receive
  receive-part a l before new part =
      rw
        (
          before,
          new,
          lt→ltb (length (l.batch ++ a.message ∷ [])) x.batch_size
              (omega (arith, length-append l.batch (a.message ∷ []))),
        )
        refl

  receive-skips :
      (a : Arrival M) (l : Loop A M K S)
      → a.stop_before ≡ false
      → x.is_processed a.message ≡ true
      → receive dec cache_set x a l ≡ going l
  unfolding receive
  receive-skips a l before old = rw (before, old) refl

  receive-full :
      (a : Arrival M) (l : Loop A M K S)
      → a.stop_before ≡ false
      → x.is_processed a.message ≡ false
      → x.batch_size ≤ length l.batch + 1
      → keep x.has_content (l.batch ++ a.message ∷ []) ≡ []
      → l.io_start ≡ false
      → receive dec cache_set x a l ≡ failed (collect dec cache_set x a.message l)
  unfolding receive process_batch
  receive-full a l before new full none_left unset =
      rw
        (
          before,
          new,
          le→ltb (length (l.batch ++ a.message ∷ [])) x.batch_size
              (omega (arith, length-append l.batch (a.message ∷ []))),
          none_left,
          unset,
        )
        refl

  keep-snoc :
      (ms : List M) (m : M)
      → keep x.has_content ms ≡ []
      → x.has_content m ≡ false
      → keep x.has_content (ms ++ m ∷ []) ≡ []
  keep-snoc ms m h k = keep-append x.has_content ms (m ∷ []) ∙ rw (h, k) refl

  keep-head :
      (m : M) (ms : List M)
      → keep x.has_content (m ∷ ms) ≡ []
      → (x.has_content m ≡ false) × (keep x.has_content ms ≡ [])
  keep-head m ms h = elim (Bool-cases (x.has_content m)) [
    | inl e ↦ absurd (omega (arith, ap length (rw e at h)))
    | inr e ↦ (e, rw e at h)
  ]

  loop-Fails :
      (front rest : List (Arrival M)) (raises : Bool) (p : Progress A) (v : Saves K S)
      (l : Loop A M K S)
      → All Waits front
      → keep x.has_content (taken dec cache_set x front) ≡ []
      → length l.batch < x.batch_size
      → x.batch_size ≤ length l.batch + length (taken dec cache_set x front)
      → Untouched p v l
      → Fails p v (loop dec cache_set x raises (front ++ rest) l)
  unfolding loop
  loop-Fails [] rest raises p v l h empty few full (u, same, saved, none_left) =
      absurd (omega arith)
  loop-Fails (a ∷ front) rest raises p v l h empty few full (u, same, saved, none_left) =
      elim (Bool-cases (x.is_processed a.message)) [
        | inl old ↦
            rw (loop, receive-skips a l h.0 old)
              (loop-Fails front rest raises p v l h.1 (rw old at empty) few (rw old at full)
                (u, same, saved, none_left))
        | inr new ↦
            let (contentless, others) =
              keep-head a.message (taken dec cache_set x front) (rw new at empty) in
            let still = keep-snoc l.batch a.message none_left contentless in
            elim (Bool-cases (ltb (length l.batch + 1) x.batch_size)) [
              | inl part ↦
                  rw (loop, receive-part a l h.0 new (ltb→lt _ _ part))
                    (loop-Fails front rest raises p v (collect dec cache_set x a.message l) h.1
                      others
                      (omega (arith, ltb→lt _ _ part, length-append l.batch (a.message ∷ [])))
                      (omega (arith, rw new at full, length-append l.batch (a.message ∷ [])))
                      (u, same, saved, still))
              | inr filled ↦
                  rw (loop, receive-full a l h.0 new (ltb→le _ _ filled) still u)
                    (collect dec cache_set x a.message l, refl, same, saved)
            ]
      ]

  -- Where no shutdown is requested and the messages begin with at least a batch of messages that are
  -- not among the processed ones and have no text and no media, the export without prefetching is
  -- left by an exception, whatever follows them, with nothing written and nothing saved.
  pub export_batches-fails :
      (front rest : List (Arrival M)) (fetch_raises : Bool) (p : Progress A) (v : Saves K S)
      → All Waits front
      → keep x.has_content (taken dec cache_set x front) ≡ []
      → 1 ≤ x.batch_size
      → x.batch_size ≤ length (taken dec cache_set x front)
      → (l : Loop A M K S) × (export_batches dec cache_set x fetch_raises (front ++ rest) p v
          ≡ failed l)
        × (l.progress ≡ p)
        × (l.saves ≡ v)
  unfolding export_batches
  export_batches-fails front rest raises p v h empty positive full =
      let (l, fails, same, saved) =
        loop-Fails front rest raises p v (start dec cache_set x p v) h empty positive (omega arith)
          (refl, refl, refl, refl) in
      (l, rw fails refl, same, saved)
