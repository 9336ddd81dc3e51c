-- ===== src/Exporter/Consumed.antt =====
-- The export with prefetching writes each batch once, and the same as the export without.
use tobs.Prelude.{
  ◌≤◌, ◌≡◌, refl, sym, ◌∙◌, ap, inl, inr, Bool, true, false, List, [], ◌∷◌, take, ◌⊎◌, map, keep,
  All, Bool-cases, ℕ, suc,
}
use tobs.Exporter.{EntityDict, Progress, Saves, write_results}
use tobs.Exporter.Batches.{
  Arrival, Loop, going, left, Round, Export, messages_to_process, process_messages,
  process_batch_with_stats, export_with_prefetch, export_batches,
}
use tobs.Exporter.Written.{append_nil, process_messages-append, taken, GoesOn}
use tobs.Exporter.Loop.{StartsWith, export_batches-progress}
use tobs.Prefetch.{Setting, Actor, ended, run, start_producer}
use tobs.Prefetch.Batches.{flat, wanted, cut_off_none}
use tobs.Prefetch.Delivered.{run-delivers}

module _ {A M K S : Type 0} (dec : Discrete K) (cache_set : K → EntityDict → S → S × Bool)
    (x : Export A M K) where
  abbrev pub batches_of : List (Round M) → List (List M)
  batches_of rounds = map (λ r. r.batch) rounds

  -- No shutdown is requested at this round.
  abbrev pub Uninterrupted : Round M → Type 0
  Uninterrupted r = (r.stop_before ≡ false) × (r.stop_after ≡ false)

  -- The progress p of s with these batches processed is that of t.
  abbrev Writes : List (List M) → Progress A × Saves K S → Progress A × Saves K S → Type 0
  Writes batches s t =
      t.0 ≡ process_messages dec cache_set x (keep x.has_content (flat batches)) s.0

  process_messages-flat :
      (batch : List M) (batches : List (List M)) (p : Progress A)
      → process_messages dec cache_set x
          (keep x.has_content (flat batches))
          (process_messages dec cache_set x (messages_to_process dec cache_set x batch) p)
        ≡ process_messages dec cache_set x (keep x.has_content (flat (batch ∷ batches))) p
  process_messages-flat batch batches p =
      sym (process_messages-append dec cache_set x batch (flat batches) p)

  -- What a batch does to the progress
  batch_progress :
      (stop : Bool) (ms : List M) (s : Progress A × Saves K S)
      → ((t : Progress A × Saves K S) × (process_batch_with_stats dec cache_set x stop ms s
            ≡ going t)
          × (t.0 ≡ process_messages dec cache_set x ms s.0))
        ⊎ ((t : Progress A × Saves K S) × (process_batch_with_stats dec cache_set x stop ms s
              ≡ left t)
            × (stop ≡ true)
            × (t.0 ≡ process_messages dec cache_set x ms s.0))
  unfolding write_results
  batch_progress stop [] s = inl (s, refl, refl)
  batch_progress true (m ∷ ms) s = inr (_, refl, refl, refl)
  batch_progress false (m ∷ ms) s = inl (_, refl, refl)

  -- Whenever a shutdown is requested, the export with prefetching has written, in order and once, what
  -- the first n of its batches give, and all of them where no shutdown is requested.
  pub export_with_prefetch-writes_once :
      (rounds : List (Round M)) (s : Progress A × Saves K S)
      → (n : ℕ) × ((export_with_prefetch dec cache_set x rounds s).0
          ≡ process_messages dec cache_set x
              (keep x.has_content (flat (take n (batches_of rounds))))
              s.0)
        × (All Uninterrupted rounds → take n (batches_of rounds) ≡ batches_of rounds)
  unfolding export_with_prefetch write_results
  export_with_prefetch-writes_once [] s = (0, refl, λ h. refl)
  export_with_prefetch-writes_once (r ∷ rounds) s = elim (Bool-cases r.stop_before) [
    | inl stopped ↦ (0, rw (export_with_prefetch, stopped) refl, λ h. let goes = h.0.0 in cc)
    | inr goes ↦
        elim (batch_progress r.stop_after (messages_to_process dec cache_set x r.batch) s) [
          | inl (t, e, written) ↦
              let (n, same, all) = export_with_prefetch-writes_once rounds t in
              (
                suc n,
                rw (export_with_prefetch, goes, e)
                    (same
                      ∙ ap
                          (process_messages dec cache_set x
                            (keep x.has_content (flat (take n (batches_of rounds)))))
                          written
                      ∙ process_messages-flat r.batch (take n (batches_of rounds)) s.0),
                λ h. rw (all h.1) refl,
              )
          | inr (t, e, stopped, written) ↦ (
            1,
            rw (export_with_prefetch, goes, e) (written ∙ process_messages-flat r.batch [] s.0),
            λ h. let goes = h.0.1 in cc,
          )
        ]
  ]

  taken-wanted :
      (arrivals : List (Arrival M)) (g : Setting M)
      → g.skip_condition ≡ x.is_processed
      → taken dec cache_set x arrivals ≡ wanted g (map (λ a. a.message) arrivals)
  taken-wanted [] g h = refl
  taken-wanted (a ∷ arrivals) g h = elim (Bool-cases (x.is_processed a.message)) [
    | inl old ↦ rw (h, old) (taken-wanted arrivals g h)
    | inr new ↦ rw (h, new) (ap (λ ms. a.message ∷ ms) (taken-wanted arrivals g h))
  ]

  -- In whatever order the producer and the consumer of the prefetching get their turns, once the
  -- consumer has seen the None, the export of the batches it got has written and counted exactly what
  -- the export without prefetching writes and counts for the same messages: where no shutdown is
  -- requested, the messages end without an exception, the first message to export has a text or media,
  -- both batch sizes are positive, and the skip condition is the test of the processed ids.
  pub export_with_prefetch-export_batches :
      (arrivals : List (Arrival M)) (rounds : List (Round M)) (actors : List Actor) (g : Setting M)
      (p : Progress A) (v : Saves K S)
      → All (GoesOn dec cache_set x) arrivals
      → All Uninterrupted rounds
      → StartsWith dec cache_set x (taken dec cache_set x arrivals)
      → 1 ≤ x.batch_size
      → 1 ≤ g.batch_size
      → g.fetch_raises ≡ false
      → g.skip_condition ≡ x.is_processed
      → (run g actors (start_producer (map (λ a. a.message) arrivals))).consumer ≡ ended
      → batches_of rounds ≡ (run g actors (start_producer (map (λ a. a.message) arrivals))).received
      → (l : Loop A M K S) × (export_batches dec cache_set x false arrivals p v ≡ left l)
        × ((export_with_prefetch dec cache_set x rounds (p, v)).0 ≡ l.progress)
  export_with_prefetch-export_batches arrivals rounds actors g p v go quiet first size gsize ends
        skip end same =
      let ms = map (λ a. a.message) arrivals in
      let (l, e, progress, fetched) =
        export_batches-progress dec cache_set x arrivals p v go first size in
      let (n, written, all) = export_with_prefetch-writes_once rounds (p, v) in
      let (whole, few, sizes, fetched_all, processed_all) = run-delivers g ms actors gsize end in
      let flat_all : flat (take n (batches_of rounds)) ≡ taken dec cache_set x arrivals =
        ap flat (all quiet ∙ same)
        ∙ sym (append_nil (flat (run g actors (start_producer ms)).received))
        ∙ (rw (cut_off_none g [] ms ends) at whole)
        ∙ sym (taken-wanted arrivals g skip) in
      (
        l,
        e,
        written
            ∙ ap (λ b. process_messages dec cache_set x (keep x.has_content b) p) flat_all
            ∙ sym progress,
      )
