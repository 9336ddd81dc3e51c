-- ===== src/Exporter/Whole.antt =====
-- From the server to the file: the client's pages, the loop, the saver and the header's count together.
mod Tests
use tobs.Prelude.{
  ℕ, zero, suc, ◌+◌, ◌≤◌, ◌<◌, ◌≡◌, refl, sym, ◌∙◌, ap, subst, ◌⊎◌, inl, inr, Option, none, some,
  Bool, true, false, not, List, [], ◌∷◌, ◌++◌, length, map, take, keep, All, Bool-cases,
  if◌then◌else◌,
}
use tobs.Client.{Client, Outcome, finished, raised, out_of_fuel, fetch_messages}
use tobs.Client.Paging.{limited, wanted, Ascending, after}
use tobs.Client.Retries.{AllFail}
use tobs.Client.Fetched.{Pages, fetch_messages-yields}
use tobs.Exporter.{EntityDict, Progress, Saves}
use tobs.Exporter.Batches.{
  Arrival, Loop, Flow, is_failed, failed, state_of, Export, loop, remaining, start, export_batches,
}
use tobs.Exporter.Written.{contents, taken, GoesOn, append_nil}
use tobs.Exporter.Loop.{StartsWith, loop-Ends, export_batches-progress}
use tobs.Exporter.Saver.{Files, Disk, join, apply_ops, export_file}
use tobs.Exporter.File.{files_after, export_file-raised, export_batches-files_after}

-- No shutdown is requested around this message.
abbrev pub quiet : {M : Type 0} → M → Arrival M
quiet m = record { message = m; stop_before = false; stop_after = false }

abbrev pub has_raised : Outcome → Bool
has_raised finished = false
has_raised raised = true
has_raised out_of_fuel = true

module _ {A M K S : Type 0} (dec : Discrete K) (cache_set : K → EntityDict → S → S × Bool)
    (x : Export A M K) where
  -- The export without prefetching of what `fetch_messages(entity, limit=None, min_id=least)` yields
  unfoldable pub export_chat : Client M → ℕ → ℕ → ℕ → Progress A → Saves K S → Flow (Loop A M K S)
  unfolding export_batches
  export_chat c fuel batch_fetch_size least p v =
      let (outcome, t) = fetch_messages c fuel batch_fetch_size none least in
      export_batches dec cache_set x (has_raised outcome) (map quiet t.yielded) p v

  abbrev pub unprocessed : List M → List M
  unprocessed ms = keep (λ m. not (x.is_processed m)) ms

  taken-quiet : (ms : List M) → taken dec cache_set x (map quiet ms) ≡ unprocessed ms
  taken-quiet [] = refl
  taken-quiet (m ∷ ms) = elim (Bool-cases (x.is_processed m)) [
    | inl old ↦ rw old (taken-quiet ms)
    | inr new ↦ rw new (ap (λ l. m ∷ l) (taken-quiet ms))
  ]

  quiet-GoesOn : (ms : List M) → All (GoesOn dec cache_set x) (map quiet ms)
  quiet-GoesOn [] = tt
  quiet-GoesOn (m ∷ ms) = ((refl, refl), quiet-GoesOn ms)

  take-StartsWith :
      (n : ℕ) (ms : List M)
      → StartsWith dec cache_set x (unprocessed ms)
      → StartsWith dec cache_set x (unprocessed (take n ms))
  take-StartsWith zero ms h = tt
  take-StartsWith (suc n) [] h = tt
  take-StartsWith (suc n) (m ∷ ms) h = elim (Bool-cases (x.is_processed m)) [
    | inl old ↦ rw old (take-StartsWith n ms (rw old at h))
    | inr new ↦ rw new (rw new at h)
  ]

  -- An exception of the messages leaves the export.
  raised-is_failed :
      (arrivals : List (Arrival M)) (p : Progress A) (v : Saves K S)
      → All (GoesOn dec cache_set x) arrivals
      → StartsWith dec cache_set x (taken dec cache_set x arrivals)
      → 1 ≤ x.batch_size
      → is_failed (export_batches dec cache_set x true arrivals p v) ≡ true
  unfolding export_batches loop
  raised-is_failed arrivals p v h first positive =
      let begin = start dec cache_set x p v in
      let ends = loop-Ends dec cache_set x arrivals begin h (inr first) positive in
      let fails : loop dec cache_set x true arrivals begin ≡ failed ends.last =
        subst (λ l. loop dec cache_set x true l begin ≡ failed ends.last) (append_nil arrivals)
          (ends.goes true []) in
      rw fails refl

  module _ (c : Client M) (chat : List M) (fuel batch_fetch_size least : ℕ) (size : ℕ) (d : Disk)
      (replace : ℕ → List A → List A) (p : Progress A) (v : Saves K S) (f : Files A) where
    -- The messages the export is to write
    abbrev pub to_export : List M
    to_export = unprocessed (wanted c (keep (after c 0 least) chat))

    -- The texts these messages are processed to
    abbrev pub texts_of : List (List A)
    texts_of = contents (map x.process (keep x.has_content to_export))

    abbrev Result : Flow (Loop A M K S) → Type 0
    Result flow =
        ((is_failed flow ≡ false)
          × (files_after dec cache_set x size d replace flow f ≡ record {
            path = some (replace (length texts_of) (join p.writes ++ join texts_of));
            tmp_path = none;
          }))
        ⊎ ((is_failed flow ≡ true)
            × ((k : ℕ) × AllFail c k 3)
            × (files_after dec cache_set x size d replace flow f
                ≡ record { path = f.path; tmp_path = none }))

    finished-Result :
        StartsWith dec cache_set x to_export
        → 1 ≤ x.batch_size
        → d.rename_raises ≡ false
        → p.processed_count ≡ 0
        → Result (
            export_batches dec cache_set x false
              (map quiet (wanted c (keep (after c 0 least) chat)))
              p
              v)
    finished-Result first positive renames fresh =
        let ms = wanted c (keep (after c 0 least) chat) in
        let go = quiet-GoesOn ms in
        let starts = subst (StartsWith dec cache_set x) (sym (taken-quiet ms)) first in
        let (l, ends, progress, fetched) =
          export_batches-progress dec cache_set x (map quiet ms) p v go starts positive in
        inl (
          ap is_failed ends,
          export_batches-files_after dec cache_set x (map quiet ms) p v size d replace f go starts
                positive renames fresh
              ∙ ap
                  (λ l.
                    let texts = contents (map x.process (keep x.has_content l)) in
                    record {
                      path = some (replace (length texts) (join p.writes ++ join texts));
                      tmp_path = none;
                    })
                  (taken-quiet ms),
        )

    raised-Result :
        (n : ℕ)
        → (k : ℕ) × AllFail c k 3
        → StartsWith dec cache_set x to_export
        → 1 ≤ x.batch_size
        → Result (
            export_batches dec cache_set x true
              (map quiet (take n (wanted c (keep (after c 0 least) chat))))
              p
              v)
    raised-Result n failing first positive =
        let ms = take n (wanted c (keep (after c 0 least) chat)) in
        let starts =
          subst (StartsWith dec cache_set x) (sym (taken-quiet ms))
            (take-StartsWith n (wanted c (keep (after c 0 least) chat)) first) in
        let flow = export_batches dec cache_set x true (map quiet ms) p v in
        let fails = raised-is_failed (map quiet ms) p v (quiet-GoesOn ms) starts positive in
        inr (
          fails,
          failing,
          ap (λ b. apply_ops (export_file size d replace b (state_of flow).progress f) f) fails
              ∙ export_file-raised size d replace (state_of flow).progress f,
        )

    -- The export of a chat without prefetching and without a shutdown, from the server to the file: the
    -- file gets the header and, in order, the texts of all messages with a positive id above the least
    -- one that are no service messages, are not among the processed ones, have a text or media, and
    -- were processed to a text, with their number for the placeholder; or three calls of the client in
    -- a row failed, and the old file is kept. This holds where the client gives pages of a chat with
    -- ascending ids, the fuel exceeds the number of its messages, the first message to export has a
    -- text or media, both batch sizes are positive, the renaming does not raise, and nothing was counted
    -- before.
    pub export_chat-files_after :
        Pages c chat batch_fetch_size least
        → Ascending c chat
        → 1 ≤ batch_fetch_size
        → length chat < fuel
        → StartsWith dec cache_set x to_export
        → 1 ≤ x.batch_size
        → d.rename_raises ≡ false
        → p.processed_count ≡ 0
        → let flow = export_chat c fuel batch_fetch_size least p v in
          ((is_failed flow ≡ false)
            × (files_after dec cache_set x size d replace flow f ≡ record {
              path = some (replace (length texts_of) (join p.writes ++ join texts_of));
              tmp_path = none;
            }))
          ⊎ ((is_failed flow ≡ true)
              × ((k : ℕ) × AllFail c k 3)
              × (files_after dec cache_set x size d replace flow f
                  ≡ record { path = f.path; tmp_path = none }))
    unfolding export_chat
    export_chat-files_after pages ascending fetch_positive enough first positive renames fresh =
        let (outcome, t) = fetch_messages c fuel batch_fetch_size none least in
        let flow_of : Outcome → List M → Flow (Loop A M K S) =
          λ o ms. export_batches dec cache_set x (has_raised o) (map quiet ms) p v in
        elim (fetch_messages-yields c chat batch_fetch_size least pages ascending fetch_positive
          fuel none enough) [
            | inl (done, yields) ↦
                subst Result
                  (sym (ap (λ o. flow_of o t.yielded) done ∙ ap (flow_of finished) yields))
                  (finished-Result first positive renames fresh)
            | inr (error, failing, (n, yields)) ↦
                subst Result
                  (sym (ap (λ o. flow_of o t.yielded) error ∙ ap (flow_of raised) yields))
                  (raised-Result n failing first positive)
          ]
