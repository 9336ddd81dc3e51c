-- ===== src/Exporter/Written.antt =====
-- What the loop over the messages writes to the file where no shutdown is requested.
use tobs.Prelude.{
  ℕ, ◌+◌, ◌≤◌, ◌<◌, ltb→lt, ltb→le, ◌≡◌, refl, sym, ◌∙◌, ap, ◌⊎◌, inl, inr, Bool, true, false,
  Option, some, List, [], ◌∷◌, ◌++◌, length, map, keep, keep-append, ltb, arith, Bool-cases,
  if◌then◌else◌,
}
use tobs.Exporter.{
  EntityDict, Processed, raised, processed, Progress, write_result, write_results, periodic_save,
}
use tobs.Exporter.Batches.{
  Arrival, Loop, Flow, going, Export, messages_to_process, process_messages, process_batch,
  full_batch,
}

abbrev pub last_or : Option ℕ → List ℕ → Option ℕ
last_or o [] = o
last_or o (i ∷ ids) = last_or (some i) ids

pub append_nil : {B : Type 0} (xs : List B) → xs ++ [] ≡ xs
append_nil [] = refl
append_nil (x ∷ xs) = rw (append_nil xs)

pub snoc_append :
    {B : Type 0} (xs : List B) (y : B) (ys : List B) → (xs ++ y ∷ []) ++ ys ≡ xs ++ y ∷ ys
snoc_append [] y ys = refl
snoc_append (x ∷ xs) y ys = rw (snoc_append xs y ys)

pub map-append :
    {B C : Type 0} (f : B → C) (xs ys : List B) → map f (xs ++ ys) ≡ map f xs ++ map f ys
map-append f [] ys = refl
map-append f (x ∷ xs) ys = rw (map-append f xs ys)

module _ {A : Type 0} where
  -- The texts, the ids and the media of the results that are written
  abbrev pub contents : List (Processed A) → List (List A)
  contents [] = []
  contents (raised ∷ results) = contents results
  contents (processed [] i h n ∷ results) = contents results
  contents (processed (c ∷ cs) i h n ∷ results) = (c ∷ cs) ∷ contents results

  abbrev pub written_ids : List (Processed A) → List ℕ
  written_ids [] = []
  written_ids (raised ∷ results) = written_ids results
  written_ids (processed [] i h n ∷ results) = written_ids results
  written_ids (processed (c ∷ cs) i h n ∷ results) = i ∷ written_ids results

  abbrev pub media_total : List (Processed A) → ℕ
  media_total [] = 0
  media_total (raised ∷ results) = media_total results
  media_total (processed [] i h n ∷ results) = media_total results
  media_total (processed (c ∷ cs) i h n ∷ results) = n + media_total results

  pub write_results-append :
      (a b : List (Processed A)) (p : Progress A)
      → write_results (a ++ b) p ≡ write_results b (write_results a p)
  unfolding write_results
  write_results-append [] b p = refl
  write_results-append (r ∷ a) b p = write_results-append a b (write_result r p)

  -- What the progress q has over the progress p
  pub record Adds (results : List (Processed A)) (p q : Progress A) : Type 0 where
    pub writes : q.writes ≡ p.writes ++ contents results
    pub processed_count : q.processed_count ≡ p.processed_count + length (contents results)
    pub media_count : q.media_count ≡ p.media_count + media_total results
    pub ids :
        q.entity_data.processed_message_ids
        ≡ p.entity_data.processed_message_ids ++ written_ids results
    pub last :
        q.entity_data.last_message_id ≡ last_or p.entity_data.last_message_id (written_ids results)

  pub write_results-Adds :
      (results : List (Processed A)) (p : Progress A) → Adds results p (write_results results p)
  unfolding write_results
  write_results-Adds [] p = record {
    writes = sym (append_nil p.writes);
    processed_count = omega arith;
    media_count = omega arith;
    ids = sym (append_nil p.entity_data.processed_message_ids);
    last = refl;
  }
  write_results-Adds (raised ∷ results) p =
      let rest = write_results-Adds results p in
      record {
        writes = rest.writes;
        processed_count = rest.processed_count;
        media_count = rest.media_count;
        ids = rest.ids;
        last = rest.last;
      }
  write_results-Adds (processed [] i h n ∷ results) p =
      let rest = write_results-Adds results p in
      record {
        writes = rest.writes;
        processed_count = rest.processed_count;
        media_count = rest.media_count;
        ids = rest.ids;
        last = rest.last;
      }
  write_results-Adds (processed (c ∷ cs) i h n ∷ results) p =
      let rest = write_results-Adds results (write_result (processed (c ∷ cs) i h n) p) in
      record {
        writes = rest.writes ∙ snoc_append p.writes (c ∷ cs) (contents results);
        processed_count = omega (arith, rest.processed_count);
        media_count = omega (arith, rest.media_count);
        ids = rest.ids ∙ snoc_append p.entity_data.processed_message_ids i (written_ids results);
        last = rest.last;
      }

module _ {A M K S : Type 0} (dec : Discrete K) (cache_set : K → EntityDict → S → S × Bool)
    (x : Export A M K) where
  -- The messages that are not among the processed ones
  abbrev pub taken : List (Arrival M) → List M
  taken [] = []
  taken (a ∷ arrivals) =
      if x.is_processed a.message then taken arrivals else a.message ∷ taken arrivals

  abbrev pub GoesOn : Arrival M → Type 0
  GoesOn a = (a.stop_before ≡ false) × (a.stop_after ≡ false)

  -- `io_start` has a value, or gets one from the batch.
  abbrev pub Ready : Loop A M K S → Type 0
  Ready l = (l.io_start ≡ true) ⊎ (1 ≤ length (keep x.has_content l.batch))

  -- The loop goes on from l with a state that has processed `cut`, a batch or nothing, and has the other
  -- messages in its batch.
  pub record Advance (l : Loop A M K S) (ms : List M) (flow : Flow (Loop A M K S)) : Type 0 where
    pub next : Loop A M K S
    pub goes : flow ≡ going next
    pub ready : Ready next
    pub counted : next.fetched_count ≡ l.fetched_count + length ms
    pub cut : List M
    pub progress :
        next.progress ≡ process_messages dec cache_set x (keep x.has_content cut) l.progress
    pub parts : l.batch ++ ms ≡ cut ++ next.batch
    pub whole : (length cut ≡ 0) ⊎ (length cut ≡ x.batch_size)
    pub short : length next.batch < x.batch_size

  pub process_messages-append :
      (a b : List M) (p : Progress A)
      → process_messages dec cache_set x (keep x.has_content (a ++ b)) p
        ≡ process_messages dec cache_set x
            (keep x.has_content b)
            (process_messages dec cache_set x (keep x.has_content a) p)
  process_messages-append a b p =
      ap (λ ms. write_results (map x.process ms) p) (keep-append x.has_content a b)
      ∙ ap (λ rs. write_results rs p)
          (map-append x.process (keep x.has_content a) (keep x.has_content b))
      ∙ write_results-append (map x.process (keep x.has_content a))
          (map x.process (keep x.has_content b)) p

  pub process_batch-parts :
      (l : Loop A M K S) (ms : List M)
      → let l' = process_batch dec cache_set x l ms in
        (l'.progress ≡ process_messages dec cache_set x ms l.progress)
        × (l'.fetched_count ≡ l.fetched_count)
        × ((l.io_start ≡ true) ⊎ (1 ≤ length ms) → l'.io_start ≡ true)
  unfolding process_batch write_results
  process_batch-parts l [] = (refl, refl, λ h. elim h [ inl e ↦ e | inr e ↦ absurd (omega arith) ])
  process_batch-parts l (m ∷ ms) = (refl, refl, λ h. refl)

  pub full_batch-Advance :
      (l : Loop A M K S)
      → Ready l
      → 1 ≤ x.batch_size
      → length l.batch ≤ x.batch_size
      → Advance l [] (full_batch dec cache_set x false l)
  unfolding write_results
  full_batch-Advance l ready positive few = elim (Bool-cases (ltb (length l.batch) x.batch_size)) [
    | inl part ↦ record {
      next = l;
      goes = rw part refl;
      ready = ready;
      progress = refl;
      counted = omega arith;
      cut = [];
      parts = append_nil l.batch;
      whole = inl refl;
      short = ltb→lt _ _ part;
    }
    | inr full ↦
        let ms = messages_to_process dec cache_set x l.batch in
        let (progress, fetched, started) = process_batch-parts l ms in
        let done = process_batch dec cache_set x l ms in
        record {
          next = record done {
            saves = periodic_save dec cache_set x.cache_key done.progress done.saves;
            batch = [];
          };
          goes = rw (full, started ready) refl;
          ready = inl (started ready);
          progress = progress;
          counted = omega (arith, fetched);
          cut = l.batch;
          parts = refl;
          whole = inr (omega (arith, ltb→le _ _ full));
          short = positive;
        }
  ]
