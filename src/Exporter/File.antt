-- ===== src/Exporter/File.antt =====
-- From the messages of a chat to its file: the loop, the saver and the header's count together.
use tobs.Prelude.{
  ℕ, ◌≤◌, ◌≡◌, refl, ◌∙◌, ap, none, some, Bool, true, false, List, [], ◌++◌, length, map, keep,
  arith, All, if◌then◌else◌,
}
use tobs.Exporter.{EntityDict, Progress, Saves}
use tobs.Exporter.Batches.{Arrival, Loop, Flow, state_of, is_failed, Export, export_batches}
use tobs.Exporter.Written.{contents, taken, GoesOn}
use tobs.Exporter.Loop.{StartsWith, export_batches-writes}
use tobs.Exporter.Unbound.{Waits, export_batches-fails}
use tobs.Exporter.Saver.{Files, Disk, join, apply_ops, save, update_message_count, export_file}
use tobs.Exporter.Saved.{apply_ops-append, join-append, save-writes}

module _ {A : Type 0} where
  update-renamed :
      (replace : List A → List A) (d : Disk) (text : List A)
      → d.rename_raises ≡ false
      → let g : Files A = record { path = some text; tmp_path = none } in
        apply_ops (update_message_count replace d g) g
        ≡ record { path = some (replace text); tmp_path = none }
  unfolding apply_ops
  update-renamed replace d text renames = rw renames refl

  -- The file of an export that has not raised
  export_file-finished :
      (size : ℕ) (d : Disk) (replace : ℕ → List A → List A) (p : Progress A) (f : Files A)
      → d.rename_raises ≡ false
      → apply_ops (export_file size d replace false p f) f
        ≡ record { path = some (replace p.processed_count (join p.writes)); tmp_path = none }
  unfolding export_file
  export_file-finished size d replace p f renames =
      let ops = save size d false p.writes in
      let saved : apply_ops ops f ≡ record { path = some (join p.writes); tmp_path = none } =
        save-writes size d false p.writes f ∙ rw renames refl in
      let update = update_message_count (replace p.processed_count) d (apply_ops ops f) in
      ap (λ b. apply_ops (ops ++ (if b then [] else update)) f) renames
      ∙ apply_ops-append ops update f
      ∙ ap (λ g. apply_ops (update_message_count (replace p.processed_count) d g) g) saved
      ∙ update-renamed (replace p.processed_count) d (join p.writes) renames

  pub export_file-raised :
      (size : ℕ) (d : Disk) (replace : ℕ → List A → List A) (p : Progress A) (f : Files A)
      → apply_ops (export_file size d replace true p f) f
        ≡ record { path = f.path; tmp_path = none }
  unfolding export_file apply_ops
  export_file-raised size d replace p f =
      apply_ops-append (save size d true p.writes) [] f ∙ save-writes size d true p.writes f

module _ {A M K S : Type 0} (dec : Discrete K) (cache_set : K → EntityDict → S → S × Bool)
    (x : Export A M K) where
  -- The files after an export that ended in this way
  abbrev pub files_after :
      ℕ → Disk → (ℕ → List A → List A) → Flow (Loop A M K S) → Files A → Files A
  files_after size d replace flow f =
      apply_ops (export_file size d replace (is_failed flow) (state_of flow).progress f) f

  -- The file of an export without prefetching has the header and then, in order, the texts of all
  -- messages that are not among the processed ones, have a text or media, and were processed to a text,
  -- with the placeholder replaced by the number of these texts: for every size of the buffer and every
  -- positive size of the batches, whatever file was there, where no shutdown is requested, neither the
  -- messages nor the renaming raise, nothing was counted before, and the first message to export has a
  -- text or media.
  pub export_batches-files_after :
      (arrivals : List (Arrival M)) (p : Progress A) (v : Saves K S) (size : ℕ) (d : Disk)
      (replace : ℕ → List A → List A) (f : Files A)
      → All (GoesOn dec cache_set x) arrivals
      → StartsWith dec cache_set x (taken dec cache_set x arrivals)
      → 1 ≤ x.batch_size
      → d.rename_raises ≡ false
      → p.processed_count ≡ 0
      → let texts =
          contents (map x.process (keep x.has_content (taken dec cache_set x arrivals))) in
        files_after size d replace (export_batches dec cache_set x false arrivals p v) f ≡ record {
          path = some (replace (length texts) (join p.writes ++ join texts));
          tmp_path = none;
        }
  export_batches-files_after arrivals p v size d replace f go first positive renames fresh =
      let (l, ends, adds, fetched) =
        export_batches-writes dec cache_set x arrivals p v go first positive in
      let texts = contents (map x.process (keep x.has_content (taken dec cache_set x arrivals))) in
      let count : l.progress.processed_count ≡ length texts =
        omega (arith, adds.processed_count, fresh) in
      ap (λ flow. files_after size d replace flow f) ends
      ∙ export_file-finished size d replace l.progress f renames
      ∙ ap (λ n. record { path = some (replace n (join l.progress.writes)); tmp_path = none }) count
      ∙ ap (λ t. record { path = some (replace (length texts) t); tmp_path = none })
          (ap join adds.writes ∙ join-append p.writes texts)

  -- Where no shutdown is requested and the messages begin with at least a batch of messages that are
  -- not among the processed ones and have no text and no media, the export without prefetching is
  -- left by an exception, whatever messages follow, and its file is the old one, or there is none.
  pub export_batches-leaves_old :
      (front rest : List (Arrival M)) (fetch_raises : Bool) (p : Progress A) (v : Saves K S)
      (size : ℕ) (d : Disk) (replace : ℕ → List A → List A) (f : Files A)
      → All (Waits dec cache_set x) front
      → keep x.has_content (taken dec cache_set x front) ≡ []
      → 1 ≤ x.batch_size
      → x.batch_size ≤ length (taken dec cache_set x front)
      → let flow = export_batches dec cache_set x fetch_raises (front ++ rest) p v in
        (is_failed flow ≡ true)
        × (files_after size d replace flow f ≡ record { path = f.path; tmp_path = none })
  export_batches-leaves_old front rest raises p v size d replace f waits empty positive full =
      let (l, fails, same, saved) =
        export_batches-fails dec cache_set x front rest raises p v waits empty positive full in
      (
        ap is_failed fails,
        ap (λ flow. files_after size d replace flow f) fails
            ∙ export_file-raised size d replace l.progress f,
      )
