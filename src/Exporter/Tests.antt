-- ===== src/Exporter/Tests.antt =====
-- Small exports of numbers, and the theorems applied there. A message is a number, 0 without content, 9
-- processed before; its text is the number itself.
use tobs.Prelude.{
  ℕ, ℕ_discrete, ◌+◌, ◌≡◌, refl, none, some, Bool, true, false, not, List, [], ◌∷◌, ◌++◌, length,
  map, take, keep, All, ◌==◌, arith,
}
use tobs.Exporter.{
  EntityCacheData, EntityDict, processed, Progress, write_results, Saves, batch_cache_set,
}
use tobs.Exporter.Batches.{
  Arrival, Loop, left, state_of, is_failed, Round, Export, process_messages, process_batch, receive,
  loop, export_batches, export_with_prefetch,
}
use tobs.Exporter.Written.{Adds}
use tobs.Exporter.Stops.{results_of, export_batches-writes_twice}
use tobs.Exporter.Consumed.{
  batches_of, Uninterrupted, export_with_prefetch-writes_once, export_with_prefetch-export_batches,
}
use tobs.Exporter.Unsaved.{Unsaved}
use tobs.Exporter.Saver.{Files, Disk, join, apply_ops, save}
use tobs.Exporter.Saved.{save-writes}
use tobs.Exporter.Crash.{Survives, save-Survives}
use tobs.Exporter.File.{files_after, export_batches-files_after, export_batches-leaves_old}
use tobs.Prefetch.{
  ended, Setting, producer_turn, consumer_turn, Actor, run, start_producer, turn, producer,
  get_next_batch,
}
use tobs.Prefetch.Batches.{flat}

abbrev chat : Export ℕ ℕ ℕ
chat = record {
  has_content = λ m. not (m == 0);
  is_processed = λ m. m == 9;
  process = λ m. processed (m ∷ []) m false 0;
  batch_size = 2;
  cache_key = 7;
}

abbrev counting_set : ℕ → EntityDict → ℕ → ℕ × Bool
counting_set key value sets = (sets + 1, false)

abbrev arrival : ℕ → Arrival ℕ
arrival m = record { message = m; stop_before = false; stop_after = false }

abbrev entity : EntityCacheData
entity = record {
  entity_id = "1";
  entity_name = "chat";
  entity_type = "user";
  total_messages = 0;
  processed_messages = 0;
  last_message_id = none;
  processed_message_ids = [];
}

abbrev header : Progress ℕ
header = record {
  writes = (100 ∷ []) ∷ [];
  processed_count = 0;
  media_count = 0;
  entity_data = entity;
}

abbrev no_saves : Saves ℕ ℕ
no_saves = record { pending_cache_updates = []; cache = 0 }

abbrev arrivals : List (Arrival ℕ)
arrivals = arrival 1 ∷ arrival 9 ∷ arrival 0 ∷ arrival 3 ∷ arrival 4 ∷ arrival 5 ∷ []

abbrev disk : Disk
disk = record { remove_raises = false; rename_raises = false }

abbrev replace : ℕ → List ℕ → List ℕ
replace count text = count ∷ text

abbrev old_files : Files ℕ
old_files = record { path = some (8 ∷ []); tmp_path = none }

all_go : All (λ a. (a.stop_before ≡ false) × (a.stop_after ≡ false)) arrivals
all_go = (
  (refl, refl),
  ((refl, refl), ((refl, refl), ((refl, refl), ((refl, refl), ((refl, refl), tt))))),
)

export_batches-files_after-test :
    files_after ℕ_discrete counting_set chat 3 disk replace
      (export_batches ℕ_discrete counting_set chat false arrivals header no_saves)
      old_files
    ≡ record { path = some (4 ∷ 100 ∷ 1 ∷ 3 ∷ 4 ∷ 5 ∷ []); tmp_path = none }
export_batches-files_after-test =
    export_batches-files_after ℕ_discrete counting_set chat arrivals header no_saves 3 disk replace
      old_files all_go refl (omega arith) refl refl

abbrev empty_first : List (Arrival ℕ)
empty_first = arrival 0 ∷ arrival 0 ∷ []

export_batches-leaves_old_example :
    let flow =
      export_batches ℕ_discrete counting_set chat false (empty_first ++ arrivals) header no_saves in
    (is_failed flow ≡ true)
    × (files_after ℕ_discrete counting_set chat 3 disk replace flow old_files ≡ old_files)
export_batches-leaves_old_example =
    export_batches-leaves_old ℕ_discrete counting_set chat empty_first arrivals false header
      no_saves 3 disk replace old_files (refl, (refl, tt)) refl (omega arith) (omega arith)

abbrev stopping : Arrival ℕ
stopping = record { message = 4; stop_before = false; stop_after = true }

abbrev before_stop : List (Arrival ℕ)
before_stop = arrival 1 ∷ arrival 2 ∷ arrival 3 ∷ []

export_batches-writes_twice_example :
    (before batch : List ℕ) × (1 ∷ 2 ∷ 3 ∷ 4 ∷ [] ≡ before ++ batch)
    × (length batch ≡ 2)
    × (l : Loop ℕ ℕ ℕ ℕ) × (export_batches ℕ_discrete counting_set chat false
          (before_stop ++ stopping ∷ arrivals)
          header
          no_saves
        ≡ left l)
    × Adds
        (results_of ℕ_discrete counting_set chat before
          ++ (results_of ℕ_discrete counting_set chat batch
              ++ results_of ℕ_discrete counting_set chat batch))
        header
        l.progress
export_batches-writes_twice_example =
    export_batches-writes_twice ℕ_discrete counting_set chat before_stop arrivals stopping false 2
      header no_saves ((refl, refl), ((refl, refl), ((refl, refl), tt))) refl refl refl refl
      (omega arith) (omega arith)

abbrev round : ℕ → ℕ → Bool → Round ℕ
round m n stops = record { batch = m ∷ n ∷ []; stop_before = false; stop_after = stops }

abbrev rounds : List (Round ℕ)
rounds = round 1 0 false ∷ round 3 4 true ∷ round 5 6 false ∷ []

export_with_prefetch-writes_once_example :
    (n : ℕ) × ((export_with_prefetch ℕ_discrete counting_set chat rounds (header, no_saves)).0
      ≡ process_messages ℕ_discrete counting_set chat
          (keep chat.has_content (flat (take n (batches_of ℕ_discrete counting_set chat rounds))))
          header)
    × (All (Uninterrupted ℕ_discrete counting_set chat) rounds
        → take n (batches_of ℕ_discrete counting_set chat rounds)
          ≡ batches_of ℕ_discrete counting_set chat rounds)
export_with_prefetch-writes_once_example =
    export_with_prefetch-writes_once ℕ_discrete counting_set chat rounds (header, no_saves)

abbrev setting : Setting ℕ
setting = record {
  batch_size = 3;
  queue_size = 1;
  skip_condition = chat.is_processed;
  fetch_raises = false;
}

abbrev five_turns : List Actor
five_turns = producer_turn ∷ producer_turn ∷ producer_turn ∷ producer_turn ∷ consumer_turn ∷ []

abbrev turns : List Actor
turns = five_turns ++ five_turns ++ five_turns ++ five_turns

abbrev got : List (Round ℕ)
got =
    record { batch = 1 ∷ 0 ∷ 3 ∷ []; stop_before = false; stop_after = false }
    ∷ record { batch = 4 ∷ 5 ∷ []; stop_before = false; stop_after = false }
    ∷ []

got_all :
    ((run setting turns (start_producer (map (λ a. a.message) arrivals))).consumer ≡ ended)
    × (batches_of ℕ_discrete counting_set chat got
        ≡ (run setting turns (start_producer (map (λ a. a.message) arrivals))).received)
unfolding turn producer get_next_batch
got_all = (refl, refl)

export_with_prefetch-export_batches_example :
    (l : Loop ℕ ℕ ℕ ℕ) × (export_batches ℕ_discrete counting_set chat false arrivals header no_saves
      ≡ left l)
    × ((export_with_prefetch ℕ_discrete counting_set chat got (header, no_saves)).0 ≡ l.progress)
export_with_prefetch-export_batches_example =
    export_with_prefetch-export_batches ℕ_discrete counting_set chat arrivals got turns setting
      header no_saves all_go ((refl, refl), ((refl, refl), tt)) refl (omega arith) (omega arith)
      refl refl got_all.0 got_all.1

abbrev texts : List (List ℕ)
texts = (1 ∷ 2 ∷ []) ∷ (3 ∷ []) ∷ (4 ∷ []) ∷ []

save-writes_example :
    apply_ops (save 3 disk false texts) old_files
    ≡ record { path = some (1 ∷ 2 ∷ 3 ∷ 4 ∷ []); tmp_path = none }
save-writes_example = save-writes 3 disk false texts old_files

save-Survives_example :
    Survives (some (8 ∷ [])) (join texts) (apply_ops (take 4 (save 3 disk false texts)) old_files)
save-Survives_example = save-Survives 4 3 disk false texts old_files refl

empty_first-test :
    is_failed
      (export_batches ℕ_discrete counting_set chat false (empty_first ++ arrivals) header no_saves)
    ≡ true
unfolding export_batches loop receive process_batch
empty_first-test = refl

shutdown-test :
    (state_of (
      export_batches ℕ_discrete counting_set chat false
        (before_stop ++ stopping ∷ arrivals)
        header
        no_saves)).progress.writes
    ≡ (100 ∷ []) ∷ (1 ∷ []) ∷ (2 ∷ []) ∷ (3 ∷ []) ∷ (4 ∷ []) ∷ (3 ∷ []) ∷ (4 ∷ []) ∷ []
unfolding export_batches loop receive process_batch write_results batch_cache_set
shutdown-test = refl
