-- ===== src/Exporter/Whole/Tests.antt =====
-- An export of six messages from a client whose second call is told to wait: 0 has no content, 3 is a
-- service message, 9 was processed before, and the text of a message is its number.
use tobs.Prelude.{
  ℕ, ℕ_discrete, ◌+◌, ◌≡◌, refl, ◌⊎◌, none, some, Bool, true, false, not, List, [], ◌∷◌, take, keep,
  ltb, ◌&&◌, ◌==◌, arith, if◌then◌else◌,
}
use tobs.Client.{succeeds, floods, Client}
use tobs.Client.Paging.{Ascending}
use tobs.Client.Retries.{AllFail}
use tobs.Exporter.{EntityDict, processed, Progress, Saves}
use tobs.Exporter.Batches.{is_failed, Export}
use tobs.Exporter.Saver.{Files, Disk}
use tobs.Exporter.File.{files_after}
use tobs.Exporter.Whole.{export_chat, export_chat-files_after}

abbrev history : List ℕ
history = 1 ∷ 3 ∷ 4 ∷ 6 ∷ 9 ∷ 12 ∷ []

abbrev client : Client ℕ
client = record {
  attempt = λ k. if k == 1 then floods 30 else succeeds;
  get_messages =
      λ limit offset_id min_id. take limit (keep (λ m. ltb offset_id m && ltb min_id m) history);
  id = λ m. m;
  has_action = λ m. m == 3;
}

abbrev chat : Export ℕ ℕ ℕ
chat = record {
  has_content = λ m. not (m == 6);
  is_processed = λ m. m == 9;
  process = λ m. processed (m ∷ []) m false 0;
  batch_size = 2;
  cache_key = 7;
}

abbrev counting_set : ℕ → EntityDict → ℕ → ℕ × Bool
counting_set key value sets = (sets + 1, false)

abbrev header : Progress ℕ
header = record {
  writes = (100 ∷ []) ∷ [];
  processed_count = 0;
  media_count = 0;
  entity_data = record {
    entity_id = "1";
    entity_name = "chat";
    entity_type = "user";
    total_messages = 0;
    processed_messages = 0;
    last_message_id = none;
    processed_message_ids = [];
  };
}

abbrev no_saves : Saves ℕ ℕ
no_saves = record { pending_cache_updates = []; cache = 0 }

abbrev disk : Disk
disk = record { remove_raises = false; rename_raises = false }

abbrev old_files : Files ℕ
old_files = record { path = some (8 ∷ []); tmp_path = none }

history-Ascending : Ascending client history
history-Ascending = (
  (omega arith, (omega arith, (omega arith, (omega arith, (omega arith, tt))))),
  (
    (omega arith, (omega arith, (omega arith, (omega arith, tt)))),
    (
      (omega arith, (omega arith, (omega arith, tt))),
      ((omega arith, (omega arith, tt)), ((omega arith, tt), (tt, tt))),
    ),
  ),
)

export_chat-files_after_example :
    let flow = export_chat ℕ_discrete counting_set chat client 7 2 0 header no_saves in
    let files =
      files_after ℕ_discrete counting_set chat 3 disk (λ count text. count ∷ text) flow old_files in
    ((is_failed flow ≡ false)
      × (files ≡ record { path = some (3 ∷ 100 ∷ 1 ∷ 4 ∷ 12 ∷ []); tmp_path = none }))
    ⊎ ((is_failed flow ≡ true) × ((k : ℕ) × AllFail client k 3) × (files ≡ old_files))
export_chat-files_after_example =
    export_chat-files_after ℕ_discrete counting_set chat client history 7 2 0 3 disk
      (λ count text. count ∷ text) header no_saves old_files (λ limit off least. refl)
      history-Ascending (omega arith) (omega arith) refl (omega arith) refl refl
