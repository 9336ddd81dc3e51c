-- ===== src/Exporter/Saver.antt =====
-- `AsyncBufferedSaver`, which writes the file of an export, and `_update_message_count`, which corrects
-- its header. The saver gives the operations on the two files, the one written and its `.tmp`, in the
-- order they take effect; those that raise have none. Opening, writing and closing do not raise here.
use tobs.Prelude.{
  ℕ, ◌+◌, Option, none, some, Bool, List, [], ◌∷◌, ◌++◌, length, leb, ◌||◌, if◌then◌else◌,
}
use tobs.Exporter.{Progress}

pub record Files (A : Type 0) : Type 0 where
  pub path : Option (List A)
  pub tmp_path : Option (List A)

pub data DiskOp (A : Type 0) : Type 0 where
  open_tmp remove_path rename_tmp remove_tmp : DiskOp A
  append_tmp : List A → DiskOp A

pub record Saver (A : Type 0) : Type 0 where
  pub buffer : List (List A)
  pub current_size : ℕ

-- Whether the removal of the old file raises (other than for a missing file), and the renaming
pub record Disk : Type 0 where
  pub remove_raises : Bool
  pub rename_raises : Bool

module _ {A : Type 0} where
  -- `"".join(buffer)`
  abbrev pub join : List (List A) → List A
  join [] = []
  join (text ∷ buffer) = text ++ join buffer

  abbrev pub appended : List A → Option (List A) → Option (List A)
  appended content none = none
  appended content (some old) = some (old ++ content)

  abbrev pub renamed : Option (List A) → Files A → Files A
  renamed none f = f
  renamed (some content) f = record { path = some content; tmp_path = none }

  abbrev pub apply_op : DiskOp A → Files A → Files A
  apply_op open_tmp f = record f { tmp_path = some [] }
  apply_op remove_path f = record f { path = none }
  apply_op rename_tmp f = renamed f.tmp_path f
  apply_op remove_tmp f = record f { tmp_path = none }
  apply_op (append_tmp content) f = record f { tmp_path = appended content f.tmp_path }

  unfoldable pub apply_ops : List (DiskOp A) → Files A → Files A
  apply_ops [] f = f
  apply_ops (op ∷ ops) f = apply_ops ops (apply_op op f)

  abbrev pub flush_buffer : List (List A) → List (DiskOp A)
  flush_buffer [] = []
  flush_buffer (text ∷ buffer) = append_tmp (join (text ∷ buffer)) ∷ []

  abbrev pub flush : Saver A → List (DiskOp A) × Saver A
  flush s = (flush_buffer s.buffer, record { buffer = []; current_size = 0 })

  abbrev pub write : ℕ → List A → Saver A → List (DiskOp A) × Saver A
  write buffer_size text s =
      let s' : Saver A = record {
        buffer = s.buffer ++ text ∷ [];
        current_size = s.current_size + length text;
      } in
      if leb buffer_size s'.current_size then flush s' else ([], s')

  -- The writes of the body of `async with`
  unfoldable pub write_all : ℕ → List (List A) → Saver A → List (DiskOp A) × Saver A
  write_all buffer_size [] s = ([], s)
  write_all buffer_size (text ∷ writes) s =
      let (ops, s') = write buffer_size text s in
      let (ops', s'') = write_all buffer_size writes s' in (ops ++ ops', s'')

  abbrev pub finalize : Disk → List (DiskOp A)
  finalize d =
      (if d.remove_raises then [] else remove_path ∷ [])
      ++ (if d.rename_raises then remove_tmp else rename_tmp) ∷ []

  -- `__aexit__`
  abbrev pub exit : Disk → Bool → Saver A → List (DiskOp A)
  exit d body_raised s =
      flush_buffer s.buffer ++ (if body_raised then remove_tmp ∷ [] else finalize d)

  abbrev pub new_saver : Saver A
  new_saver = record { buffer = []; current_size = 0 }

  -- `async with AsyncBufferedSaver(path)` around these writes
  unfoldable pub save : ℕ → Disk → Bool → List (List A) → List (DiskOp A)
  unfolding write_all
  save buffer_size d body_raised writes =
      let (ops, s) = write_all buffer_size writes new_saver in
      open_tmp ∷ ops ++ exit d body_raised s

  -- `_update_message_count`; `replace` is the replacement of the placeholder by the count.
  abbrev pub update_content : (List A → List A) → Disk → Option (List A) → List (DiskOp A)
  update_content replace d none = []
  update_content replace d (some content) =
      open_tmp ∷ append_tmp (replace content) ∷ (if d.rename_raises then [] else rename_tmp ∷ [])

  abbrev pub update_message_count : (List A → List A) → Disk → Files A → List (DiskOp A)
  update_message_count replace d f = update_content replace d f.path

  -- The file part of `_export_regular_target`: the saver around the export, and, where that has not
  -- raised, the correction of the header's count
  unfoldable pub export_file :
      ℕ → Disk → (ℕ → List A → List A) → Bool → Progress A → Files A → List (DiskOp A)
  unfolding save apply_ops
  export_file buffer_size d replace body_raised p f =
      let ops = save buffer_size d body_raised p.writes in
      ops
      ++ (if body_raised || d.rename_raises
          then []
          else update_message_count (replace p.processed_count) d (apply_ops ops f))
