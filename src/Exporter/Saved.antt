-- ===== src/Exporter/Saved.antt =====
-- What the file of an export has after the saver, and after a crash at any of its operations.
use tobs.Prelude.{
  ℕ, ◌+◌, ◌≡◌, refl, sym, ◌∙◌, ap, subst, inl, inr, Option, none, some, Bool, true, false, List, [],
  ◌∷◌, ◌++◌, length, All, All-append, leb, Bool-cases, if◌then◌else◌,
}
use mathlib.Core.List.{append_assoc}
use tobs.Exporter.Written.{append_nil}
use tobs.Exporter.Saver.{
  Files, DiskOp, open_tmp, remove_path, rename_tmp, remove_tmp, append_tmp, Saver, Disk, join,
  apply_op, apply_ops, flush_buffer, write, write_all, finalize, new_saver, save,
}

module _ {A : Type 0} where
  pub apply_ops-append :
      (a b : List (DiskOp A)) (f : Files A) → apply_ops (a ++ b) f ≡ apply_ops b (apply_ops a f)
  unfolding apply_ops
  apply_ops-append [] b f = refl
  apply_ops-append (op ∷ a) b f = apply_ops-append a b (apply_op op f)

  pub join-append : (a b : List (List A)) → join (a ++ b) ≡ join a ++ join b
  join-append [] b = refl
  join-append (text ∷ a) b =
      ap (λ t. text ++ t) (join-append a b) ∙ sym (append_assoc text (join a) (join b))

  -- The operations append these texts to the temporary file and do nothing else.
  abbrev pub Appends : List (DiskOp A) → List A → Type 0
  Appends ops text =
      (path : Option (List A)) (start : List A)
      → apply_ops ops (record { path = path; tmp_path = some start })
        ≡ record { path = path; tmp_path = some (start ++ text) }

  abbrev pub IsAppend : DiskOp A → Type 0
  IsAppend open_tmp = ⊥
  IsAppend remove_path = ⊥
  IsAppend rename_tmp = ⊥
  IsAppend remove_tmp = ⊥
  IsAppend (append_tmp text) = Unit

  append-Appends :
      (a b : List (DiskOp A)) (s t : List A) → Appends a s → Appends b t → Appends (a ++ b) (s ++ t)
  append-Appends a b s t h k path start =
      apply_ops-append a b _
      ∙ ap (apply_ops b) (h path start)
      ∙ k path (start ++ s)
      ∙ ap (λ c. record { path = path; tmp_path = some c }) (append_assoc start s t)

  none-Appends : Appends [] []
  unfolding apply_ops
  none-Appends path start =
      ap (λ c. record { path = path; tmp_path = some c }) (sym (append_nil start))

  flush_buffer-Appends : (buffer : List (List A)) → Appends (flush_buffer buffer) (join buffer)
  unfolding apply_ops
  flush_buffer-Appends [] path start = none-Appends path start
  flush_buffer-Appends (text ∷ buffer) path start = refl

  -- What was appended and what is still in the buffer are the texts, in order.
  record Buffers (ops : List (DiskOp A)) (texts : List A) (s : Saver A) : Type 0 where
    pub flushed : List A
    pub appends : Appends ops flushed
    pub only : All IsAppend ops
    pub whole : flushed ++ join s.buffer ≡ texts

  write-Buffers :
      (size : ℕ) (text : List A) (s : Saver A)
      → let (ops, s') = write size text s in Buffers ops (join s.buffer ++ text) s'
  write-Buffers size text s =
      let joined : join (s.buffer ++ text ∷ []) ≡ join s.buffer ++ text =
        join-append s.buffer (text ∷ []) ∙ ap (λ t. join s.buffer ++ t) (append_nil text) in
      elim (Bool-cases (leb size (s.current_size + length text))) [
        | inl full ↦ rw full (record {
          flushed = join (s.buffer ++ text ∷ []);
          appends = flush_buffer-Appends (s.buffer ++ text ∷ []);
          only = flush_only (s.buffer ++ text ∷ []);
          whole = append_nil (join (s.buffer ++ text ∷ [])) ∙ joined;
        })
        | inr part ↦
            rw part (record { flushed = []; appends = none-Appends; only = tt; whole = joined })
      ]
    where
      flush_only : (buffer : List (List A)) → All IsAppend (flush_buffer buffer)
      flush_only [] = tt
      flush_only (t ∷ buffer) = (tt, tt)

  write_all-Buffers :
      (size : ℕ) (writes : List (List A)) (s : Saver A)
      → let (ops, s') = write_all size writes s in Buffers ops (join s.buffer ++ join writes) s'
  unfolding write_all
  write_all-Buffers size [] s = record {
    flushed = [];
    appends = none-Appends;
    only = tt;
    whole = sym (append_nil (join s.buffer));
  }
  write_all-Buffers size (text ∷ writes) s =
      let (ops, s') = write size text s in
      let (ops', s'') = write_all size writes s' in
      let one = write-Buffers size text s in
      let rest = write_all-Buffers size writes s' in
      record {
        flushed = one.flushed ++ rest.flushed;
        appends = append-Appends ops ops' one.flushed rest.flushed one.appends rest.appends;
        only = All-append IsAppend ops ops' one.only rest.only;
        whole =
            append_assoc one.flushed rest.flushed (join s''.buffer)
            ∙ ap (λ t. one.flushed ++ t) rest.whole
            ∙ sym (append_assoc one.flushed (join s'.buffer) (join writes))
            ∙ ap (λ t. t ++ join writes) one.whole
            ∙ append_assoc (join s.buffer) text (join writes);
      }

  -- The writes and the last flush append all texts and do nothing else.
  pub record Body (ops : List (DiskOp A)) (texts : List A) : Type 0 where
    pub appends : Appends ops texts
    pub only : All IsAppend ops

  flush_buffer-only : (buffer : List (List A)) → All IsAppend (flush_buffer buffer)
  flush_buffer-only [] = tt
  flush_buffer-only (t ∷ buffer) = (tt, tt)

  write_all-Body :
      (size : ℕ) (writes : List (List A))
      → let (ops, s) = write_all size writes new_saver in
        Body (ops ++ flush_buffer s.buffer) (join writes)
  write_all-Body size writes =
      let (ops, s) = write_all size writes new_saver in
      let b = write_all-Buffers size writes new_saver in
      record {
        appends = subst (Appends (ops ++ flush_buffer s.buffer)) b.whole (
            append-Appends ops (flush_buffer s.buffer) b.flushed (join s.buffer) b.appends
              (flush_buffer-Appends s.buffer));
        only = All-append IsAppend ops (flush_buffer s.buffer) b.only (flush_buffer-only s.buffer);
      }

  -- The operations at the end of `__aexit__`
  abbrev pub ending : Disk → Bool → List (DiskOp A)
  ending d body_raised = if body_raised then remove_tmp ∷ [] else finalize d

  -- The saver opens its file, appends all texts, and ends.
  pub save-parts :
      (size : ℕ) (d : Disk) (body_raised : Bool) (writes : List (List A))
      → (body : List (DiskOp A)) × Body body (join writes)
        × (save size d body_raised writes ≡ open_tmp ∷ body ++ ending d body_raised)
  unfolding save
  save-parts size d raised writes =
      let (ops, s) = write_all size writes new_saver in
      (
        ops ++ flush_buffer s.buffer,
        write_all-Body size writes,
        ap (λ t. open_tmp ∷ t) (sym (append_assoc ops (flush_buffer s.buffer) (ending d raised))),
      )

  apply-ending :
      (d : Disk) (body_raised : Bool) (path : Option (List A)) (text : List A)
      → apply_ops (ending d body_raised) (record { path = path; tmp_path = some text }) ≡ (
          if body_raised
          then record { path = path; tmp_path = none }
          else if d.rename_raises
          then record { path = (if d.remove_raises then path else none); tmp_path = none }
          else record { path = some text; tmp_path = none })
  unfolding apply_ops
  apply-ending d true path text = refl
  apply-ending d false path text = elim (Bool-cases d.rename_raises) [
    | inl fails ↦ elim (Bool-cases d.remove_raises) [
      | inl kept ↦ rw (fails, kept) refl
      | inr gone ↦ rw (fails, gone) refl
    ]
    | inr renames ↦ elim (Bool-cases d.remove_raises) [
      | inl kept ↦ rw (renames, kept) refl
      | inr gone ↦ rw (renames, gone) refl
    ]
  ]

  -- For every size of the buffer, the saver leaves at its path all texts written to it, in order, where
  -- its body does not raise and the renaming does not; where the body raises it leaves the old file,
  -- and where the renaming raises it leaves no file, unless it could not remove the old one. It never
  -- leaves a temporary file.
  pub save-writes :
      (buffer_size : ℕ) (d : Disk) (body_raised : Bool) (writes : List (List A)) (f : Files A)
      → apply_ops (save buffer_size d body_raised writes) f ≡ (
          if body_raised
          then record { path = f.path; tmp_path = none }
          else if d.rename_raises
          then record { path = (if d.remove_raises then f.path else none); tmp_path = none }
          else record { path = some (join writes); tmp_path = none })
  unfolding apply_ops
  save-writes size d raised writes f =
      let (body, b, same) = save-parts size d raised writes in
      ap (λ ops. apply_ops ops f) same
      ∙ apply_ops-append body (ending d raised) (record { path = f.path; tmp_path = some [] })
      ∙ ap (apply_ops (ending d raised)) (b.appends f.path [])
      ∙ apply-ending d raised f.path (join writes)
