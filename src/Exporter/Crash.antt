-- ===== src/Exporter/Crash.antt =====
-- The file of an export after a crash at any operation on it.
use tobs.Prelude.{
  ℕ, zero, suc, ◌≡◌, refl, sym, ◌∙◌, ap, subst, ◌⊎◌, inl, inr, Option, none, some, Bool, true,
  false, List, [], ◌∷◌, ◌++◌, take, All, Bool-cases,
}
use tobs.Exporter.Saver.{
  Files, DiskOp, open_tmp, remove_path, rename_tmp, remove_tmp, append_tmp, Disk, join, apply_op,
  apply_ops, save, update_message_count,
}
use tobs.Exporter.Saved.{apply_ops-append, IsAppend, ending, save-parts}

module _ {A : Type 0} where
  -- The first operations of a list with an end are first operations of the list, or all of it and
  -- first operations of the end.
  take-append :
      (k : ℕ) (ops end : List (DiskOp A))
      → (take k (ops ++ end) ≡ take k ops) ⊎ ((j : ℕ) × (take k (ops ++ end) ≡ ops ++ take j end))
  take-append k [] end = inr (k, refl)
  take-append zero (op ∷ ops) end = inl refl
  take-append (suc k) (op ∷ ops) end = elim (take-append k ops end) [
    | inl e ↦ inl (ap (λ t. op ∷ t) e)
    | inr (j, e) ↦ inr (j, ap (λ t. op ∷ t) e)
  ]

  appends-path :
      (k : ℕ) (ops : List (DiskOp A)) (f : Files A)
      → All IsAppend ops
      → (apply_ops (take k ops) f).path ≡ f.path
  unfolding apply_ops
  appends-path zero ops f h = refl
  appends-path (suc k) [] f h = refl
  appends-path (suc k) (append_tmp text ∷ ops) f h =
      appends-path k ops (apply_op (append_tmp text) f) h.1
  appends-path (suc k) (open_tmp ∷ ops) f h = absurd h.0
  appends-path (suc k) (remove_path ∷ ops) f h = absurd h.0
  appends-path (suc k) (rename_tmp ∷ ops) f h = absurd h.0
  appends-path (suc k) (remove_tmp ∷ ops) f h = absurd h.0

  -- The old file, no file but the whole temporary one, or the whole new file
  abbrev pub Survives : Option (List A) → List A → Files A → Type 0
  Survives old text f =
      (f.path ≡ old) ⊎ (((f.path ≡ none) × (f.tmp_path ≡ some text)) ⊎ (f.path ≡ some text))

  ending-Survives :
      (j : ℕ) (d : Disk) (body_raised : Bool) (old : Option (List A)) (text : List A)
      → d.rename_raises ≡ false
      → Survives old text
          (apply_ops (take j (ending d body_raised)) (record { path = old; tmp_path = some text }))
  unfolding apply_ops
  ending-Survives zero d raised old text renames = inl refl
  ending-Survives (suc zero) d true old text renames = inl refl
  ending-Survives (suc (suc j)) d true old text renames = inl refl
  ending-Survives (suc zero) d false old text renames = elim (Bool-cases d.remove_raises) [
    | inl kept ↦ rw (kept, renames) (inr (inr refl))
    | inr gone ↦ rw gone (inr (inl (refl, refl)))
  ]
  ending-Survives (suc (suc zero)) d false old text renames = elim (Bool-cases d.remove_raises) [
    | inl kept ↦ rw (kept, renames) (inr (inr refl))
    | inr gone ↦ rw (gone, renames) (inr (inr refl))
  ]
  ending-Survives (suc (suc (suc j))) d false old text renames = elim (Bool-cases d.remove_raises) [
    | inl kept ↦ rw (kept, renames) (inr (inr refl))
    | inr gone ↦ rw (gone, renames) (inr (inr refl))
  ]

  -- A crash after any number of operations of the saver leaves at its path the old file or all the new
  -- texts, or no file, and then the temporary file has all the new texts, where the renaming does not
  -- raise.
  pub save-Survives :
      (k buffer_size : ℕ) (d : Disk) (body_raised : Bool) (writes : List (List A)) (f : Files A)
      → d.rename_raises ≡ false
      → Survives f.path (join writes) (apply_ops (take k (save buffer_size d body_raised writes)) f)
  unfolding apply_ops
  save-Survives zero size d raised writes f renames = inl refl
  save-Survives (suc k) size d raised writes f renames =
      let (body, b, same) = save-parts size d raised writes in
      let opened : Files A = record { path = f.path; tmp_path = some [] } in
      subst (λ ops. Survives f.path (join writes) (apply_ops (take (suc k) ops) f)) (sym same)
        (elim (take-append k body (ending d raised)) [
          | inl e ↦ rw e (inl (appends-path k body opened b.only))
          | inr (j, e) ↦
              subst (Survives f.path (join writes))
                (sym (
                  ap (λ ops. apply_ops ops opened) e
                  ∙ apply_ops-append body (take j (ending d raised)) opened
                  ∙ ap (apply_ops (take j (ending d raised))) (b.appends f.path [])))
                (ending-Survives j d raised f.path (join writes) renames)
        ])

  -- A crash of the correction of the count leaves the old file or the corrected one.
  pub update_message_count-Survives :
      (k : ℕ) (replace : List A → List A) (d : Disk) (old : List A) (f : Files A)
      → f.path ≡ some old
      → let g = apply_ops (take k (update_message_count replace d f)) f in
        (g.path ≡ some old) ⊎ (g.path ≡ some (replace old))
  unfolding apply_ops
  update_message_count-Survives zero replace d old f has = inl has
  update_message_count-Survives (suc zero) replace d old f has = inl (rw has refl)
  update_message_count-Survives (suc (suc zero)) replace d old f has = inl (rw has refl)
  update_message_count-Survives (suc (suc (suc zero))) replace d old f has =
      elim (Bool-cases d.rename_raises) [
        | inl fails ↦ inl (rw (has, fails) refl)
        | inr renames ↦ inr (rw (has, renames) refl)
      ]
  update_message_count-Survives (suc (suc (suc (suc k)))) replace d old f has =
      elim (Bool-cases d.rename_raises) [
        | inl fails ↦ inl (rw (has, fails) refl)
        | inr renames ↦ inr (rw (has, renames) refl)
      ]
