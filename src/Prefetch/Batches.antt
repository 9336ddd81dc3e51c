-- ===== src/Prefetch/Batches.antt =====
-- What the batches are: the loop of the producer without a queue.
use tobs.Prelude.{
  ℕ, ◌+◌, ◌≤◌, ◌<◌, ◌≡◌, refl, sym, ◌∙◌, ap, Bool, true, false, not, List, [], ◌∷◌, ◌++◌, length,
  length-append, leb, keep, arith, inl, inr, Bool-cases, if◌then◌else◌,
}
use tobs.Prefetch.{Setting}

module _ {M : Type 0} where
  abbrev pub flat : List (List M) → List M
  flat [] = []
  flat (batch ∷ batches) = batch ++ flat batches

  -- All batches but the last have the size n, and that has at most n messages and at least one.
  abbrev pub Batched : ℕ → List (List M) → Type 0
  Batched n [] = Unit
  Batched n (batch ∷ []) = (1 ≤ length batch) × (length batch ≤ n)
  Batched n (batch ∷ next ∷ batches) = (length batch ≡ n) × Batched n (next ∷ batches)

  abbrev pub last_batch : Bool → List M → List (List M)
  last_batch true batch = []
  last_batch false [] = []
  last_batch false (m ∷ ms) = (m ∷ ms) ∷ []

  abbrev pub lost_batch : Bool → List M → List M
  lost_batch true batch = batch
  lost_batch false batch = []

  module _ (g : Setting M) where
    unfoldable pub batch_all : List M → List M → List (List M)
    batch_all batch [] = last_batch g.fetch_raises batch
    batch_all batch (m ∷ ms) =
        if g.skip_condition m
        then batch_all batch ms
        else if leb g.batch_size (length batch + 1)
        then (batch ++ m ∷ []) ∷ batch_all [] ms
        else batch_all (batch ++ m ∷ []) ms

    -- The messages of a batch that an error cuts off
    unfoldable pub cut_off : List M → List M → List M
    cut_off batch [] = lost_batch g.fetch_raises batch
    cut_off batch (m ∷ ms) =
        if g.skip_condition m
        then cut_off batch ms
        else if leb g.batch_size (length batch + 1)
        then cut_off [] ms
        else cut_off (batch ++ m ∷ []) ms

    abbrev pub wanted : List M → List M
    wanted ms = keep (λ m. not (g.skip_condition m)) ms

    append_nil : (xs : List M) → xs ++ [] ≡ xs
    append_nil [] = refl
    append_nil (x ∷ xs) = rw (append_nil xs)

    append_assoc : (xs ys zs : List M) → (xs ++ ys) ++ zs ≡ xs ++ (ys ++ zs)
    append_assoc [] ys zs = refl
    append_assoc (x ∷ xs) ys zs = rw (append_assoc xs ys zs)

    append_snoc : (xs : List M) (y : M) (zs : List M) → (xs ++ y ∷ []) ++ zs ≡ xs ++ y ∷ zs
    append_snoc [] y zs = refl
    append_snoc (x ∷ xs) y zs = rw (append_snoc xs y zs)

    flat-last_batch :
        (raises : Bool) (batch : List M)
        → flat (last_batch raises batch) ++ lost_batch raises batch ≡ batch ++ []
    flat-last_batch true batch = sym (append_nil batch)
    flat-last_batch false [] = refl
    flat-last_batch false (m ∷ ms) = append_nil (m ∷ ms ++ [])

    pub flat-batch_all :
        (batch ms : List M) → flat (batch_all batch ms) ++ cut_off batch ms ≡ batch ++ wanted ms
    unfolding batch_all cut_off
    flat-batch_all batch [] = flat-last_batch g.fetch_raises batch
    flat-batch_all batch (m ∷ ms) = elim (Bool-cases (g.skip_condition m)) [
      | inl skipped ↦ rw skipped (flat-batch_all batch ms)
      | inr taken ↦ elim (Bool-cases (leb g.batch_size (length batch + 1))) [
        | inl full ↦
            rw (taken, full)
              (append_assoc (batch ++ m ∷ []) (flat (batch_all [] ms)) (cut_off [] ms)
                ∙ ap (λ l. (batch ++ m ∷ []) ++ l) (flat-batch_all [] ms)
                ∙ append_snoc batch m (wanted ms))
        | inr part ↦
            rw (taken, part) (flat-batch_all (batch ++ m ∷ []) ms ∙ append_snoc batch m (wanted ms))
      ]
    ]

    pub cut_off_none : (batch ms : List M) → g.fetch_raises ≡ false → cut_off batch ms ≡ []
    unfolding cut_off
    cut_off_none batch [] h = rw h refl
    cut_off_none batch (m ∷ ms) h =
        ground (arith, cut_off_none batch ms, cut_off_none [] ms, cut_off_none (batch ++ m ∷ []) ms)

    pub length-cut_off :
        (batch ms : List M) → length batch < g.batch_size → length (cut_off batch ms) < g.batch_size
    unfolding cut_off
    length-cut_off batch [] h = elim (Bool-cases g.fetch_raises) [
      | inl e ↦ rw e h
      | inr e ↦ rw e (omega arith)
    ]
    length-cut_off batch (m ∷ ms) h = ground (
      arith,
      length-cut_off batch ms,
      length-cut_off [] ms,
      length-cut_off (batch ++ m ∷ []) ms,
      length-append batch (m ∷ []),
    )

    cons-Batched :
        (n : ℕ) (batch : List M) (batches : List (List M))
        → 1 ≤ n
        → length batch ≡ n
        → Batched n batches
        → Batched n (batch ∷ batches)
    cons-Batched n batch [] h e k = omega arith
    cons-Batched n batch (next ∷ batches) h e k = (e, k)

    last_batch-Batched :
        (raises : Bool) (n : ℕ) (batch : List M)
        → length batch < n
        → Batched n (last_batch raises batch)
    last_batch-Batched true n batch h = tt
    last_batch-Batched false n [] h = tt
    last_batch-Batched false n (m ∷ ms) h = omega arith

    pub batch_all-Batched :
        (batch ms : List M)
        → length batch < g.batch_size
        → Batched g.batch_size (batch_all batch ms)
    unfolding batch_all
    batch_all-Batched batch [] h = last_batch-Batched g.fetch_raises g.batch_size batch h
    batch_all-Batched batch (m ∷ ms) h = elim (Bool-cases (g.skip_condition m)) [
      | inl skipped ↦ rw skipped (batch_all-Batched batch ms h)
      | inr taken ↦ elim (Bool-cases (leb g.batch_size (length batch + 1))) [
        | inl full ↦
            rw (taken, full)
              (cons-Batched g.batch_size (batch ++ m ∷ []) (batch_all [] ms) (omega arith)
                (ground (arith, length-append batch (m ∷ [])))
                (batch_all-Batched [] ms (omega arith)))
        | inr part ↦
            rw (taken, part)
              (batch_all-Batched (batch ++ m ∷ []) ms
                (ground (arith, length-append batch (m ∷ []))))
      ]
    ]
