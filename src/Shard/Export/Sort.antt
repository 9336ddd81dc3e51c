-- ===== src/Shard/Export/Sort.antt =====
-- Sorting by identifier forgets the order in which messages arrived.
use mathlib.Core.List.{Permᴰ, reverse, reverse-cons}
use tobs.Prelude.{
  ℕ, ◌<◌, ◌≡◌, ◌≢◌, refl, sym, ◌∙◌, subst, List, [], ◌∷◌, ◌++◌, All, All-append, All-imp, All-perm,
  arith,
}
use tobs.Shard.Fetch.{Message}
use tobs.Shard.Fetch.Ranges.{Below, Descending}
use tobs.Shard.Export.{insert, sort_by_id}

module _ {ℓ} {C : Type ℓ} where
  abbrev pub Apart : Message C → Message C → Type 0
  Apart m k = k.id ≢ m.id

  -- No identifier occurs twice.
  abbrev pub Distinct : List (Message C) → Type 0
  Distinct [] = Unit
  Distinct (m ∷ ms) = All (Apart m) ms × Distinct ms

  pub Descending-Distinct : (ms : List (Message C)) → Descending ms → Distinct ms
  Descending-Distinct [] d = tt
  Descending-Distinct (m ∷ ms) d =
      (All-imp ms (λ k (h : k.id < m.id). λ e. omega arith) d.0, Descending-Distinct ms d.1)

  Distinct-perm : {xs ys : List (Message C)} → Permᴰ xs ys → Distinct xs → Distinct ys
  Distinct-perm Permᴰ.nil h = h
  Distinct-perm (Permᴰ.cons {b = b} {l₁ = l} e p) h =
      (All-perm (Apart b) p (subst (λ m. All (Apart m) l) e h.0), Distinct-perm p h.1)
  Distinct-perm (Permᴰ.swap {b = b} {b' = b'} {l = l} e e') h =
      subst (λ x. Distinct (x ∷ b' ∷ l)) e'
        (subst (λ x. Distinct (b ∷ x ∷ l)) e ((λ q. h.0.0 (sym q), h.1.0), (h.0.1, h.1.1)))
  Distinct-perm (Permᴰ.trans p q) h = Distinct-perm q (Distinct-perm p h)

  insert_comm :
      (m k : Message C) (xs : List (Message C))
      → Apart m k
      → insert m (insert k xs) ≡ insert k (insert m xs)
  unfolding insert
  insert_comm m k [] h = ground arith
  insert_comm m k (x ∷ xs) h = ground (arith, insert_comm m k xs h)

  pub sort-perm :
      {xs ys : List (Message C)} → Permᴰ xs ys → Distinct xs → sort_by_id xs ≡ sort_by_id ys
  unfolding sort_by_id
  sort-perm Permᴰ.nil h = refl
  sort-perm (Permᴰ.cons e p) h = cc (e, sort-perm p h.1)
  sort-perm (Permᴰ.swap {a = a} {b = b} {b' = b'} {l = l} e e') h =
      let both = insert a (insert b (sort_by_id l)) in
      subst (λ x. both ≡ insert x (insert b' (sort_by_id l))) e'
        (subst (λ x. both ≡ insert b (insert x (sort_by_id l))) e
          (insert_comm a b (sort_by_id l) h.0.0))
  sort-perm (Permᴰ.trans p q) h = sort-perm p h ∙ sort-perm q (Distinct-perm p h)

  insert_last : (m : Message C) (xs : List (Message C)) → Below m.id xs → insert m xs ≡ xs ++ m ∷ []
  unfolding insert
  insert_last m [] h = refl
  insert_last m (x ∷ xs) h = ground (arith, insert_last m xs h.1)

  Below-reverse : (n : ℕ) (xs : List (Message C)) → Below n xs → Below n (reverse xs)
  Below-reverse n [] h = tt
  Below-reverse n (x ∷ xs) h =
      rw (reverse-cons x xs)
        (All-append (λ m. m.id < n) (reverse xs) _ (Below-reverse n xs h.1) (h.0, tt))

  -- Newest first becomes oldest first.
  pub sort-Descending : (ms : List (Message C)) → Descending ms → sort_by_id ms ≡ reverse ms
  unfolding sort_by_id
  sort-Descending [] d = refl
  sort-Descending (m ∷ ms) d =
      rw (sort-Descending ms d.1, reverse-cons m ms)
        (insert_last m (reverse ms) (Below-reverse m.id ms d.0))
