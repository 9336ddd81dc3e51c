-- ===== src/Shard/Fetch/Ranges.antt =====
-- Messages by identifier: an archive in descending order, and its part in a range.
use tobs.Prelude.{
  ℕ, zero, suc, ◌+◌, ◌≤◌, ◌<◌, ◌≡◌, refl, List, [], ◌∷◌, ◌++◌, ◌&&◌, ltb, keep, All, All-keep,
  All-imp, take, drop, arith, Bool-cases, ltb→le, inl, inr,
}
use tobs.Shard.Fetch.{Message, last_id}

module _ {ℓ} {C : Type ℓ} where
  abbrev pub Below : ℕ → List (Message C) → Type 0
  Below n = All (λ m. m.id < n)

  abbrev pub Descending : List (Message C) → Type 0
  Descending [] = Unit
  Descending (m ∷ ms) = Below m.id ms × Descending ms

  -- The messages with lo < id < hi.
  abbrev pub within : ℕ → ℕ → List (Message C) → List (Message C)
  within lo hi = keep (λ m. ltb lo m.id && ltb m.id hi)

  pub Descending-within :
      (lo hi : ℕ) (ms : List (Message C)) → Descending ms → Descending (within lo hi ms)
  Descending-within lo hi [] d = tt
  Descending-within lo hi (m ∷ ms) d = ground (
    arith,
    All-keep (λ k. k.id < m.id) (λ k. ltb lo k.id && ltb k.id hi) ms d.0,
    Descending-within lo hi ms d.1,
  )

  pub within-Below : (lo hi : ℕ) (ms : List (Message C)) → Below hi (within lo hi ms)
  within-Below lo hi [] = tt
  within-Below lo hi (m ∷ ms) = ground (arith, within-Below lo hi ms)

  pub within-within :
      (lo hi' hi : ℕ) (ms : List (Message C))
      → hi' ≤ hi
      → within lo hi' ms ≡ keep (λ m. ltb m.id hi') (within lo hi ms)
  within-within lo hi' hi [] h = refl
  within-within lo hi' hi (m ∷ ms) h = ground (arith, within-within lo hi' hi ms h)

  pub within_empty : (lo hi : ℕ) (ms : List (Message C)) → hi ≤ lo + 1 → within lo hi ms ≡ []
  within_empty lo hi [] h = refl
  within_empty lo hi (m ∷ ms) h = ground (arith, within_empty lo hi ms h)

  pub within_none : (lo hi : ℕ) (ms : List (Message C)) → Below (lo + 1) ms → within lo hi ms ≡ []
  within_none lo hi [] b = refl
  within_none lo hi (m ∷ ms) b = ground (arith, within_none lo hi ms b.1)

  -- A range falls into its upper part and its lower part.
  pub within-split :
      (a b c : ℕ) (ms : List (Message C))
      → Descending ms
      → a ≤ b
      → b ≤ c
      → within a (c + 1) ms ≡ within b (c + 1) ms ++ within a (b + 1) ms
  within-split a b c [] d h k = refl
  within-split a b c (m ∷ ms) d h k =
      let ih = within-split a b c ms d.1 h k in
      elim (Bool-cases (ltb b m.id)) [
        | inl above ↦ ground (arith, ih)
        | inr e ↦
            let le = ltb→le b m.id e in
            let below : Below (b + 1) ms = All-imp ms (λ x (lt : x.id < m.id). omega arith) d.0 in
            ground (arith, ih, within_none b (c + 1) ms below)
      ]

  pub last_id-take-le :
      (n last : ℕ) (ms : List (Message C))
      → Below last ms
      → Descending ms
      → last_id last (take n ms) ≤ last
  last_id-take-le zero last ms b d = omega arith
  last_id-take-le (suc n) last [] b d = omega arith
  last_id-take-le (suc n) last (m ∷ ms) b d = omega (arith, last_id-take-le n m.id ms d.0 d.1)

  pub last_id-take-lt :
      (n last : ℕ) (ms : List (Message C)) (k : Message C) (ks : List (Message C))
      → Below last ms
      → Descending ms
      → k ∷ ks ≡ take (suc n) ms
      → last_id last (take (suc n) ms) < last
  last_id-take-lt n last [] k ks b d e = cc
  last_id-take-lt n last (m ∷ ms) k ks b d e = omega (arith, last_id-take-le n m.id ms d.0 d.1)

  -- What lies below the last message of a page is what the page left over.
  pub keep-Below_last :
      (n last : ℕ) (ms : List (Message C))
      → Below last ms
      → Descending ms
      → keep (λ m. ltb m.id (last_id last (take n ms))) ms ≡ drop n ms
  keep-Below_last zero last [] b d = refl
  keep-Below_last zero last (m ∷ ms) b d = ground (arith, keep-Below_last zero last ms b.1 d.1)
  keep-Below_last (suc n) last [] b d = refl
  keep-Below_last (suc n) last (m ∷ ms) b d =
      ground (arith, keep-Below_last n m.id ms d.0 d.1, last_id-take-le n m.id ms d.0 d.1)
