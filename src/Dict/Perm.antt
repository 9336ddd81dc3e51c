-- ===== src/Dict/Perm.antt =====
-- Dictionaries with distinct keys, up to the order of their entries.
use mathlib.Core.List.{Permᴰ}
use mathlib.Core.Logic.{if_neg}
use tobs.Prelude.{◌≡◌, ◌≢◌, refl, sym, ◌∙◌, subst, none, List, [], ◌∷◌, ◌++◌, arith}
use tobs.Dict.{lookup}
use tobs.Dict.Laws.{Distinct}

module _ {ℓ} {K V : Type ℓ} (dec : Discrete K) where
  lookup-swap :
      (j : K) (a b : K × V) (d : List (K × V))
      → Distinct dec (a ∷ b ∷ d)
      → lookup dec j (a ∷ b ∷ d) ≡ lookup dec j (b ∷ a ∷ d)
  unfolding lookup
  lookup-swap j a b d h = ground arith

  lookup-cons :
      (j : K) (a : K × V) (d e : List (K × V))
      → lookup dec j d ≡ lookup dec j e
      → lookup dec j (a ∷ d) ≡ lookup dec j (a ∷ e)
  unfolding lookup
  lookup-cons j a d e h = ground arith

  Distinct-swap :
      (a b : K × V) (d : List (K × V)) → Distinct dec (a ∷ b ∷ d) → Distinct dec (b ∷ a ∷ d)
  unfolding lookup
  Distinct-swap a b d h = ground arith

  -- Both at once, since each step of the one needs the other.
  pub perm_lookup :
      {xs ys : List (K × V)}
      → Permᴰ xs ys
      → Distinct dec xs
      → ((j : K) → lookup dec j xs ≡ lookup dec j ys) × Distinct dec ys
  perm_lookup Permᴰ.nil h = (λ j. refl, h)
  perm_lookup (Permᴰ.cons {a = a} {b = b} {l₁ = d} {l₂ = e} same p) h =
      let (agree, rest) = perm_lookup p h.1 in
      subst (λ x. ((j : K) → lookup dec j (a ∷ d) ≡ lookup dec j (x ∷ e)) × Distinct dec (x ∷ e))
        same (λ j. lookup-cons j a d e (agree j), (sym (agree a.0) ∙ h.0, rest))
  perm_lookup (Permᴰ.swap {a = a} {b = b} {b' = b'} {l = d} e e') h =
      subst
        (λ x.
          ((j : K) → lookup dec j (a ∷ b ∷ d) ≡ lookup dec j (x ∷ b' ∷ d))
          × Distinct dec (x ∷ b' ∷ d))
        e'
        (subst
          (λ x.
            ((j : K) → lookup dec j (a ∷ b ∷ d) ≡ lookup dec j (b ∷ x ∷ d))
            × Distinct dec (b ∷ x ∷ d))
          e (λ j. lookup-swap j a b d h, Distinct-swap a b d h))
  perm_lookup (Permᴰ.trans p q) h =
      let (agree, mid) = perm_lookup p h in
      let (agree', end) = perm_lookup q mid in (λ j. agree j ∙ agree' j, end)

  lookup-middle : (k : K) (v : V) (d e : List (K × V)) → lookup dec k (d ++ (k, v) ∷ e) ≢ none
  unfolding lookup
  lookup-middle k v [] e = ground arith
  lookup-middle k v ((i, w) ∷ d) e = ground (arith, lookup-middle k v d e)

  -- A key does not occur in front of itself.
  pub Distinct-middle :
      (k : K) (v : V) (d e : List (K × V)) → Distinct dec (d ++ (k, v) ∷ e) → lookup dec k d ≡ none
  unfolding lookup
  Distinct-middle k v [] e h = refl
  Distinct-middle k v ((i, w) ∷ d) e h = elim (dec i k) [
    | yes p ↦
        absurd (lookup-middle k v d e (subst (λ j. lookup dec j (d ++ (k, v) ∷ e) ≡ none) p h.0))
    | no p ↦ if_neg (dec i k) p _ _ ∙ Distinct-middle k v d e h.1
  ]
