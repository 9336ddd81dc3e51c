-- ===== src/Dict/Laws.antt =====
-- The laws of dictionaries.
use tobs.Prelude.{◌+◌, ◌≤◌, ◌≡◌, refl, none, some, List, [], ◌∷◌, ◌++◌, Bool, length, arith, keep}
use mathlib.Core.Logic.{ite}
use tobs.Dict.{lookup, delete, set_item, pop_first}

module _ {ℓ} {K V : Type ℓ} (dec : Discrete K) where
  -- No key occurs twice.
  abbrev pub Distinct : List (K × V) → Type ℓ
  Distinct [] = Unit
  Distinct ((k, v) ∷ d) = (lookup dec k d ≡ none) × Distinct d

  pub lookup-set_item :
      (j k : K) (v : V) (d : List (K × V))
      → lookup dec j (set_item dec k v d) ≡ ite (dec k j) (some v) (lookup dec j d)
  unfolding lookup set_item
  lookup-set_item j k v [] = refl
  lookup-set_item j k v ((i, w) ∷ d) = ground (arith, lookup-set_item j k v d)

  pub lookup-delete :
      (j k : K) (d : List (K × V))
      → Distinct d
      → lookup dec j (delete dec k d) ≡ ite (dec k j) none (lookup dec j d)
  unfolding lookup delete
  lookup-delete j k [] h = ground arith
  lookup-delete j k ((i, w) ∷ d) h = ground (arith, lookup-delete j k d h.1)

  pub lookup-append :
      (j : K) (d e : List (K × V)) → lookup dec j d ≡ none → lookup dec j (d ++ e) ≡ lookup dec j e
  unfolding lookup
  lookup-append j [] e h = refl
  lookup-append j ((i, w) ∷ d) e h = ground (arith, lookup-append j d e)

  pub lookup-append_some :
      (j : K) (d e : List (K × V)) (v : V)
      → lookup dec j d ≡ some v
      → lookup dec j (d ++ e) ≡ some v
  unfolding lookup
  lookup-append_some j [] e v h = cc
  lookup-append_some j ((i, w) ∷ d) e v h = ground (arith, lookup-append_some j d e v)

  pub lookup-snoc :
      (j k : K) (v : V) (d : List (K × V))
      → lookup dec j (d ++ (k, v) ∷ [])
        ≡ elim (lookup dec j d) [ some w ↦ some w | none ↦ ite (dec k j) (some v) none ]
  unfolding lookup
  lookup-snoc j k v [] = refl
  lookup-snoc j k v ((i, w) ∷ d) = ground (arith, lookup-snoc j k v d)

  pub lookup_of_empty : (j : K) (d : List (K × V)) → length d ≤ 0 → lookup dec j d ≡ none
  unfolding lookup
  lookup_of_empty j [] h = refl
  lookup_of_empty j (e ∷ d) h = absurd (omega arith)

  pub Distinct-set_item :
      (k : K) (v : V) (d : List (K × V)) → Distinct d → Distinct (set_item dec k v d)
  unfolding lookup set_item
  Distinct-set_item k v [] h = (refl, tt)
  Distinct-set_item k v ((i, w) ∷ d) h =
      ground (arith, Distinct-set_item k v d h.1, lookup-set_item i k v d)

  pub Distinct-delete : (k : K) (d : List (K × V)) → Distinct d → Distinct (delete dec k d)
  unfolding lookup delete
  Distinct-delete k [] h = tt
  Distinct-delete k ((i, w) ∷ d) h =
      ground (arith, Distinct-delete k d h.1, lookup-delete i k d h.1)

  pub Distinct-snoc :
      (k : K) (v : V) (d : List (K × V))
      → lookup dec k d ≡ none
      → Distinct d
      → Distinct (d ++ (k, v) ∷ [])
  unfolding lookup
  Distinct-snoc k v [] e h = (refl, tt)
  Distinct-snoc k v ((i, w) ∷ d) e h =
      ground (arith, Distinct-snoc k v d, lookup-append i d ((k, v) ∷ []) h.0)

  pub length-delete :
      (k : K) (d : List (K × V)) (v : V)
      → lookup dec k d ≡ some v
      → length (delete dec k d) + 1 ≡ length d
  unfolding lookup delete
  length-delete k [] v h = cc
  length-delete k ((i, w) ∷ d) v h = ground (arith, length-delete k d v)

  pub length-delete-le : (k : K) (d : List (K × V)) → length (delete dec k d) ≤ length d
  unfolding delete
  length-delete-le k [] = omega arith
  length-delete-le k ((i, w) ∷ d) = ground (arith, length-delete-le k d)

  pub delete_absent : (k : K) (d : List (K × V)) → lookup dec k d ≡ none → delete dec k d ≡ d
  unfolding lookup delete
  delete_absent k [] h = refl
  delete_absent k ((i, w) ∷ d) h = ground (arith, delete_absent k d)

  pub set_item_absent :
      (k : K) (v : V) (d : List (K × V))
      → lookup dec k d ≡ none
      → set_item dec k v d ≡ d ++ (k, v) ∷ []
  unfolding lookup set_item
  set_item_absent k v [] h = refl
  set_item_absent k v ((i, w) ∷ d) h = ground (arith, set_item_absent k v d)

  pub length-set_item-le :
      (k : K) (v : V) (d : List (K × V)) → length (set_item dec k v d) ≤ length d + 1
  unfolding set_item
  length-set_item-le k v [] = omega arith
  length-set_item-le k v ((i, w) ∷ d) = ground (arith, length-set_item-le k v d)

  pub Distinct-pop_first : (d : List (K × V)) → Distinct d → Distinct (pop_first d)
  unfolding pop_first
  Distinct-pop_first [] h = tt
  Distinct-pop_first (e ∷ d) h = h.1

  lookup-keep-none :
      (j : K) (p : K × V → Bool) (d : List (K × V))
      → lookup dec j d ≡ none
      → lookup dec j (keep p d) ≡ none
  unfolding lookup
  lookup-keep-none j p [] h = refl
  lookup-keep-none j p ((i, w) ∷ d) h = ground (arith, lookup-keep-none j p d)

  pub Distinct-keep : (p : K × V → Bool) (d : List (K × V)) → Distinct d → Distinct (keep p d)
  Distinct-keep p [] h = tt
  Distinct-keep p ((k, v) ∷ d) h = ground (arith, Distinct-keep p d h.1, lookup-keep-none k p d h.0)
