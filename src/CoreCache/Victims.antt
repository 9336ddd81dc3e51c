-- ===== src/CoreCache/Victims.antt =====
-- Deleting entries of a dictionary: what is left, and how much.
use mathlib.Core.List.{Permᴰ}
use tobs.Prelude.{
  ℕ, zero, suc, ◌+◌, ◌≡◌, refl, ◌∙◌, none, some, List, [], ◌∷◌, length, take, arith, All, All-imp,
}
use tobs.Dict.{lookup, delete}
use tobs.Dict.Laws.{Distinct, Distinct-delete, lookup-delete, length-delete}
use tobs.Dict.Perm.{perm_lookup}

module _ {K V : Type 0} (dec : Discrete K) where
  -- The second dictionary has entries of the first only.
  pub record Shrinks (d d' : List (K × V)) : Type 0 where
    pub distinct : Distinct dec d'
    pub found : (k : K) (v : V) → lookup dec k d' ≡ some v → lookup dec k d ≡ some v

  pub same-Shrinks : (d : List (K × V)) → Distinct dec d → Shrinks d d
  same-Shrinks d h = record { distinct = h; found = λ k v e. e }

  pub Shrinks-trans : (d d' d'' : List (K × V)) → Shrinks d d' → Shrinks d' d'' → Shrinks d d''
  Shrinks-trans d d' d'' p q = record {
    distinct = q.distinct;
    found = λ k v e. p.found k v (q.found k v e);
  }

  pub delete-Shrinks : (j : K) (d : List (K × V)) → Distinct dec d → Shrinks d (delete dec j d)
  delete-Shrinks j d h = record {
    distinct = Distinct-delete dec j d h;
    found = λ k v e. ground (arith, lookup-delete dec k j d h);
  }

  pub tail-Shrinks : (e : K × V) (d : List (K × V)) → Distinct dec (e ∷ d) → Shrinks (e ∷ d) d
  unfolding lookup
  tail-Shrinks e d h = record { distinct = h.1; found = λ k v f. ground (arith, h.0) }

  unfoldable pub delete_all : List (K × V) → List (K × V) → List (K × V)
  unfolding delete
  delete_all [] d = d
  delete_all (v ∷ victims) d = delete_all victims (delete dec v.0 d)

  abbrev Holds : List (K × V) → K × V → Type 0
  Holds d e = lookup dec e.0 d ≡ some e.1

  Holds-cons :
      (v : K × V) (d victims : List (K × V))
      → lookup dec v.0 victims ≡ none
      → All (Holds d) victims
      → Distinct dec d
      → All (Holds (delete dec v.0 d)) victims
  unfolding lookup
  Holds-cons v d [] h k distinct = tt
  Holds-cons v d (w ∷ victims) h k distinct =
      ground (arith, lookup-delete dec w.0 v.0 d distinct, Holds-cons v d victims)

  pub length-delete_all :
      (victims d : List (K × V))
      → Distinct dec victims
      → Distinct dec d
      → All (Holds d) victims
      → length (delete_all victims d) + length victims ≡ length d
  unfolding delete_all
  length-delete_all [] d h distinct k = omega arith
  length-delete_all (v ∷ victims) d h distinct k = omega (
    arith,
    length-delete dec v.0 d v.1 k.0,
    length-delete_all victims (delete dec v.0 d) h.1 (Distinct-delete dec v.0 d distinct)
        (Holds-cons v d victims h.0 k.1 distinct),
  )

  lookup-take :
      (k : K) (n : ℕ) (d : List (K × V)) → lookup dec k d ≡ none → lookup dec k (take n d) ≡ none
  unfolding lookup
  lookup-take k zero d h = refl
  lookup-take k (suc n) [] h = refl
  lookup-take k (suc n) (e ∷ d) h = ground (arith, lookup-take k n d)

  pub Distinct-take : (n : ℕ) (d : List (K × V)) → Distinct dec d → Distinct dec (take n d)
  Distinct-take zero d h = tt
  Distinct-take (suc n) [] h = tt
  Distinct-take (suc n) (e ∷ d) h = (lookup-take e.0 n d h.0, Distinct-take n d h.1)

  Holds-later :
      (e : K × V) (d items : List (K × V))
      → lookup dec e.0 d ≡ none
      → All (Holds d) items
      → All (Holds (e ∷ d)) items
  unfolding lookup
  Holds-later e d [] h k = tt
  Holds-later e d (w ∷ items) h k = ground (arith, Holds-later e d items)

  -- A dictionary finds its own entries.
  Holds-self : (d : List (K × V)) → Distinct dec d → All (Holds d) d
  unfolding lookup
  Holds-self [] h = tt
  Holds-self (e ∷ d) h = ground (arith, Holds-later e d d h.0 (Holds-self d h.1))

  Holds-take : (n : ℕ) (d items : List (K × V)) → All (Holds d) items → All (Holds d) (take n items)
  Holds-take zero d items h = tt
  Holds-take (suc n) d [] h = tt
  Holds-take (suc n) d (e ∷ items) h = (h.0, Holds-take n d items h.1)

  -- The first entries of a rearrangement, deleted, leave the dictionary shorter by their number.
  pub length-delete_first :
      (n : ℕ) {items d : List (K × V)}
      → Permᴰ d items
      → Distinct dec d
      → length (delete_all (take n items) d) + length (take n items) ≡ length d
  length-delete_first n {items = items} {d = d} p h =
      let (agree, distinct) = perm_lookup dec p h in
      let held = All-imp items (λ e k. agree e.0 ∙ k) (Holds-self items distinct) in
      length-delete_all (take n items) d (Distinct-take n items distinct) h
        (Holds-take n d items held)

  pub delete_all-Shrinks :
      (victims d : List (K × V)) → Distinct dec d → Shrinks d (delete_all victims d)
  unfolding delete_all
  delete_all-Shrinks [] d h = same-Shrinks d h
  delete_all-Shrinks (v ∷ victims) d h =
      let first = delete-Shrinks v.0 d h in
      Shrinks-trans d (delete dec v.0 d) (delete_all victims (delete dec v.0 d)) first
        (delete_all-Shrinks victims (delete dec v.0 d) first.distinct)
