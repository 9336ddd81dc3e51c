-- ===== src/Dict.antt =====
-- Python's `dict` and `OrderedDict` as an association list in insertion order.
pub mod Laws
pub mod Perm
use tobs.Prelude.{Option, none, some, List, [], ◌∷◌, ◌++◌, Bool, true, false}
use mathlib.Core.Logic.{ite}

module _ {ℓ} {K V : Type ℓ} (dec : Discrete K) where
  -- `d.get(k)`; `k in d` holds where it is not `none`
  unfoldable pub lookup : K → List (K × V) → Option V
  lookup k [] = none
  lookup k ((j, v) ∷ d) = ite (dec j k) (some v) (lookup k d)

  -- `del d[k]`
  unfoldable pub delete : K → List (K × V) → List (K × V)
  delete k [] = []
  delete k ((j, v) ∷ d) = ite (dec j k) d ((j, v) ∷ delete k d)

  -- `d[k] = v`: in place for an old key, at the end for a new one
  unfoldable pub set_item : K → V → List (K × V) → List (K × V)
  set_item k v [] = (k, v) ∷ []
  set_item k v ((j, w) ∷ d) = ite (dec j k) ((j, v) ∷ d) ((j, w) ∷ set_item k v d)

  -- `d.move_to_end(k)`, for the value that `k` has
  unfoldable pub move_to_end : K → V → List (K × V) → List (K × V)
  unfolding delete
  move_to_end k v d = delete k d ++ (k, v) ∷ []

-- `d.popitem(last=False)`, without the item
unfoldable pub pop_first {ℓ} : {A : Type ℓ} → List A → List A
pop_first [] = []
pop_first (e ∷ d) = d
