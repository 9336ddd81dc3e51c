-- ===== src/Prelude/Perms.antt =====
-- Rearranged lists.
use mathlib.Core.List.{List, ◌++◌, append_assoc, Permᴰ}
use mathlib.Core.List.Permᴰ
use mathlib.Core.Path.{subst}
use tobs.Prelude.Lists.{All}

module _ {ℓ} {A : Type ℓ} where
  pub All-perm {κ} : (P : A → Type κ) {xs ys : List A} → Permᴰ xs ys → All P xs → All P ys
  All-perm P Permᴰ.nil h = h
  All-perm P (Permᴰ.cons e p) h = (subst P e h.0, All-perm P p h.1)
  All-perm P (Permᴰ.swap e e') h = (subst P e' h.1.0, (subst P e h.0, h.1.1))
  All-perm P (Permᴰ.trans p q) h = All-perm P q (All-perm P p h)

  pub perm_inner :
      (x y : List A) {m m' : List A} → Permᴰ m m' → Permᴰ (x ++ (m ++ y)) (x ++ (m' ++ y))
  perm_inner x y p = Permᴰ.append_left x (Permᴰ.append_right y p)

  pub perm_to_front : (x m y : List A) → Permᴰ (x ++ (m ++ y)) (m ++ (x ++ y))
  perm_to_front x m y =
      subst (λ l. Permᴰ l (m ++ (x ++ y))) (append_assoc x m y)
        (subst (Permᴰ ((x ++ m) ++ y)) (append_assoc m x y)
          (Permᴰ.append_right y (Permᴰ.append_comm x m)))
