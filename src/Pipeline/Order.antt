-- ===== src/Pipeline/Order.antt =====
-- The pipeline writes what the messages give, in the order in which they were fetched.
use mathlib.Core.List.{append_assoc, append-nil, Permᴰ}
use mathlib.Core.List.Permᴰ
use mathlib.Core.Logic.{if_pos}
use tobs.Prelude.{
  ℕ, suc, ◌+◌, ◌≤◌, ◌<◌, ◌≡◌, refl, sym, ◌∙◌, ap, Bool, true, none, some, is_some, List, [], ◌∷◌,
  ◌++◌, length, ℕ_discrete, All, arith,
}
use tobs.Dict.{lookup}
use tobs.Dict.Laws.{Distinct}
use tobs.Dict.Perm.{perm_lookup}
use tobs.Pipeline.Writing.{Item, Writer}
use tobs.Pipeline.Writing.Reorder.{emit, outputs, Inv, Ready}

module _ {V : Type 0} where
  -- Items with the numbers k, k + 1, …
  abbrev pub numbered : ℕ → List (Item V) → List (ℕ × Item V)
  numbered k [] = []
  numbered k (item ∷ items) = (k, item) ∷ numbered (suc k) items

  numbered_late :
      (j k : ℕ) (items : List (Item V)) → j < k → lookup ℕ_discrete j (numbered k items) ≡ none
  unfolding lookup
  numbered_late j k [] h = refl
  numbered_late j k (item ∷ items) h = ground (arith, numbered_late j (suc k) items)

  pub numbered-Distinct : (k : ℕ) (items : List (Item V)) → Distinct ℕ_discrete (numbered k items)
  numbered-Distinct k [] = tt
  numbered-Distinct k (item ∷ items) =
      (numbered_late k (suc k) items (omega arith), numbered-Distinct (suc k) items)

  pub numbered_positive :
      (k : ℕ) (items : List (Item V)) → 1 ≤ k → All (λ e. 1 ≤ e.0) (numbered k items)
  numbered_positive k [] h = tt
  numbered_positive k (item ∷ items) h = (h, numbered_positive (suc k) items (omega arith))

  numbered_over :
      (j k : ℕ) (items : List (Item V))
      → k + length items ≤ j
      → lookup ℕ_discrete j (numbered k items) ≡ none
  unfolding lookup
  numbered_over j k [] h = refl
  numbered_over j k (item ∷ items) h = ground (arith, numbered_over j (suc k) items)

  numbered_there :
      (j k : ℕ) (items : List (Item V))
      → k ≤ j
      → j < k + length items
      → is_some (lookup ℕ_discrete j (numbered k items)) ≡ true
  unfolding lookup
  numbered_there j k [] h h' = absurd (omega arith)
  numbered_there j k (item ∷ items) h h' = ground (arith, numbered_there j (suc k) items)

  module _ (accepts : V → Bool) where
    -- What the items put out, in order: the values that the writer function takes.
    abbrev pub emits : List (Item V) → List V
    emits [] = []
    emits (item ∷ items) = emit accepts item ++ emits items

    outputs-numbered :
        (k : ℕ) (items : List (Item V)) (received : List (ℕ × Item V))
        → ((s : ℕ) → k ≤ s → lookup ℕ_discrete s received ≡ lookup ℕ_discrete s (numbered k items))
        → outputs accepts (length items + k) received ≡ outputs accepts k received ++ emits items
    unfolding outputs lookup
    outputs-numbered k [] received agree =
        let none_left : 0 + k ≡ k = omega arith in
        ap (λ n. outputs accepts n received) none_left
        ∙ sym (append-nil (outputs accepts k received))
    outputs-numbered k (item ∷ items) received agree =
        let head : lookup ℕ_discrete k received ≡ some item =
          agree k (omega arith) ∙ if_pos (ℕ_discrete k k) refl _ _ in
        let ih = outputs-numbered (suc k) items received (λ s h. ground (arith, agree s)) in
        let shift : suc (length items) + k ≡ length items + suc k = omega arith in
        ap (λ n. outputs accepts n received) shift
        ∙ ih
        ∙ rw head (append_assoc (outputs accepts k received) (emit accepts item) (emits items))

    outputs_first :
        (received : List (ℕ × Item V))
        → lookup ℕ_discrete 0 received ≡ none
        → outputs accepts 1 received ≡ []
    unfolding outputs
    outputs_first received h = rw h refl

    -- When every item has arrived, in whatever order, the writer has written all of them in order.
    pub written_all :
        (items : List (Item V)) (received : List (ℕ × Item V)) (w : Writer V)
        → Permᴰ received (numbered 1 items)
        → Inv accepts received w
        → Ready accepts w
        → (w.written ≡ emits items) × (w.processed_count ≡ length (emits items))
    written_all items received w perm inv ready =
        let (agree', _) = perm_lookup ℕ_discrete (Permᴰ.symm perm) (numbered-Distinct 1 items) in
        let agree = λ (j : ℕ). sym (agree' j) in
        let e = w.expected_seq in
        let missing : lookup ℕ_discrete e (numbered 1 items) ≡ none =
          agree' e ∙ ground (arith, inv.holds e) in
        let low : 1 + length items ≤ e = ground (arith, numbered_there e 1 items inv.positive) in
        let high : e ≤ 1 + length items = ground (
          arith,
          inv.past (1 + length items) (omega arith),
          numbered_over (1 + length items) 1 items (omega arith),
          agree (1 + length items),
        ) in
        let last : e ≡ length items + 1 = omega arith in
        let first : outputs accepts 1 received ≡ [] =
          outputs_first received (agree 0 ∙ numbered_late 0 1 items (omega arith)) in
        let whole : w.written ≡ emits items =
          inv.output
          ∙ ap (λ n. outputs accepts n received) last
          ∙ outputs-numbered 1 items received (λ j h. agree j)
          ∙ ap (λ l. l ++ emits items) first in
        (whole, inv.counted ∙ ap length whole)
