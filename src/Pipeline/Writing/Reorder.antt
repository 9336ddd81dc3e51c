-- ===== src/Pipeline/Writing/Reorder.antt =====
-- The writer's invariant: what it wrote is what the received items with smaller numbers emit, in
-- order of their numbers.
use mathlib.Core.List.{append-nil}
use tobs.Prelude.{
  ℕ, zero, suc, ◌≤◌, ◌<◌, ◌≡◌, ◌≢◌, refl, sym, ap, ◌∙◌, Bool, true, Option, none, some, is_some,
  List, [], ◌∷◌, ◌++◌, length, leb, if◌then◌else◌, ℕ_discrete, Option-cases, Bool-cases, subst, inl,
  inr, arith, length-append,
}
use tobs.Dict.{lookup, delete, set_item}
use tobs.Dict.Laws.{
  Distinct, lookup-set_item, lookup-delete, Distinct-set_item, Distinct-delete, length-delete,
  lookup-snoc, lookup_of_empty,
}
use tobs.Pipeline.Writing.{
  Item, value, nothing, failure, Writer, write_item, advance, flush, receive,
}

module _ {V : Type 0} (accepts : V → Bool) where
  -- What an item puts out.
  abbrev pub emit : Item V → List V
  emit (value v) = if accepts v then v ∷ [] else []
  emit nothing = []
  emit failure = []

  abbrev pub emit? : Option (Item V) → List V
  emit? none = []
  emit? (some item) = emit item

  -- What the items with numbers below n put out.
  unfoldable pub outputs : ℕ → List (ℕ × Item V) → List V
  outputs zero received = []
  outputs (suc n) received = outputs n received ++ emit? (lookup ℕ_discrete n received)

  pub record Inv (received : List (ℕ × Item V)) (w : Writer V) : Type 0 where
    pub positive : 1 ≤ w.expected_seq
    pub distinct : Distinct ℕ_discrete w.buffer
    pub holds :
        (s : ℕ)
        → lookup ℕ_discrete s w.buffer
          ≡ (if leb w.expected_seq s then lookup ℕ_discrete s received else none)
    pub past : (s : ℕ) → 1 ≤ s → s < w.expected_seq → is_some (lookup ℕ_discrete s received) ≡ true
    pub output : w.written ≡ outputs w.expected_seq received
    pub counted : w.processed_count ≡ length w.written

  record Writes (item : Item V) (w w' : Writer V) : Type 0 where
    buffer : w'.buffer ≡ w.buffer
    written : w'.written ≡ w.written ++ emit item
    counted : w.processed_count ≡ length w.written → w'.processed_count ≡ length w'.written

  write_item-Writes : (item : Item V) (w : Writer V) → Writes item w (write_item accepts item w)
  write_item-Writes (value v) w = elim (Bool-cases (accepts v)) [
    | inl e ↦ rw e (record {
      buffer = refl;
      written = rw e refl;
      counted = λ h. omega (arith, length-append w.written (v ∷ []));
    })
    | inr e ↦ rw e (record { buffer = refl; written = rw (e, append-nil) refl; counted = λ h. h })
  ]
  write_item-Writes nothing w = record {
    buffer = refl;
    written = sym (append-nil w.written);
    counted = λ h. h;
  }
  write_item-Writes failure w = record {
    buffer = refl;
    written = sym (append-nil w.written);
    counted = λ h. h;
  }

  advance_buffer :
      (item : Item V) (w : Writer V)
      → (advance accepts item w).buffer ≡ delete ℕ_discrete w.expected_seq w.buffer
  advance_buffer item w =
      (write_item-Writes item
        (record w { buffer = delete ℕ_discrete w.expected_seq w.buffer })).buffer

  received_of_buffered :
      (received : List (ℕ × Item V)) (w : Writer V) (item : Item V)
      → lookup ℕ_discrete w.expected_seq w.buffer ≡ some item
      → Inv received w
      → lookup ℕ_discrete w.expected_seq received ≡ some item
  received_of_buffered received w item found inv = ground (arith, inv.holds w.expected_seq)

  advance-Inv :
      (received : List (ℕ × Item V)) (w : Writer V) (item : Item V)
      → lookup ℕ_discrete w.expected_seq w.buffer ≡ some item
      → Inv received w
      → Inv received (advance accepts item w)
  unfolding outputs
  advance-Inv received w item found inv =
      let rest = delete ℕ_discrete w.expected_seq w.buffer in
      let writes = write_item-Writes item (record w { buffer = rest }) in
      let arrived = received_of_buffered received w item found inv in
      record {
        positive = omega arith;
        distinct =
            subst (Distinct ℕ_discrete) (sym writes.buffer)
              (Distinct-delete ℕ_discrete w.expected_seq w.buffer inv.distinct);
        holds = λ s.
            ap (lookup ℕ_discrete s) writes.buffer
            ∙ lookup-delete ℕ_discrete s w.expected_seq w.buffer inv.distinct
            ∙ ground (arith, inv.holds s);
        past = λ s p q. ground (arith, inv.past s p, arrived);
        output = rw (writes.written, inv.output, arrived) refl;
        counted = writes.counted inv.counted;
      }

  -- Where the fuel covers the buffer, the flush ends with the expected item missing.
  flush-Inv :
      (fuel : ℕ) (received : List (ℕ × Item V)) (w : Writer V)
      → length w.buffer ≤ fuel
      → Inv received w
      → Inv received (flush accepts fuel w)
        × (lookup ℕ_discrete (flush accepts fuel w).expected_seq (flush accepts fuel w).buffer
            ≡ none)
  unfolding flush
  flush-Inv zero received w h inv = (inv, lookup_of_empty ℕ_discrete w.expected_seq w.buffer h)
  flush-Inv (suc fuel) received w h inv =
      elim (Option-cases (lookup ℕ_discrete w.expected_seq w.buffer)) [
        | inl missing ↦ rw (missing, flush) (inv, missing)
        | inr (item, found) ↦
            rw (found, flush)
              (flush-Inv fuel received (advance accepts item w)
                (omega (
                  arith,
                  ap length (advance_buffer item w),
                  length-delete ℕ_discrete w.expected_seq w.buffer item found,
                ))
                (advance-Inv received w item found inv))
      ]

  outputs-snoc :
      (n seq : ℕ) (item : Item V) (received : List (ℕ × Item V))
      → n ≤ seq
      → outputs n (received ++ (seq, item) ∷ []) ≡ outputs n received
  unfolding outputs
  outputs-snoc zero seq item received h = refl
  outputs-snoc (suc n) seq item received h =
      let ih = outputs-snoc n seq item received (omega arith) in
      let other : seq ≢ n = λ e. omega arith in
      let same : lookup ℕ_discrete n (received ++ (seq, item) ∷ []) ≡ lookup ℕ_discrete n received =
        ground (arith, lookup-snoc ℕ_discrete n seq item received) in
      rw (ih, same) refl

  -- The item is stored, and the flush follows.
  store-Inv :
      (received : List (ℕ × Item V)) (w : Writer V) (seq m : ℕ) (item : Item V)
      → 1 ≤ seq
      → lookup ℕ_discrete seq received ≡ none
      → Inv received w
      → Inv
          (received ++ (seq, item) ∷ [])
          (record w { buffer = set_item ℕ_discrete seq item w.buffer; max_buffered = m })
  store-Inv received w seq m item positive fresh inv =
      let late : w.expected_seq ≤ seq = ground (arith, inv.past seq positive) in
      record {
        positive = inv.positive;
        distinct = Distinct-set_item ℕ_discrete seq item w.buffer inv.distinct;
        holds = λ s. ground (
          arith,
          inv.holds s,
          lookup-set_item ℕ_discrete s seq item w.buffer,
          lookup-snoc ℕ_discrete s seq item received,
        );
        past = λ s p q. ground (arith, inv.past s p q, lookup-snoc ℕ_discrete s seq item received);
        output = inv.output ∙ sym (outputs-snoc w.expected_seq seq item received late);
        counted = inv.counted;
      }

  abbrev pub Ready : Writer V → Type 0
  Ready w = lookup ℕ_discrete w.expected_seq w.buffer ≡ none

  pub receive-Inv :
      (received : List (ℕ × Item V)) (w : Writer V) (seq : ℕ) (item : Item V)
      → 1 ≤ seq
      → lookup ℕ_discrete seq received ≡ none
      → Inv received w
      → Inv (received ++ (seq, item) ∷ []) (receive accepts (seq, item) w)
        × Ready (receive accepts (seq, item) w)
  unfolding receive
  receive-Inv received w seq item positive fresh inv =
      flush-Inv _ (received ++ (seq, item) ∷ []) _ (omega arith)
        (store-Inv received w seq _ item positive fresh inv)
