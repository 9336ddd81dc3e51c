-- ===== src/Pipeline/Writing.antt =====
-- `_writer` of src/export/pipeline.py: items that arrive out of order wait in a buffer until the
-- expected sequence number is there.
pub mod Reorder
use tobs.Prelude.{
  ℕ, zero, suc, ◌+◌, max, Bool, Option, none, some, List, [], ◌∷◌, ◌++◌, length, if◌then◌else◌,
  ℕ_discrete,
}
use tobs.Dict.{lookup, delete, set_item}

-- `(processed_value, exc)`: a value, no value, or an exception.
pub data Item (V : Type 0) : Type 0 where
  value : V → Item V
  nothing : Item V
  failure : Item V

pub record Writer (V : Type 0) : Type 0 where
  pub expected_seq : ℕ
  pub buffer : List (ℕ × Item V)
  pub written : List V
  pub processed_count : ℕ
  pub max_buffered : ℕ

module _ {V : Type 0} where
  abbrev pub new_writer : Writer V
  new_writer = record {
    expected_seq = 1;
    buffer = [];
    written = [];
    processed_count = 0;
    max_buffered = 0;
  }

  module _ (accepts : V → Bool) where
    -- `await writer_fn(pv)`, whose exception is logged and passed over
    abbrev pub write_item : Item V → Writer V → Writer V
    write_item (value v) w =
        if accepts v
        then record w { written = w.written ++ v ∷ []; processed_count = w.processed_count + 1 }
        else w
    write_item nothing w = w
    write_item failure w = w

    -- One round of `while expected_seq in buffer`
    abbrev pub advance : Item V → Writer V → Writer V
    advance item w =
        let popped = record w { buffer = delete ℕ_discrete w.expected_seq w.buffer } in
        let out = write_item item popped in record out { expected_seq = suc w.expected_seq }

    unfoldable pub flush : ℕ → Writer V → Writer V
    unfolding lookup delete ℕ_discrete
    flush zero w = w
    flush (suc fuel) w = elim (lookup ℕ_discrete w.expected_seq w.buffer) [
      | none ↦ w
      | some item ↦ flush fuel (advance item w)
    ]

    -- The body of the writer's loop. Each round of the flush pops an item of the buffer.
    unfoldable pub receive : ℕ × Item V → Writer V → Writer V
    unfolding flush set_item
    receive (seq, item) w =
        let buffer = set_item ℕ_discrete seq item w.buffer in
        flush (length buffer)
          (record w { buffer = buffer; max_buffered = max w.max_buffered (length buffer) })
