-- ===== src/Exporter/Bloom/Members.antt =====
-- What was added to a filter is found in it.
use Prim.Native.Nat.{bit_and, bit_or}
use tobs.Prelude.{
  ℕ, zero, suc, ◌+◌, ◌*◌, ◌/◌, ◌%◌, ◌^◌, ◌≤◌, ◌<◌, ◌≡◌, refl, ◌∙◌, ap, none, some, true, not, List,
  [], ◌∷◌, length, All, All-imp, ◌==◌, arith,
}
use tobs.Exporter.Bloom.{
  BloomFilter, zeros, range, new_filter, get_at, or_at, test_bit, add_seeds, test_seeds, contains,
  add_all, to_dict, from_dict,
}
use tobs.Exporter.Bloom.Bits.{bit_and-bit_or_new, bit_and-bit_or_old}

-- The bit o of the n-th byte is set.
abbrev pub At : ℕ → ℕ → List ℕ → Type 0
At n o [] = ⊥
At zero o (byte ∷ bytes) = 1 ≤ bit_and byte (2 ^ o)
At (suc n) o (byte ∷ bytes) = At n o bytes

abbrev pub Marked : List ℕ → ℕ → Type 0
Marked bytes bit_index = At (bit_index / 8) (bit_index % 8) bytes

-- The bytes have grown by bits only.
record Grown (bytes bytes' : List ℕ) : Type 0 where
  pub same : length bytes' ≡ length bytes
  pub old : (n o : ℕ) → At n o bytes → At n o bytes'

or_at-Grown :
    (n o : ℕ) (bytes : List ℕ)
    → n < length bytes
    → (bytes' : List ℕ) × (or_at n (2 ^ o) bytes ≡ some bytes') × Grown bytes bytes' × At n o bytes'
unfolding or_at
or_at-Grown n o [] h = absurd (omega arith)
or_at-Grown zero o (byte ∷ bytes) h = (
  bit_or byte (2 ^ o) ∷ bytes,
  refl,
  record { same = refl; old = grows },
  bit_and-bit_or_new o byte,
)
  where
    grows : (m q : ℕ) → At m q (byte ∷ bytes) → At m q (bit_or byte (2 ^ o) ∷ bytes)
    grows zero q k = bit_and-bit_or_old q byte (2 ^ o) k
    grows (suc m) q k = k
or_at-Grown (suc n) o (byte ∷ bytes) h =
    let (bytes', done, grown, new) = or_at-Grown n o bytes (omega arith) in
    (
      byte ∷ bytes',
      rw done refl,
      record { same = ap suc grown.same; old = grows bytes' grown },
      new,
    )
  where
    grows :
        (bytes' : List ℕ)
        → Grown bytes bytes'
        → (m q : ℕ) → At m q (byte ∷ bytes)
        → At m q (byte ∷ bytes')
    grows bytes' grown zero q k = k
    grows bytes' grown (suc m) q k = grown.old m q k

test_bit-Marked : (i : ℕ) (bytes : List ℕ) → Marked bytes i → test_bit i bytes ≡ some true
unfolding get_at
test_bit-Marked i bytes h = go (i / 8) bytes h
  where
    go :
        (n : ℕ) (bs : List ℕ)
        → At n (i % 8) bs
        → (elim (get_at n bs) [
          | none ↦ none
          | some byte ↦ some (not (bit_and byte (2 ^ (i % 8)) == 0))
        ])
          ≡ some true
    go n [] k = absurd k
    go zero (b ∷ bs) k = ap some (ground arith)
    go (suc n) (b ∷ bs) k = go n bs k

module _ (bucket : ℕ → ℕ → ℕ → ℕ) where
  test_seeds-Marked :
      (size item : ℕ) (seeds bytes : List ℕ)
      → All (λ seed. Marked bytes (bucket item seed size)) seeds
      → test_seeds bucket size item seeds bytes ≡ some true
  unfolding test_seeds
  test_seeds-Marked size item [] bytes h = refl
  test_seeds-Marked size item (seed ∷ seeds) bytes h =
      rw (test_seeds, test_bit-Marked (bucket item seed size) bytes h.0)
        (test_seeds-Marked size item seeds bytes h.1)

  -- `% size` for a positive size
  abbrev pub InRange : Type 0
  InRange = (item seed size : ℕ) → 1 ≤ size → bucket item seed size < size

  module _ (in_range : InRange) (size : ℕ) (positive : 1 ≤ size) where
    add_seeds-Grown :
        (item : ℕ) (seeds bytes : List ℕ)
        → size ≤ length bytes * 8
        → (bytes' : List ℕ) × (add_seeds bucket size item seeds bytes ≡ some bytes')
          × Grown bytes bytes'
          × All (λ seed. Marked bytes' (bucket item seed size)) seeds
    unfolding add_seeds
    add_seeds-Grown item [] bytes h = (bytes, refl, record { same = refl; old = λ n o k. k }, tt)
    add_seeds-Grown item (seed ∷ seeds) bytes h =
        let i = bucket item seed size in
        let below : i < size = in_range item seed size positive in
        let (once, set, grown, marked) = or_at-Grown (i / 8) (i % 8) bytes (omega arith) in
        let (all, added, grown', others) =
          add_seeds-Grown item seeds once (omega (arith, grown.same)) in
        (
          all,
          rw (add_seeds, set) added,
          record {
            same = grown'.same ∙ grown.same;
            old = λ n o k. grown'.old n o (grown.old n o k);
          },
          (grown'.old (i / 8) (i % 8) marked, others),
        )

    -- The bytes hold all bits, and the items are marked.
    record Holds (items : List ℕ) (f g : BloomFilter) : Type 0 where
      pub sized : g.size ≡ size
      pub hashes : g.hash_count ≡ f.hash_count
      pub wide : size ≤ length g.bit_array * 8
      pub counted : g.items_added ≡ f.items_added + length items
      pub old : (n o : ℕ) → At n o f.bit_array → At n o g.bit_array
      pub found :
          All
            (λ item. All (λ seed. Marked g.bit_array (bucket item seed size)) (range f.hash_count))
            items

    add_all_step :
        (item : ℕ) (items : List ℕ) (f g : BloomFilter) (bytes : List ℕ)
        → f.size ≡ size
        → add_seeds bucket size item (range f.hash_count) f.bit_array ≡ some bytes
        → add_all bucket items (record f { bit_array = bytes; items_added = f.items_added + 1 })
          ≡ some g
        → add_all bucket (item ∷ items) f ≡ some g
    unfolding add_all
    add_all_step item items f g bytes sized set added =
        let here : add_seeds bucket f.size item (range f.hash_count) f.bit_array ≡ some bytes =
          ap (λ n. add_seeds bucket n item (range f.hash_count) f.bit_array) sized ∙ set in
        rw (add_all, here) added

    add_all-Holds :
        (items : List ℕ) (f : BloomFilter)
        → f.size ≡ size
        → size ≤ length f.bit_array * 8
        → (g : BloomFilter) × (add_all bucket items f ≡ some g) × Holds items f g
    unfolding add_all
    add_all-Holds [] f sized wide = (
      f,
      refl,
      record {
        sized = sized;
        hashes = refl;
        wide = wide;
        counted = omega arith;
        old = λ n o k. k;
        found = tt;
      },
    )
    add_all-Holds (item ∷ items) f sized wide =
        let (bytes, set, grown, marked) =
          add_seeds-Grown item (range f.hash_count) f.bit_array wide in
        let once : BloomFilter = record f { bit_array = bytes; items_added = f.items_added + 1 } in
        let (g, added, rest) = add_all-Holds items once sized (omega (arith, grown.same)) in
        (
          g,
          add_all_step item items f g bytes sized set added,
          record {
            sized = rest.sized;
            hashes = rest.hashes;
            wide = rest.wide;
            counted = omega (arith, rest.counted);
            old = λ n o k. rest.old n o (grown.old n o k);
            found = (
              All-imp (range f.hash_count)
                  (λ seed k. rest.old (bucket item seed size / 8) (bucket item seed size % 8) k)
                  marked,
              rest.found,
            );
          },
        )

    length-zeros : (n : ℕ) → length (zeros n) ≡ n
    length-zeros zero = refl
    length-zeros (suc n) = ap suc (length-zeros n)

    -- A filter of positive size has no false negatives: where the hash modulo the size is below the size,
    -- any items can be added to a new filter, no access to its bytes is out of range, each of the
    -- items is then found, also after the filter has been saved and loaded with a code that reads back
    -- what it wrote, and all are counted.
    pub add_all-contains :
        {T : Type 0} (b64encode : List ℕ → T) (b64decode : T → List ℕ) (hash_count : ℕ)
        (items : List ℕ)
        → ((bytes : List ℕ) → b64decode (b64encode bytes) ≡ bytes)
        → (g : BloomFilter) × (add_all bucket items (new_filter size hash_count) ≡ some g)
          × All
              (λ item.
                (contains bucket item g ≡ some true)
                × (contains bucket item
                      (from_dict b64encode b64decode (to_dict b64encode b64decode g))
                    ≡ some true))
              items
          × (g.items_added ≡ length items)
    add_all-contains b64encode b64decode hash_count items inverse =
        let (g, added, held) =
          add_all-Holds items (new_filter size hash_count) refl
            (omega (arith, length-zeros ((size + 7) / 8))) in
        let found : (item : ℕ)
            → All (λ seed. Marked g.bit_array (bucket item seed size)) (range hash_count)
            → contains bucket item g ≡ some true =
          λ item h.
            rw (held.sized, held.hashes)
              (test_seeds-Marked size item (range hash_count) g.bit_array h) in
        (
          g,
          added,
          All-imp items
              (λ item h. (
                found item h,
                ap (λ bytes. test_seeds bucket g.size item (range g.hash_count) bytes)
                      (inverse g.bit_array)
                    ∙ found item h,
              ))
              held.found,
          omega (arith, held.counted),
        )
