-- ===== src/Exporter/Bloom.antt =====
-- `BloomFilter` of src/export/exporter.py. A bytearray is a list of numbers; `none` is the IndexError of an
-- access out of its range. The sizes are given; `bucket` is `hash((item, seed)) % size`.
pub mod Bits
pub mod Members
mod Tests
use Prim.Native.Nat.{bit_and, bit_or}
use tobs.Prelude.{
  ℕ, zero, suc, ◌+◌, ◌/◌, ◌%◌, ◌^◌, Option, none, some, Bool, true, false, not, List, [], ◌∷◌, ◌++◌,
  ◌==◌, if◌then◌else◌,
}

pub record BloomFilter : Type 0 where
  pub size : ℕ
  pub hash_count : ℕ
  pub bit_array : List ℕ
  pub items_added : ℕ

pub record BloomDict (T : Type 0) : Type 0 where
  pub size : ℕ
  pub hash_count : ℕ
  pub items_added : ℕ
  pub bit_array_b64 : T

abbrev pub zeros : ℕ → List ℕ
zeros zero = []
zeros (suc n) = 0 ∷ zeros n

abbrev pub range_from : ℕ → ℕ → List ℕ
range_from i zero = []
range_from i (suc n) = i ∷ range_from (i + 1) n

-- `range(n)`
abbrev pub range : ℕ → List ℕ
range n = range_from 0 n

-- `__init__`, for the sizes it computes
abbrev pub new_filter : ℕ → ℕ → BloomFilter
new_filter size hash_count = record {
  size = size;
  hash_count = hash_count;
  bit_array = zeros ((size + 7) / 8);
  items_added = 0;
}

unfoldable pub get_at : ℕ → List ℕ → Option ℕ
get_at n [] = none
get_at zero (byte ∷ bytes) = some byte
get_at (suc n) (byte ∷ bytes) = get_at n bytes

-- `bytes[n] |= mask`
unfoldable pub or_at : ℕ → ℕ → List ℕ → Option (List ℕ)
or_at n mask [] = none
or_at zero mask (byte ∷ bytes) = some (bit_or byte mask ∷ bytes)
or_at (suc n) mask (byte ∷ bytes) = elim (or_at n mask bytes) [
  | none ↦ none
  | some bytes' ↦ some (byte ∷ bytes')
]

abbrev pub set_bit : ℕ → List ℕ → Option (List ℕ)
set_bit bit_index bytes = or_at (bit_index / 8) (2 ^ (bit_index % 8)) bytes

abbrev pub test_bit : ℕ → List ℕ → Option Bool
test_bit bit_index bytes = elim (get_at (bit_index / 8) bytes) [
  | none ↦ none
  | some byte ↦ some (not (bit_and byte (2 ^ (bit_index % 8)) == 0))
]

module _ (bucket : ℕ → ℕ → ℕ → ℕ) where
  unfoldable pub add_seeds : ℕ → ℕ → List ℕ → List ℕ → Option (List ℕ)
  unfolding or_at
  add_seeds size item [] bytes = some bytes
  add_seeds size item (seed ∷ seeds) bytes = elim (set_bit (bucket item seed size) bytes) [
    | none ↦ none
    | some bytes' ↦ add_seeds size item seeds bytes'
  ]

  abbrev pub add : ℕ → BloomFilter → Option BloomFilter
  add item f = elim (add_seeds f.size item (range f.hash_count) f.bit_array) [
    | none ↦ none
    | some bytes ↦ some (record f { bit_array = bytes; items_added = f.items_added + 1 })
  ]

  unfoldable pub test_seeds : ℕ → ℕ → List ℕ → List ℕ → Option Bool
  unfolding get_at
  test_seeds size item [] bytes = some true
  test_seeds size item (seed ∷ seeds) bytes =
      let rest = test_seeds size item seeds bytes in
      elim (test_bit (bucket item seed size) bytes) [
        | none ↦ none
        | some found ↦ if found then rest else some false
      ]

  -- `item in f`
  abbrev pub contains : ℕ → BloomFilter → Option Bool
  contains item f = test_seeds f.size item (range f.hash_count) f.bit_array

  unfoldable pub add_all : List ℕ → BloomFilter → Option BloomFilter
  unfolding add_seeds
  add_all [] f = some f
  add_all (item ∷ items) f = elim (add item f) [ none ↦ none | some g ↦ add_all items g ]

-- `b64encode` and `b64decode` are parameters.
module _ {T : Type 0} (b64encode : List ℕ → T) (b64decode : T → List ℕ) where
  abbrev pub to_dict : BloomFilter → BloomDict T
  to_dict f = record {
    size = f.size;
    hash_count = f.hash_count;
    items_added = f.items_added;
    bit_array_b64 = b64encode f.bit_array;
  }

  abbrev pub from_dict : BloomDict T → BloomFilter
  from_dict data_dict = record {
    size = data_dict.size;
    hash_count = data_dict.hash_count;
    bit_array = b64decode data_dict.bit_array_b64;
    items_added = data_dict.items_added;
  }
