-- ===== src/Exporter/Bloom/Tests.antt =====
-- A filter of 20 bits with two hashes, to which three numbers are added.
use tobs.Prelude.{ℕ, ◌+◌, ◌-◌, ◌*◌, min, ◌≡◌, refl, some, true, false, List, [], ◌∷◌, All, arith}
use tobs.Exporter.Bloom.{
  BloomFilter, new_filter, add_all, contains, to_dict, from_dict, add_seeds, test_seeds, get_at,
  or_at,
}
use tobs.Exporter.Bloom.Members.{InRange, add_all-contains}

abbrev bucket : ℕ → ℕ → ℕ → ℕ
bucket item seed size = min (item * 3 + seed) (size - 1)

bucket-InRange : InRange bucket
bucket-InRange item seed size h = omega arith

abbrev items : List ℕ
items = 1 ∷ 5 ∷ 70 ∷ []

abbrev code : List ℕ → List ℕ
code bytes = bytes

add_all-contains_example :
    (g : BloomFilter) × (add_all bucket items (new_filter 20 2) ≡ some g)
    × All
        (λ item.
          (contains bucket item g ≡ some true)
          × (contains bucket item (from_dict code code (to_dict code code g)) ≡ some true))
        items
    × (g.items_added ≡ 3)
add_all-contains_example =
    add_all-contains bucket bucket-InRange 20 (omega arith) code code 2 items (λ bytes. refl)

bytes-test :
    add_all bucket items (new_filter 20 2)
    ≡ some (record { size = 20; hash_count = 2; bit_array = 24 ∷ 128 ∷ 9 ∷ []; items_added = 3 })
unfolding add_all add_seeds or_at
bytes-test = refl

other-test :
    contains bucket 3
      (record { size = 20; hash_count = 2; bit_array = 24 ∷ 128 ∷ 9 ∷ []; items_added = 3 })
    ≡ some false
unfolding test_seeds get_at
other-test = refl
