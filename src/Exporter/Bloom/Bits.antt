-- ===== src/Exporter/Bloom/Bits.antt =====
-- One bit of a number: setting it sets it and clears no other.
use Prim.Native.Nat.{bit_and, bit_or, digits, bitwise, bit_and-bitwise, bit_or-bitwise}
use tobs.Prelude.{
  ℕ, zero, suc, ◌+◌, ◌*◌, ◌/◌, ◌%◌, ◌^◌, ◌≤◌, min, max, ◌≡◌, refl, sym, ◌∙◌, ap, ◌⊎◌, inl, inr,
  arith,
}

-- Bit by bit, for an operation on bits and what it gives once the first number is 0
module _ (ended : ℕ → ℕ) (op : ℕ → ℕ → ℕ) where
  digits-enough : (m n a b : ℕ) → a ≤ m → a ≤ n → digits ended op m a b ≡ digits ended op n a b
  digits-enough m zero (suc a) b h k = absurd (omega arith)
  digits-enough zero n (suc a) b h k = absurd (omega arith)
  digits-enough zero zero zero b h k = refl
  digits-enough zero (suc n) zero b h k = refl
  digits-enough (suc m) zero zero b h k = refl
  digits-enough (suc m) (suc n) zero b h k = refl
  digits-enough (suc m) (suc n) (suc a) b h k =
      let rest = digits-enough m n (suc a / 2) (b / 2) (omega arith) (omega arith) in
      ap (λ d. d * 2 + op (suc a % 2) (b % 2)) rest

  bitwise-halves :
      (a b : ℕ)
      → ended b ≡ ended (b / 2) * 2 + op 0 (b % 2)
      → bitwise ended op a b ≡ bitwise ended op (a / 2) (b / 2) * 2 + op (a % 2) (b % 2)
  bitwise-halves zero b h = h
  bitwise-halves (suc a) b h =
      let rest = digits-enough a (suc a / 2) (suc a / 2) (b / 2) (omega arith) (omega arith) in
      ap (λ d. d * 2 + op (suc a % 2) (b % 2)) rest

bit_and-halves : (a b : ℕ) → bit_and a b ≡ bit_and (a / 2) (b / 2) * 2 + min (a % 2) (b % 2)
bit_and-halves a b =
    bit_and-bitwise a b
    ∙ bitwise-halves (λ c. 0) min a b (omega arith)
    ∙ ap (λ d. d * 2 + min (a % 2) (b % 2)) (sym (bit_and-bitwise (a / 2) (b / 2)))

bit_or-halves : (a b : ℕ) → bit_or a b ≡ bit_or (a / 2) (b / 2) * 2 + max (a % 2) (b % 2)
bit_or-halves a b =
    bit_or-bitwise a b
    ∙ bitwise-halves (λ c. c) max a b (omega arith)
    ∙ ap (λ d. d * 2 + max (a % 2) (b % 2)) (sym (bit_or-bitwise (a / 2) (b / 2)))

zero_below : (n a : ℕ) → a ≤ n → bit_and a 0 ≡ 0
zero_below n zero h = bit_and-bitwise 0 0
zero_below zero (suc a) h = absurd (omega arith)
zero_below (suc n) (suc a) h =
    omega (arith, bit_and-halves (suc a) 0, zero_below n (suc a / 2) (omega arith))

-- The halves of a mask
mask_half : (o : ℕ) → 2 ^ (suc o) / 2 ≡ 2 ^ o
mask_half o = omega arith

-- The bit o of a number, from the lowest on
abbrev pub bit : ℕ → ℕ → ℕ
bit zero a = a % 2
bit (suc o) a = bit o (a / 2)

bit_or_half : (a b : ℕ) → bit_or a b / 2 ≡ bit_or (a / 2) (b / 2)
bit_or_half a b = omega (arith, bit_or-halves a b)

bit-bit_or_old : (o a b : ℕ) → bit o a ≡ 1 → bit o (bit_or a b) ≡ 1
bit-bit_or_old zero a b h = omega (arith, bit_or-halves a b)
bit-bit_or_old (suc o) a b h = ap (bit o) (bit_or_half a b) ∙ bit-bit_or_old o (a / 2) (b / 2) h

bit-bit_or_new : (o a b : ℕ) → bit o b ≡ 1 → bit o (bit_or a b) ≡ 1
bit-bit_or_new zero a b h = omega (arith, bit_or-halves a b)
bit-bit_or_new (suc o) a b h = ap (bit o) (bit_or_half a b) ∙ bit-bit_or_new o (a / 2) (b / 2) h

bit-mask : (o : ℕ) → bit o (2 ^ o) ≡ 1
bit-mask zero = omega arith
bit-mask (suc o) = ap (bit o) (mask_half o) ∙ bit-mask o

bit_and-mask_positive : (o a : ℕ) → bit o a ≡ 1 → 1 ≤ bit_and a (2 ^ o)
bit_and-mask_positive zero a h = omega (arith, bit_and-halves a 1)
bit_and-mask_positive (suc o) a h = omega (
  arith,
  bit_and-halves a (2 ^ suc o),
  ap (bit_and (a / 2)) (mask_half o),
  bit_and-mask_positive o (a / 2) h,
)

-- The test of a bit that has been set
pub bit_and-bit_or_new : (o a : ℕ) → 1 ≤ bit_and (bit_or a (2 ^ o)) (2 ^ o)
bit_and-bit_or_new o a =
    bit_and-mask_positive o (bit_or a (2 ^ o)) (bit-bit_or_new o a (2 ^ o) (bit-mask o))

bit_bound : (o a : ℕ) → bit o a ≤ 1
bit_bound zero a = omega arith
bit_bound (suc o) a = bit_bound o (a / 2)

mask-bit : (o a : ℕ) → bit o a ≡ 0 → bit_and a (2 ^ o) ≡ 0
mask-bit zero a h = omega (arith, bit_and-halves a 1, zero_below (a / 2) (a / 2) (omega arith))
mask-bit (suc o) a h =
    omega (
      arith,
      bit_and-halves a (2 ^ suc o),
      ap (bit_and (a / 2)) (mask_half o),
      mask-bit o (a / 2) h,
    )

-- The test of a bit that was set before another is set
pub bit_and-bit_or_old : (o a b : ℕ) → 1 ≤ bit_and a (2 ^ o) → 1 ≤ bit_and (bit_or a b) (2 ^ o)
bit_and-bit_or_old o a b h = elim (zero_or_one (bit o a) (bit_bound o a)) [
  | inl e ↦ absurd (omega (arith, mask-bit o a e))
  | inr e ↦ bit_and-mask_positive o (bit_or a b) (bit-bit_or_old o a b e)
]
  where
    zero_or_one : (n : ℕ) → n ≤ 1 → (n ≡ 0) ⊎ (n ≡ 1)
    zero_or_one n h = omega arith
