-- ===== src/Upload/Mask/Bits.antt =====
-- The bits of one byte: every case is evaluated.
use tdrive.Base.{
  ℕ, ◌<◌, ◌^◌, ◌≡◌, refl, Bool, true, false, not, ◌&&◌, ◌||◌, arith, bit_and, bit_or, ltb, ltb→lt,
  ◌==◌,
}
use tdrive.Base.Sweep.{passes, passes_at}

-- Bit k of a byte.
abbrev pub test_bit : ℕ → ℕ → Bool
test_bit x k = not (bit_and x (2 ^ k) == 0)

abbrev bool_eq : Bool → Bool → Bool
bool_eq true b = b
bool_eq false b = not b

bool_eq_sound : (a b : Bool) → bool_eq a b ≡ true → a ≡ b
bool_eq_sound a b h = ground arith

and_split : (a b : Bool) → (a && b) ≡ true → (a ≡ true) × (b ≡ true)
and_split true true h = (refl, refl)
and_split true false h = cc
and_split false b h = cc

abbrev or_case : ℕ → ℕ → ℕ → Bool
or_case x k j =
    bool_eq (test_bit (bit_or x (2 ^ k)) j) (k == j || test_bit x j) && ltb (bit_or x (2 ^ k)) 256

or_row : ℕ → ℕ → Bool
unfolding passes
or_row x k = passes (or_case x k) 8

or_table : passes (λ x. passes (or_row x) 8) 256 ≡ true
unfolding passes or_row
or_table = refl

or_entry : (x k j : ℕ) → x < 256 → k < 8 → j < 8 → or_case x k j ≡ true
unfolding or_row
or_entry x k j hx hk hj =
    let square = passes_at (λ y. passes (or_row y) 8) 256 x hx or_table in
    passes_at (or_case x k) 8 j hj (passes_at (or_row x) 8 k hk square)

-- Setting bit k of a byte sets that bit and no other, and leaves a byte.
pub test_bit-bit_or :
    (x k j : ℕ)
    → x < 256
    → k < 8
    → j < 8
    → (test_bit (bit_or x (2 ^ k)) j ≡ (k == j || test_bit x j)) × (bit_or x (2 ^ k) < 256)
test_bit-bit_or x k j hx hk hj = split (or_entry x k j hx hk hj)
  where
    split :
        or_case x k j ≡ true
        → (test_bit (bit_or x (2 ^ k)) j ≡ (k == j || test_bit x j)) × (bit_or x (2 ^ k) < 256)
    split h = let (a, b) = and_split _ _ h in (bool_eq_sound _ _ a, ltb→lt _ _ b)

zero_row : passes (λ k. not (test_bit 0 k)) 8 ≡ true
unfolding passes
zero_row = refl

pub test_bit-zero : (k : ℕ) → k < 8 → test_bit 0 k ≡ false
test_bit-zero k h = none_set (test_bit 0 k) (passes_at (λ m. not (test_bit 0 m)) 8 k h zero_row)
  where
    none_set : (b : Bool) → not b ≡ true → b ≡ false
    none_set b e = ground arith
