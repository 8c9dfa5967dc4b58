-- ===== src/Upload/Mask/Membership.antt =====
-- The bitset is the set of the indices that were set.
use tdrive.Base.{
  ℕ, zero, suc, ◌+◌, ◌-◌, ◌/◌, ◌%◌, ◌^◌, ◌≤◌, ◌<◌, ◌≡◌, ◌≢◌, ℕ_discrete, refl, sym, ◌∙◌, false,
  ◌||◌, List, [], ◌∷◌, ◌++◌, arith, bit_or, ltb, leb, leb→le, ◌==◌, ==_iff, if◌then◌else◌, length,
  length-append, All, Bool-cases, inl, inr,
}
use tdrive.Upload.Mask.{get_or, replicate, new_mask, mask_has, grow, or_at, mask_set}
use tdrive.Upload.Mask.Bits.{test_bit, test_bit-bit_or, test_bit-zero}

abbrev pub IsBytes : List ℕ → Type 0
IsBytes = All (λ x. x < 256)

get_or-snoc : (mask : List ℕ) (b : ℕ) → get_or (mask ++ 0 ∷ []) b 0 ≡ get_or mask b 0
get_or-snoc [] zero = refl
get_or-snoc [] (suc b) = refl
get_or-snoc (x ∷ xs) zero = refl
get_or-snoc (x ∷ xs) (suc b) = get_or-snoc xs b

get_or-grow : (rounds : ℕ) (mask : List ℕ) (b : ℕ) → get_or (grow rounds mask) b 0 ≡ get_or mask b 0
unfolding grow
get_or-grow zero mask b = refl
get_or-grow (suc rounds) mask b = get_or-grow rounds (mask ++ 0 ∷ []) b ∙ get_or-snoc mask b

length-grow : (rounds : ℕ) (mask : List ℕ) → length (grow rounds mask) ≡ length mask + rounds
unfolding grow
length-grow zero mask = omega arith
length-grow (suc rounds) mask =
    omega (arith, length-grow rounds (mask ++ 0 ∷ []), length-append mask (0 ∷ []))

snoc-IsBytes : (mask : List ℕ) → IsBytes mask → IsBytes (mask ++ 0 ∷ [])
snoc-IsBytes [] h = (omega arith, tt)
snoc-IsBytes (x ∷ xs) h = (h.0, snoc-IsBytes xs h.1)

grow-IsBytes : (rounds : ℕ) (mask : List ℕ) → IsBytes mask → IsBytes (grow rounds mask)
unfolding grow
grow-IsBytes zero mask h = h
grow-IsBytes (suc rounds) mask h = grow-IsBytes rounds (mask ++ 0 ∷ []) (snoc-IsBytes mask h)

get_or-lt : (mask : List ℕ) (b : ℕ) → IsBytes mask → get_or mask b 0 < 256
get_or-lt [] b h = omega arith
get_or-lt (x ∷ xs) zero h = h.0
get_or-lt (x ∷ xs) (suc b) h = get_or-lt xs b h.1

get_or-or_at :
    (mask : List ℕ) (b c bit : ℕ)
    → b < length mask
    → get_or (or_at mask b bit) c 0
      ≡ (if b == c then bit_or (get_or mask b 0) bit else get_or mask c 0)
unfolding or_at
get_or-or_at [] b c bit h = absurd (omega arith)
get_or-or_at (x ∷ xs) zero zero bit h = refl
get_or-or_at (x ∷ xs) zero (suc c) bit h = ground arith
get_or-or_at (x ∷ xs) (suc b) zero bit h = ground arith
get_or-or_at (x ∷ xs) (suc b) (suc c) bit h = ground (arith, get_or-or_at xs b c bit)

or_at-IsBytes : (mask : List ℕ) (b k : ℕ) → k < 8 → IsBytes mask → IsBytes (or_at mask b (2 ^ k))
unfolding or_at
or_at-IsBytes [] b k hk h = tt
or_at-IsBytes (x ∷ xs) zero k hk h = ((test_bit-bit_or x k 0 h.0 hk (omega arith)).1, h.1)
or_at-IsBytes (x ∷ xs) (suc b) k hk h = (h.0, or_at-IsBytes xs b k hk h.1)

past_end : (mask : List ℕ) (b : ℕ) → length mask ≤ b → get_or mask b 0 ≡ 0
past_end [] b h = refl
past_end (x ∷ xs) zero h = absurd (omega arith)
past_end (x ∷ xs) (suc b) h = past_end xs b (omega arith)

suc_sub_one : (n : ℕ) → suc n - 1 ≡ n
suc_sub_one n = omega arith

below_one : (n : ℕ) → ltb (suc n) 1 ≡ false
below_one n = ground arith

-- A test of index n + 1 reads bit n % 8 of byte n / 8.
mask_has-suc :
    (mask : List ℕ) (n : ℕ) → mask_has mask (suc n) ≡ test_bit (get_or mask (n / 8) 0) (n % 8)
unfolding mask_has
mask_has-suc mask n = elim (Bool-cases (leb (length mask) (n / 8))) [
  | inl e ↦
      rw
        (
          suc_sub_one n,
          below_one n,
          e,
          past_end mask (n / 8) (leb→le _ _ e),
          test_bit-zero (n % 8) (omega arith),
        )
        refl
  | inr e ↦ rw (suc_sub_one n, below_one n, e) refl
]

mask_set-suc :
    (mask : List ℕ) (n : ℕ)
    → mask_set mask (suc n) ≡ or_at (grow (n / 8 + 1 - length mask) mask) (n / 8) (2 ^ (n % 8))
unfolding mask_set
mask_set-suc mask n = rw (suc_sub_one n, below_one n) refl

-- Two indices are the same when the byte and the bit are.
same_bit : (n m : ℕ) → n / 8 ≡ m / 8 → (n % 8 == m % 8) ≡ (n == m)
same_bit n m e = ground arith

other_byte : (n m : ℕ) → n / 8 ≢ m / 8 → (n == m) ≡ false
other_byte n m e = ground arith

other_byte_test : (n m : ℕ) → n / 8 ≢ m / 8 → (n / 8 == m / 8) ≡ false
other_byte_test n m e = ground arith

grown : (mask : List ℕ) (b : ℕ) → b < length (grow (b + 1 - length mask) mask)
grown mask b = omega (arith, length-grow (b + 1 - length mask) mask)

suc_eq : (n m : ℕ) → (suc n == suc m) ≡ (n == m)
suc_eq n m = ground arith

mask_has-mask_set-suc :
    (mask : List ℕ) (n m : ℕ)
    → IsBytes mask
    → mask_has (mask_set mask (suc n)) (suc m) ≡ (n == m || mask_has mask (suc m))
mask_has-mask_set-suc mask n m h =
    let grown_mask = grow (n / 8 + 1 - length mask) mask in
    let byte = get_or mask (n / 8) 0 in
    rw
      (
        mask_has-suc (mask_set mask (suc n)) m,
        mask_has-suc mask m,
        mask_set-suc mask n,
        get_or-or_at grown_mask (n / 8) (m / 8) (2 ^ (n % 8)) (grown mask (n / 8)),
        get_or-grow (n / 8 + 1 - length mask) mask (n / 8),
        get_or-grow (n / 8 + 1 - length mask) mask (m / 8),
      )
      (elim (ℕ_discrete (n / 8) (m / 8)) [
        | yes e ↦
            rw
              (
                (==_iff (n / 8) (m / 8)).1 e,
                sym e,
                (test_bit-bit_or byte (n % 8) (m % 8) (get_or-lt mask (n / 8) h) (omega arith)
                    (omega arith)).0,
                same_bit n m e,
              )
              refl
        | no e ↦ rw (other_byte_test n m e, other_byte n m e) refl
      ])

none_at_zero : (mask : List ℕ) → mask_has mask 0 ≡ false
unfolding mask_has
none_at_zero mask = refl

set-IsBytes : (mask : List ℕ) (n : ℕ) → IsBytes mask → IsBytes (mask_set mask (suc n))
set-IsBytes mask n h = rw (mask_set-suc mask n) (
    or_at-IsBytes (grow (n / 8 + 1 - length mask) mask) (n / 8) (n % 8) (omega arith)
      (grow-IsBytes (n / 8 + 1 - length mask) mask h))

-- On a bitset of bytes, setting index i makes MaskHas true of i and leaves its answer for every other
-- index as it was, whatever the length of the bitset; the result is a bitset of bytes again.
pub mask_has-mask_set :
    (mask : List ℕ) (i j : ℕ)
    → IsBytes mask
    → 0 < i
    → (mask_has (mask_set mask i) j ≡ (i == j || mask_has mask j)) × IsBytes (mask_set mask i)
mask_has-mask_set mask zero j h p = absurd (omega arith)
mask_has-mask_set mask (suc n) zero h p =
    (ground (arith, none_at_zero mask, none_at_zero (mask_set mask (suc n))), set-IsBytes mask n h)
mask_has-mask_set mask (suc n) (suc m) h p =
    (rw (suc_eq n m) (mask_has-mask_set-suc mask n m h), set-IsBytes mask n h)

replicate-IsBytes : (n : ℕ) → IsBytes (replicate n 0)
replicate-IsBytes zero = tt
replicate-IsBytes (suc n) = (omega arith, replicate-IsBytes n)

get_or-replicate : (n b : ℕ) → get_or (replicate n 0) b 0 ≡ 0
get_or-replicate zero b = refl
get_or-replicate (suc n) zero = refl
get_or-replicate (suc n) (suc b) = get_or-replicate n b

get_or-new_mask : (n b : ℕ) → get_or (new_mask n) b 0 ≡ 0
unfolding new_mask
get_or-new_mask n b = elim (Bool-cases (n == 0)) [
  | inl e ↦ rw e refl
  | inr e ↦ rw e (get_or-replicate ((n + 7) / 8) b)
]

-- NewMask gives a bitset of bytes in which MaskHas is true of no index.
pub mask_has-new_mask : (n i : ℕ) → (mask_has (new_mask n) i ≡ false) × IsBytes (new_mask n)
unfolding new_mask mask_has
mask_has-new_mask n i = (none_set i, bytes)
  where
    none_set : (i : ℕ) → mask_has (new_mask n) i ≡ false
    none_set zero = refl
    none_set (suc i) =
        rw (mask_has-suc (new_mask n) i, get_or-new_mask n (i / 8))
          (test_bit-zero (i % 8) (omega arith))

    bytes : IsBytes (new_mask n)
    bytes = elim (Bool-cases (n == 0)) [
      | inl e ↦ rw e tt
      | inr e ↦ rw e (replicate-IsBytes ((n + 7) / 8))
    ]
