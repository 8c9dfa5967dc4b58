-- ===== src/Upload/Mask.antt =====
-- NewMask, MaskHas and MaskSet of internal/database/models.go: a bitset over 1-based indices, as a
-- list of bytes. An index below 1 is 0 here.
pub mod Bits
pub mod Membership
pub mod Examples
use tdrive.Base.{
  ℕ, zero, suc, ◌+◌, ◌-◌, ◌/◌, ◌%◌, ◌^◌, Bool, true, false, not, List, [], ◌∷◌, ◌++◌, bit_and,
  bit_or, ltb, leb, ◌==◌, if◌then◌else◌, length,
}

abbrev pub get_or : List ℕ → ℕ → ℕ → ℕ
get_or [] i d = d
get_or (x ∷ xs) zero d = x
get_or (x ∷ xs) (suc i) d = get_or xs i d

abbrev pub replicate : ℕ → ℕ → List ℕ
replicate zero b = []
replicate (suc n) b = b ∷ replicate n b

unfoldable pub new_mask : ℕ → List ℕ
new_mask n = if n == 0 then [] else replicate ((n + 7) / 8) 0

unfoldable pub mask_has : List ℕ → ℕ → Bool
mask_has mask idx =
    if ltb idx 1
    then false
    else (let b = (idx - 1) / 8 in
        if leb (length mask) b
        then false
        else not (bit_and (get_or mask b 0) (2 ^ ((idx - 1) % 8)) == 0))

-- `for len(mask) <= b { mask = append(mask, 0) }`, by the rounds left.
unfoldable pub grow : ℕ → List ℕ → List ℕ
grow zero mask = mask
grow (suc rounds) mask = grow rounds (mask ++ 0 ∷ [])

-- `mask[b] |= bit`
unfoldable pub or_at : List ℕ → ℕ → ℕ → List ℕ
or_at [] b bit = []
or_at (x ∷ xs) zero bit = bit_or x bit ∷ xs
or_at (x ∷ xs) (suc b) bit = x ∷ or_at xs b bit

unfoldable pub mask_set : List ℕ → ℕ → List ℕ
unfolding grow or_at
mask_set mask idx =
    if ltb idx 1
    then mask
    else (let b = (idx - 1) / 8 in or_at (grow (b + 1 - length mask) mask) b (2 ^ ((idx - 1) % 8)))
