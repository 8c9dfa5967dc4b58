-- ===== src/Access/Perms/Rights.antt =====
-- Which single permissions an account holds.
use tdrive.Base.{
  ℕ, ◌<◌, ◌^◌, ◌≡◌, refl, Bool, true, false, not, ◌&&◌, ◌||◌, bit_and, bit_or, arith, ◌==◌,
  if◌then◌else◌, Bool-cases, inl, inr,
}
use tdrive.Base.Sweep.{passes, passes_at}
use tdrive.Access.Perms.{Role, admin, user, all_perms, default_user_perms, is_admin, effective, can}

-- Bit k of a set.
abbrev pub holds : ℕ → ℕ → Bool
holds p k = not (bit_and p (2 ^ k) == 0)

abbrev agree : Bool → Bool → Bool
agree true b = b
agree false b = not b

agreed : (a b : Bool) → agree a b ≡ true → a ≡ b
agreed a b h = ground arith

stored_row : ℕ → ℕ → Bool
stored_row p k = agree (bit_and (bit_or p 1) (2 ^ k) == 2 ^ k) ((k == 0) || holds p k)

stored_table : passes (λ p. passes (stored_row p) 13) 8192 ≡ true
unfolding passes stored_row
stored_table = refl

stored_bit :
    (p k : ℕ)
    → p < 8192
    → k < 13
    → (bit_and (bit_or p 1) (2 ^ k) == 2 ^ k) ≡ ((k == 0) || holds p k)
unfolding stored_row
stored_bit p k a b = agreed (bit_and (bit_or p 1) (2 ^ k) == 2 ^ k) ((k == 0) || holds p k) (
    passes_at (stored_row p) 13 k b
      (passes_at (λ q. passes (stored_row q) 13) 8192 p a stored_table))

default_row : ℕ → ℕ → Bool
default_row p k = agree (bit_and p (2 ^ k) == 2 ^ k) (holds p k)

default_table :
    passes (default_row default_user_perms) 13
      && passes (λ k. bit_and all_perms (2 ^ k) == 2 ^ k) 13
    ≡ true
unfolding passes default_row
default_table = refl

default_bit :
    (k : ℕ) → k < 13 → (bit_and default_user_perms (2 ^ k) == 2 ^ k) ≡ holds default_user_perms k
unfolding default_row
default_bit k b =
    agreed (bit_and default_user_perms (2 ^ k) == 2 ^ k) (holds default_user_perms k)
      (passes_at (default_row default_user_perms) 13 k b (ground (arith, default_table)))

all_bit : (k : ℕ) → k < 13 → (bit_and all_perms (2 ^ k) == 2 ^ k) ≡ true
all_bit k b =
    passes_at (λ n. bit_and all_perms (2 ^ n) == 2 ^ n) 13 k b (ground (arith, default_table))

-- For each of the thirteen permissions: an administrator holds it; another account with nothing stored
-- holds it exactly when it is one of the default ones; and one with a set stored holds it exactly when
-- it is in the set or is the permission to read.
pub can-holds :
    (role : Role) (p k : ℕ)
    → p < 8192
    → k < 13
    → can (record { role = role; perms = p }) (2 ^ k)
      ≡ (is_admin role || (if p == 0 then holds default_user_perms k else (k == 0) || holds p k))
unfolding can effective
can-holds admin p k a b = all_bit k b
can-holds user p k a b = elim (Bool-cases (p == 0)) [
  | inl z ↦ rw z (default_bit k b)
  | inr z ↦ rw z (stored_bit p k a b)
]
