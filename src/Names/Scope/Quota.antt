-- ===== src/Names/Scope/Quota.antt =====
-- What CheckQuota lets through, with the int64 sum that it compares.
use tdrive.Base.{
  ℕ, ◌+◌, ◌<◌, ◌≤◌, ◌≡◌, inl, inr, ◌⊎◌, false, some, List, [], ◌∷◌, ok, err, Result, arith, All,
}
use tdrive.Base.Int.{pos}
use tdrive.Names.Scope.{QuotaError, found, quota_exceeded, check_quota}

-- For numbers below 2^63: refused exactly when there are bytes, a quota is set, and the sum is more than
-- the quota and fits an int64; and let through otherwise.
check_quota-cases :
    (a q u : ℕ)
    → a < 9223372036854775808
    → q < 9223372036854775808
    → u < 9223372036854775808
    → ((check_quota false (pos a) (found (pos q)) (some u) ≡ err quota_exceeded)
        × (0 < a)
        × (0 < q)
        × (q < u + a)
        × (u + a < 9223372036854775808))
      ⊎ ((check_quota false (pos a) (found (pos q)) (some u) ≡ ok tt)
          × ((a ≡ 0) ⊎ (q ≡ 0) ⊎ (u + a ≤ q) ⊎ (9223372036854775808 ≤ u + a)))
unfolding check_quota
check_quota-cases a q u ha hq hu = ground arith

-- The bytes used after an upload that was let through, and after one that was not.
abbrev pub after_check : Result {0, 0} QuotaError Unit → ℕ → ℕ → ℕ
after_check (ok t) u a = u + a
after_check (err e) u a = u

-- Uploads one after the other, each checked first; every one that is let through is stored whole.
unfoldable pub used_after : ℕ → ℕ → List ℕ → ℕ
used_after q u [] = u
used_after q u (a ∷ sizes) =
    used_after q (after_check (check_quota false (pos a) (found (pos q)) (some u)) u a) sizes

once-within :
    (a q u : ℕ)
    → 0 < q
    → u ≤ q
    → q + a < 9223372036854775808
    → after_check (check_quota false (pos a) (found (pos q)) (some u)) u a ≤ q
once-within a q u p h f =
    elim (check_quota-cases a q u (omega (arith, f)) (omega (arith, f)) (omega (arith, f, h))) [
      | inl (e, x, y, z, w) ↦ rw e h
      | inr (e, r) ↦ rw e (ground (arith, r, p, h, f))
    ]

kept-within :
    (q u : ℕ) (sizes : List ℕ)
    → 0 < q
    → u ≤ q
    → All (λ a. q + a < 9223372036854775808) sizes
    → used_after q u sizes ≤ q
unfolding used_after
kept-within q u [] p h f = h
kept-within q u (a ∷ sizes) p h f =
    kept-within q (after_check (check_quota false (pos a) (found (pos q)) (some u)) u a) sizes p
      (once-within a q u p h (f.0)) (f.1)

-- An account that has a quota and uses no more than it: after any uploads one after the other, each
-- checked by CheckQuota before it and stored whole when let through, it still uses no more, when the
-- quota and the size of each upload add up to less than 2^63. But an upload of less than 2^63 bytes
-- that makes the sum with the used bytes 2^63 or more is let through, whatever the quota.
pub check_quota-keeps :
    (q u : ℕ)
    → 0 < q
    → q < 9223372036854775808
    → u ≤ q
    → ((sizes : List ℕ) → All (λ a. q + a < 9223372036854775808) sizes → used_after q u sizes ≤ q)
      × ((a : ℕ)
          → a < 9223372036854775808
          → 9223372036854775808 ≤ u + a
          → check_quota false (pos a) (found (pos q)) (some u) ≡ ok tt)
check_quota-keeps q u p b h = (
  λ sizes f. kept-within q u sizes p h f,
  λ a f g. elim (check_quota-cases a q u f b (omega (arith, b, h))) [
    | inl (e, x, y, z, w) ↦ absurd (omega (arith, g, w))
    | inr (e, r) ↦ e
  ],
)
