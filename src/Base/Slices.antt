-- ===== src/Base/Slices.antt =====
-- Runs of a list: `slice xs a n` is the n elements of xs from offset a on.
use tdrive.Base.{
  ℕ, zero, suc, ◌+◌, ◌-◌, ◌≤◌, ◌≡◌, refl, sym, ap, List, [], ◌∷◌, ◌++◌, arith, length, take, drop,
  length-take, length-drop, min,
}

suc_add : (b a : ℕ) → suc b + a ≡ suc (b + a)
suc_add b a = omega arith

zero_sub : (a : ℕ) → 0 ≡ 0 - a
zero_sub a = omega arith

suc_sub_suc : (m a : ℕ) → suc m - suc a ≡ m - a
suc_sub_suc m a = omega arith

min_zero : (a : ℕ) → min 0 a ≡ 0
min_zero a = omega arith

zero_min : (a : ℕ) → min (suc a) 0 ≡ 0
zero_min a = omega arith

min-suc : (m a : ℕ) → min (suc m) (suc a) ≡ suc (min m a)
min-suc m a = omega arith

module _ {ℓ} {A : Type ℓ} where
  abbrev pub slice : List A → ℕ → ℕ → List A
  slice xs a n = take n (drop a xs)

  pub drop-nil : (n : ℕ) → drop {A = A} n [] ≡ []
  drop-nil zero = refl
  drop-nil (suc n) = refl

  pub take-nil : (n : ℕ) → take {A = A} n [] ≡ []
  take-nil zero = refl
  take-nil (suc n) = refl

  pub drop-drop : (a b : ℕ) (xs : List A) → drop a (drop b xs) ≡ drop (b + a) xs
  drop-drop a zero xs = ap (λ n. drop n xs) (omega arith)
  drop-drop a (suc b) [] = rw (suc_add b a, drop-nil a)
  drop-drop a (suc b) (x ∷ xs) = rw (suc_add b a) (drop-drop a b xs)

  -- A run splits at any point inside it.
  pub take-add : (n m : ℕ) (xs : List A) → take (n + m) xs ≡ take n xs ++ take m (drop n xs)
  take-add zero m xs = ap (λ n. take n xs) (omega arith)
  take-add (suc n) m [] = rw (suc_add n m, take-nil m)
  take-add (suc n) m (x ∷ xs) = rw (suc_add n m) (ap (◌∷◌ x) (take-add n m xs))

  pub take-take_le : (n m : ℕ) (xs : List A) → n ≤ m → take n (take m xs) ≡ take n xs
  take-take_le zero m xs h = refl
  take-take_le (suc n) zero xs h = absurd (omega arith)
  take-take_le (suc n) (suc m) [] h = refl
  take-take_le (suc n) (suc m) (x ∷ xs) h = ap (◌∷◌ x) (take-take_le n m xs (omega arith))

  pub drop-take : (a m : ℕ) (xs : List A) → drop a (take m xs) ≡ take (m - a) (drop a xs)
  drop-take zero m xs = ap (λ n. take n xs) (omega arith)
  drop-take (suc a) zero xs = ap (λ n. take n (drop (suc a) xs)) (zero_sub (suc a))
  drop-take (suc a) (suc m) [] = sym (take-nil (suc m - suc a))
  drop-take (suc a) (suc m) (x ∷ xs) = rw (suc_sub_suc m a) (drop-take a m xs)

  -- A run of a run is a run, if it lies inside.
  pub slice-slice :
      (xs : List A) (a n b m : ℕ) → b + m ≤ n → slice (slice xs a n) b m ≡ slice xs (a + b) m
  slice-slice xs a n b m h = rw (
    drop-take b n (drop a xs),
    take-take_le m (n - b) (drop b (drop a xs)) (omega arith),
    drop-drop b a xs,
  )

  -- Neighbouring runs join.
  pub slice-append :
      (xs : List A) (a n m : ℕ) → slice xs a n ++ slice xs (a + n) m ≡ slice xs a (n + m)
  slice-append xs a n m = rw (take-add n m (drop a xs), drop-drop n a xs)

  pub slice_join :
      (xs : List A) (a n b m k : ℕ)
      → a + n ≡ b
      → n + m ≡ k
      → slice xs a n ++ slice xs b m ≡ slice xs a k
  slice_join xs a n b m k e f = rw (← e, ← f) (slice-append xs a n m)

  pub length-slice : (xs : List A) (a n : ℕ) → a + n ≤ length xs → length (slice xs a n) ≡ n
  length-slice xs a n h = omega (arith, length-take n (drop a xs), length-drop a xs)

  pub take_all : (n : ℕ) (xs : List A) → length xs ≤ n → take n xs ≡ xs
  take_all zero [] h = refl
  take_all zero (x ∷ xs) h = absurd (omega arith)
  take_all (suc n) [] h = refl
  take_all (suc n) (x ∷ xs) h = ap (◌∷◌ x) (take_all n xs (omega arith))

  pub take_clip : (n : ℕ) (ys : List A) → take (min n (length ys)) ys ≡ take n ys
  take_clip zero ys = ap (λ k. take k ys) (min_zero (length ys))
  take_clip (suc n) [] = ap (λ k. take {A = A} k []) (zero_min n)
  take_clip (suc n) (x ∷ xs) = rw (min-suc n (length xs)) (ap (◌∷◌ x) (take_clip n xs))

  -- A run past the end is the run up to the end.
  pub slice_clip : (xs : List A) (a n : ℕ) → slice xs a (min n (length xs - a)) ≡ slice xs a n
  slice_clip xs a n = rw (← length-drop a xs) (take_clip n (drop a xs))

  pub drop_clip : (n : ℕ) (ys : List A) → drop (min n (length ys)) ys ≡ drop n ys
  drop_clip zero ys = ap (λ k. drop k ys) (min_zero (length ys))
  drop_clip (suc n) [] = rw (zero_min n)
  drop_clip (suc n) (x ∷ xs) = rw (min-suc n (length xs)) (drop_clip n xs)

  pub take-append_le : (n : ℕ) (xs ys : List A) → n ≤ length xs → take n (xs ++ ys) ≡ take n xs
  take-append_le zero xs ys h = refl
  take-append_le (suc n) [] ys h = absurd (omega arith)
  take-append_le (suc n) (x ∷ xs) ys h = ap (◌∷◌ x) (take-append_le n xs ys (omega arith))

  pub drop-append_le :
      (n : ℕ) (xs ys : List A) → n ≤ length xs → drop n (xs ++ ys) ≡ drop n xs ++ ys
  drop-append_le zero xs ys h = refl
  drop-append_le (suc n) [] ys h = absurd (omega arith)
  drop-append_le (suc n) (x ∷ xs) ys h = drop-append_le n xs ys (omega arith)

  pub take-append_self : (xs ys : List A) → take (length xs) (xs ++ ys) ≡ xs
  take-append_self [] ys = refl
  take-append_self (x ∷ xs) ys = ap (◌∷◌ x) (take-append_self xs ys)

  pub drop-append_self : (xs ys : List A) → drop (length xs) (xs ++ ys) ≡ ys
  drop-append_self [] ys = refl
  drop-append_self (x ∷ xs) ys = drop-append_self xs ys
