-- ===== src/Transfer/Limiter/Cancelling.antt =====
-- Lists of waiters: a queue stays free of repeats when it is appended to, cut or emptied from the front.
use tdrive.Base.{
  ℕ, ◌≡◌, subst, inl, inr, false, List, [], ◌∷◌, ◌++◌, arith, ◌==◌, ==_iff, Bool-cases, All,
}
use tdrive.Transfer.Limiter.{TaskLimiter, remove_waiter}
use tdrive.Transfer.Limiter.Dispatch.{Absent, Distinct, AllWaiting}

flip : (a b : ℕ) → (a == b) ≡ false → (b == a) ≡ false
flip a b h = ground arith

-- Those behind the front part are not in it.
All-Absent :
    (x : ℕ) (xs ys : List ℕ)
    → Absent x ys
    → All (λ v. Absent v xs) ys
    → All (λ v. Absent v (x ∷ xs)) ys
All-Absent x xs [] a h = tt
All-Absent x xs (y ∷ ys) a h = ((flip x y (a.0), h.0), All-Absent x xs ys (a.1) (h.1))

none-Absent : (ys : List ℕ) → All (λ v. Absent v []) ys
none-Absent [] = tt
none-Absent (y ∷ ys) = (tt, none-Absent ys)

pub Absent-append : (x : ℕ) (xs ys : List ℕ) → Absent x (xs ++ ys) → Absent x ys
Absent-append x [] ys h = h
Absent-append x (z ∷ zs) ys h = Absent-append x zs ys (h.1)

pub Distinct-append :
    (xs ys : List ℕ) → Distinct (xs ++ ys) → Distinct ys × All (λ v. Absent v xs) ys
Distinct-append [] ys h = (h, none-Absent ys)
Distinct-append (x ∷ xs) ys h =
    let (d, a) = Distinct-append xs ys (h.1) in
    (d, All-Absent x xs ys (Absent-append x xs ys (h.0)) a)

Absent-snoc : (x w : ℕ) (xs : List ℕ) → Absent x xs → (x == w) ≡ false → Absent x (xs ++ w ∷ [])
Absent-snoc x w [] a h = (h, tt)
Absent-snoc x w (z ∷ zs) a h = (a.0, Absent-snoc x w zs (a.1) h)

pub Distinct-snoc : (w : ℕ) (xs : List ℕ) → Absent w xs → Distinct xs → Distinct (xs ++ w ∷ [])
Distinct-snoc w [] a d = (tt, tt)
Distinct-snoc w (x ∷ xs) a d =
    (Absent-snoc x w xs (d.0) (flip w x (a.0)), Distinct-snoc w xs (a.1) (d.1))

pub AllWaiting-snoc :
    (l : TaskLimiter) (w : ℕ) (xs : List ℕ)
    → AllWaiting l xs
    → l.granted w ≡ false
    → l.cancel w ≡ false
    → AllWaiting l (xs ++ w ∷ [])
AllWaiting-snoc l w [] h g c = ((g, c), tt)
AllWaiting-snoc l w (x ∷ xs) h g c = (h.0, AllWaiting-snoc l w xs (h.1) g c)

-- A cut leaves a part of the queue, without the waiter when the queue has no repeats.
module _ (w : ℕ) where
  pub All-remove_waiter : (P : ℕ → Type 0) (xs : List ℕ) → All P xs → All P (remove_waiter w xs)
  All-remove_waiter P [] h = tt
  All-remove_waiter P (x ∷ xs) h = elim (Bool-cases (x == w)) [
    | inl e ↦ rw e (h.1)
    | inr e ↦ rw e (h.0, All-remove_waiter P xs (h.1))
  ]

  pub Distinct-remove_waiter : (xs : List ℕ) → Distinct xs → Distinct (remove_waiter w xs)
  Distinct-remove_waiter [] h = tt
  Distinct-remove_waiter (x ∷ xs) h = elim (Bool-cases (x == w)) [
    | inl e ↦ rw e (h.1)
    | inr e ↦
        rw e (All-remove_waiter (λ y. (x == y) ≡ false) xs (h.0), Distinct-remove_waiter xs (h.1))
  ]

  pub Absent-remove_waiter : (xs : List ℕ) → Distinct xs → Absent w (remove_waiter w xs)
  Absent-remove_waiter [] h = tt
  Absent-remove_waiter (x ∷ xs) h = elim (Bool-cases (x == w)) [
    | inl e ↦ rw e (subst (λ v. Absent v xs) ((==_iff x w).0 e) (h.0))
    | inr e ↦ rw e (flip x w e, Absent-remove_waiter xs (h.1))
  ]
