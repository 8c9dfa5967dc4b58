-- ===== src/Transfer/Limiter/Owners.antt =====
-- Every critical section of the limiter keeps the slots and the owners together.
use tdrive.Base.{
  ℕ, suc, ◌+◌, ◌-◌, ◌<◌, ◌≡◌, refl, sym, ap, subst, inl, inr, true, false, List, [], ◌∷◌, ◌++◌,
  append-nil, arith, ltb, ◌==◌, if◌then◌else◌, Bool-cases, All, length,
}
use tdrive.Base.Int.{ℤ}
use tdrive.Transfer.Limiter.{
  TaskLimiter, at_least_one, set_flag, remove_waiter, give_up, release, set_limit,
}
use tdrive.Transfer.Limiter.Dispatch.{Absent, AllWaiting}
use tdrive.Transfer.Limiter.Cancelling.{
  All-remove_waiter, Distinct-remove_waiter, Absent-remove_waiter,
}
use tdrive.Transfer.Limiter.Slots.{gate, opened, IsSound, dispatch-IsSound}

-- A granted waiter among the woken ones is taken out.
module _ (P : ℕ → Type 0) (w : ℕ) where
  pub All-out : (before rest : List ℕ) → All P (before ++ w ∷ rest) → P w × All P (before ++ rest)
  All-out [] rest h = h
  All-out (x ∷ xs) rest h = let (a, b) = All-out xs rest (h.1) in (a, (h.0, b))

pub one_out :
    (before : List ℕ) (w : ℕ) (rest : List ℕ)
    → length (before ++ w ∷ rest) ≡ suc (length (before ++ rest))
one_out [] w rest = refl
one_out (x ∷ xs) w rest = ap suc (one_out xs w rest)

nothing_woken :
    (l : TaskLimiter) (held : ℕ) (woken : List ℕ)
    → IsSound (gate l held woken)
    → IsSound (opened held woken (l, []))
nothing_woken l held woken h = subst (λ xs. IsSound (gate l held xs)) (sym (append-nil woken)) h

pub at_least_one-positive : (limit : ℤ) → 0 < at_least_one limit
at_least_one-positive limit = ground arith

pub set_limit-IsSound :
    (limit : ℤ) (l : TaskLimiter) (held : ℕ) (woken : List ℕ)
    → IsSound (gate l held woken)
    → IsSound (opened held woken (set_limit limit l))
unfolding set_limit
set_limit-IsSound limit l held woken h = elim (Bool-cases (l.limit == at_least_one limit)) [
  | inl e ↦ rw e (nothing_woken l held woken h)
  | inr e ↦ rw e (
      dispatch-IsSound _ held woken (record {
        slots = h.slots;
        distinct = h.distinct;
        waiting = h.waiting;
        granted = h.granted;
        positive = at_least_one-positive limit;
      }))
]

pub release-IsSound :
    (l : TaskLimiter) (held : ℕ) (woken : List ℕ)
    → IsSound (gate l (suc held) woken)
    → IsSound (opened held woken (release l))
unfolding release
release-IsSound l held woken h = dispatch-IsSound _ held woken (record {
  slots = given_back (l.active) held (length woken) (h.slots);
  distinct = h.distinct;
  waiting = h.waiting;
  granted = h.granted;
  positive = h.positive;
})
  where
    given_back : (a b c : ℕ) → a ≡ suc b + c → (if ltb 0 a then a - 1 else a) ≡ b + c
    given_back a b c e = ground arith

pub give_up_granted-IsSound :
    (l : TaskLimiter) (held : ℕ) (before : List ℕ) (w : ℕ) (rest : List ℕ)
    → IsSound (gate l held (before ++ w ∷ rest))
    → IsSound (opened held (before ++ rest) (give_up w l))
unfolding give_up
give_up_granted-IsSound l held before w rest h =
    let (g, others) = All-out (λ v. l.granted v ≡ true) w before rest (h.granted) in
    rw g (
      dispatch-IsSound _ held (before ++ rest) (record {
        slots = omega (arith, h.slots, one_out before w rest);
        distinct = h.distinct;
        waiting = h.waiting;
        granted = others;
        positive = h.positive;
      }))

-- Cancelling a waiter leaves the flags of the others.
cut_waiting :
    (w : ℕ) (l : TaskLimiter) (xs : List ℕ)
    → Absent w xs
    → AllWaiting l xs
    → All (λ v. (l.granted v ≡ false) × (set_flag w (l.cancel) v ≡ false)) xs
cut_waiting w l [] a h = tt
cut_waiting w l (x ∷ xs) a h = ((h.0.0, rw (a.0) (h.0.1)), cut_waiting w l xs (a.1) (h.1))

pub give_up_waiting-IsSound :
    (w : ℕ) (l : TaskLimiter) (held : ℕ) (woken : List ℕ)
    → l.granted w ≡ false
    → IsSound (gate l held woken)
    → IsSound (opened held woken (give_up w l))
unfolding give_up
give_up_waiting-IsSound w l held woken g h = rw g (elim (Bool-cases (l.cancel w)) [
  | inl e ↦ rw e (nothing_woken l held woken h)
  | inr e ↦ rw e (
      dispatch-IsSound _ held woken (record {
        slots = h.slots;
        distinct = Distinct-remove_waiter w (l.queue) (h.distinct);
        waiting =
            cut_waiting w l (remove_waiter w (l.queue))
              (Absent-remove_waiter w (l.queue) (h.distinct))
              (All-remove_waiter w (λ v. (l.granted v ≡ false) × (l.cancel v ≡ false)) (l.queue)
                (h.waiting));
        granted = h.granted;
        positive = h.positive;
      }))
])
