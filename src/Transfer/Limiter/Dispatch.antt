-- ===== src/Transfer/Limiter/Dispatch.antt =====
-- What dispatchLocked does to the queue, the slots and the flags.
use tdrive.Base.{
  ℕ, ◌+◌, ◌≤◌, ◌<◌, ◌≡◌, refl, ap, ◌∙◌, ◌⊎◌, inl, inr, Bool, true, false, List, [], ◌∷◌, ◌++◌,
  arith, ltb, ltb→lt, ◌==◌, Bool-cases, All, length,
}
use tdrive.Transfer.Limiter.{TaskLimiter, set_flag, grant_front, dispatch_from, dispatch}

-- A waiter does not occur in a list of waiters.
abbrev pub Absent : ℕ → List ℕ → Type 0
Absent w = All (λ x. (w == x) ≡ false)

abbrev pub Distinct : List ℕ → Type 0
Distinct [] = Unit
Distinct (x ∷ xs) = Absent x xs × Distinct xs

-- A waiter of the queue is neither granted nor cancelled.
abbrev pub AllWaiting : TaskLimiter → List ℕ → Type 0
AllWaiting l = All (λ w. (l.granted w ≡ false) × (l.cancel w ≡ false))

-- The queue is empty or no slot is free.
abbrev pub Busy : TaskLimiter → Type 0
Busy l = (l.limit ≤ l.active) ⊎ (l.queue ≡ [])

-- What a dispatch comes to, with a queue of live waiters: `woken` are those it grants.
pub record Dispatched (l after : TaskLimiter) (woken : List ℕ) : Type 0 where
  pub in_order : l.queue ≡ woken ++ after.queue
  pub slots : after.active ≡ l.active + length woken
  pub same_limit : after.limit ≡ l.limit
  pub busy : Busy after
  pub bounded : (woken ≡ []) ⊎ (after.active ≤ after.limit)
  pub same_cancel : after.cancel ≡ l.cancel
  pub woken_granted : All (λ w. after.granted w ≡ true) woken
  pub only_grants : (v : ℕ) → (after.granted v ≡ true) ⊎ (after.granted v ≡ l.granted v)
  pub others : (v : ℕ) → Absent v woken → after.granted v ≡ l.granted v

still_waiting :
    (w : ℕ) (rest xs : List ℕ) (l : TaskLimiter)
    → Absent w xs
    → AllWaiting l xs
    → AllWaiting (grant_front w rest l) xs
still_waiting w rest [] l a h = tt
still_waiting w rest (x ∷ xs) l a h =
    ((rw (a.0) (h.0.0), h.0.1), still_waiting w rest xs l (a.1) (h.1))

same_waiter : (w : ℕ) → (w == w) ≡ true
same_waiter w = ground arith

granted_or_kept : (w : ℕ) (f : ℕ → Bool) (v : ℕ) → (set_flag w f v ≡ true) ⊎ (set_flag w f v ≡ f v)
granted_or_kept w f v = elim (Bool-cases (w == v)) [
  | inl e ↦ rw e (inl refl)
  | inr e ↦ rw e (inr refl)
]

other_flag : (w v : ℕ) (f : ℕ → Bool) → (v == w) ≡ false → set_flag w f v ≡ f v
other_flag w v f h = ground arith

module _ (w : ℕ) (rest : List ℕ) (l after : TaskLimiter) (woken : List ℕ) where
  front_granted :
      l.queue ≡ w ∷ rest
      → l.active < l.limit
      → Dispatched (grant_front w rest l) after woken
      → Dispatched l after (w ∷ woken)
  front_granted e free i = record {
    in_order = e ∙ ap (λ (q : List ℕ). w ∷ q) (i.in_order);
    slots = omega (arith, i.slots);
    same_limit = i.same_limit;
    busy = i.busy;
    bounded = inr (elim (i.bounded) [
      | inl none ↦ omega (arith, i.slots, i.same_limit, ap (λ (xs : List ℕ). length xs) none)
      | inr b ↦ b
    ]);
    same_cancel = i.same_cancel;
    woken_granted = (
      elim (i.only_grants w) [ inl g ↦ g | inr g ↦ g ∙ rw (same_waiter w) refl ],
      i.woken_granted,
    );
    only_grants = λ v. elim (i.only_grants v) [
      | inl g ↦ inl g
      | inr g ↦ rw g (granted_or_kept w (l.granted) v)
    ];
    others = λ v a. i.others v (a.1) ∙ other_flag w v (l.granted) (a.0);
  }

dispatch_from-Dispatched :
    (q : List ℕ) (l : TaskLimiter)
    → l.queue ≡ q
    → Distinct q
    → AllWaiting l q
    → Dispatched l (dispatch_from q l).0 (dispatch_from q l).1
unfolding dispatch_from
dispatch_from-Dispatched [] l e d h = record {
  in_order = refl;
  slots = omega arith;
  same_limit = refl;
  busy = inr e;
  bounded = inl refl;
  same_cancel = refl;
  woken_granted = tt;
  only_grants = λ v. inr refl;
  others = λ v a. refl;
}
dispatch_from-Dispatched (w ∷ rest) l e d h = elim (Bool-cases (ltb (l.active) (l.limit))) [
  | inl free ↦
      let i =
        dispatch_from-Dispatched rest (grant_front w rest l) refl (d.1)
          (still_waiting w rest rest l (d.0) (h.1)) in
      rw (free, h.0.1) (front_granted w rest l _ _ e (ltb→lt _ _ free) i)
  | inr full ↦ rw full (record {
    in_order = refl;
    slots = omega arith;
    same_limit = refl;
    busy = inl (ground arith);
    bounded = inl refl;
    same_cancel = refl;
    woken_granted = tt;
    only_grants = λ v. inr refl;
    others = λ v a. refl;
  })
]

-- With a queue of distinct waiters, none granted and none cancelled, dispatchLocked grants those of a
-- front part of the queue, in their order, and leaves the rest queued: one slot for each, no slot above
-- the limit, and none left free while a waiter is queued. It changes the flags of no other waiter.
pub dispatch-Dispatched :
    (l : TaskLimiter)
    → Distinct (l.queue)
    → AllWaiting l (l.queue)
    → Dispatched l (dispatch l).0 (dispatch l).1
unfolding dispatch
dispatch-Dispatched l d h = dispatch_from-Dispatched (l.queue) l refl d h
