-- ===== src/Transfer/Limiter/Fairness.antt =====
-- Over any sequence of critical sections: no slot is lost, none is idle while somebody waits.
use tdrive.Base.{
  ℕ, ◌+◌, ◌≤◌, ◌<◌, ◌≡◌, refl, sym, ap, ◌∙◌, subst, ◌⊎◌, inl, inr, Bool, true, false, ◌&&◌, List,
  [], ◌∷◌, ◌++◌, arith, ltb, ltb→lt, Bool-cases,
}
use tdrive.Base.Int.{ℤ}
use tdrive.Transfer.Limiter.{TaskLimiter, is_empty, enter, new_task_limiter}
use tdrive.Transfer.Limiter.Dispatch.{Absent, Busy}
use tdrive.Transfer.Limiter.Cancelling.{Distinct-snoc, AllWaiting-snoc}
use tdrive.Transfer.Limiter.Slots.{
  Gate, gate, Step, entered, queued, returned, cancelled_granted, cancelled_waiting, released,
  limited, Steps, stop, next, IsSound,
}
use tdrive.Transfer.Limiter.Owners.{
  All-out, one_out, at_least_one-positive, set_limit-IsSound, release-IsSound,
  give_up_granted-IsSound, give_up_waiting-IsSound,
}

abbrev with_slot : TaskLimiter → TaskLimiter
with_slot l = record {
  limit = l.limit;
  active = l.active + 1;
  queue = l.queue;
  granted = l.granted;
  cancel = l.cancel;
}

abbrev with_waiter : ℕ → TaskLimiter → TaskLimiter
with_waiter w l = record {
  limit = l.limit;
  active = l.active;
  queue = l.queue ++ w ∷ [];
  granted = l.granted;
  cancel = l.cancel;
}

is_empty_sound : (q : List ℕ) → is_empty q ≡ true → q ≡ []
is_empty_sound [] h = refl
is_empty_sound (x ∷ xs) h = absurd (ground arith)

split_test : (b c : Bool) → (b && c) ≡ true → (b ≡ true) × (c ≡ true)
split_test b c h = ground arith

enter-cases :
    (w : ℕ) (l : TaskLimiter)
    → ((enter w l ≡ (with_slot l, true)) × (l.queue ≡ []) × (l.active < l.limit))
      ⊎ ((enter w l ≡ (with_waiter w l, false))
          × ((ltb (l.active) (l.limit) && is_empty (l.queue)) ≡ false))
unfolding enter
enter-cases w l = elim (Bool-cases (ltb (l.active) (l.limit) && is_empty (l.queue))) [
  | inl e ↦
      let (a, b) = split_test (ltb (l.active) (l.limit)) (is_empty (l.queue)) e in
      inl (rw e refl, is_empty_sound (l.queue) b, ltb→lt _ _ a)
  | inr e ↦ inr (rw e refl, e)
]

entered-IsSound :
    (l : TaskLimiter) (held : ℕ) (woken : List ℕ)
    → l.queue ≡ []
    → IsSound (gate l held woken)
    → IsSound (gate (with_slot l) (held + 1) woken)
entered-IsSound l held woken e h = record {
  slots = omega (arith, h.slots);
  busy = inr e;
  distinct = h.distinct;
  waiting = h.waiting;
  granted = h.granted;
  positive = h.positive;
}

queued-IsSound :
    (w : ℕ) (l : TaskLimiter) (held : ℕ) (woken : List ℕ)
    → (ltb (l.active) (l.limit) && is_empty (l.queue)) ≡ false
    → Absent w (l.queue)
    → l.granted w ≡ false
    → l.cancel w ≡ false
    → IsSound (gate l held woken)
    → IsSound (gate (with_waiter w l) held woken)
queued-IsSound w l held woken e a g c h = record {
  slots = h.slots;
  busy = inl (still_full (h.busy));
  distinct = Distinct-snoc w (l.queue) a (h.distinct);
  waiting = AllWaiting-snoc l w (l.queue) (h.waiting) g c;
  granted = h.granted;
  positive = h.positive;
}
  where
    still_full : Busy l → l.limit ≤ l.active
    still_full (inl f) = f
    still_full (inr n) = ground (arith, e, ap is_empty n)

returned-IsSound :
    (l : TaskLimiter) (held : ℕ) (before : List ℕ) (w : ℕ) (rest : List ℕ)
    → IsSound (gate l held (before ++ w ∷ rest))
    → IsSound (gate l (held + 1) (before ++ rest))
returned-IsSound l held before w rest h = record {
  slots = omega (arith, h.slots, one_out before w rest);
  busy = h.busy;
  distinct = h.distinct;
  waiting = h.waiting;
  granted = (All-out (λ v. l.granted v ≡ true) w before rest (h.granted)).1;
  positive = h.positive;
}

true-false : true ≡ false → ⊥
true-false h = ground arith

pub step-IsSound : (g h : Gate) → IsSound g → Step g h → IsSound h
step-IsSound g h s (entered w l after held woken e) = elim (enter-cases w l) [
  | inl (x, q, f) ↦
      subst (λ (k : TaskLimiter). IsSound (gate k (held + 1) woken)) (ap (λ p. p.0) (sym x ∙ e))
        (entered-IsSound l held woken q s)
  | inr (x, f) ↦ absurd (true-false (ap (λ p. p.1) (sym e ∙ x)))
]
step-IsSound g h s (queued w l after held woken e a d c) = elim (enter-cases w l) [
  | inl (x, q, f) ↦ absurd (true-false (ap (λ p. p.1) (sym x ∙ e)))
  | inr (x, f) ↦
      subst (λ (k : TaskLimiter). IsSound (gate k held woken)) (ap (λ p. p.0) (sym x ∙ e))
        (queued-IsSound w l held woken f a d c s)
]
step-IsSound g h s (returned l held before w rest) = returned-IsSound l held before w rest s
step-IsSound g h s (cancelled_granted l held before w rest) =
    give_up_granted-IsSound l held before w rest s
step-IsSound g h s (cancelled_waiting w l held woken f) = give_up_waiting-IsSound w l held woken f s
step-IsSound g h s (released l held woken) = release-IsSound l held woken s
step-IsSound g h s (limited limit l held woken) = set_limit-IsSound limit l held woken s

pub new_task_limiter-IsSound : (limit : ℤ) → IsSound (gate (new_task_limiter limit) 0 [])
unfolding new_task_limiter
new_task_limiter-IsSound limit = record {
  slots = refl;
  busy = inr refl;
  distinct = tt;
  waiting = tt;
  granted = tt;
  positive = at_least_one-positive limit;
}

reached-IsSound : (g h : Gate) → IsSound g → Steps g h → IsSound h
reached-IsSound g h s (stop _) = s
reached-IsSound g h s (next _ m _ st rest) = reached-IsSound m h (step-IsSound g m s st) rest

-- From a new limiter, whatever sequence of arrivals, of wake-ups, of cancellations of waiting and of just
-- granted waiters, of releases and of changes of the limit runs: the slots in use are those of the tasks
-- that hold one and of the granted waiters that have yet to wake up, so that none is lost; the queue
-- holds no waiter twice, and none that is granted or cancelled; and no slot is free while a waiter is
-- queued.
pub steps-IsSound :
    (limit : ℤ) (g : Gate) → Steps (gate (new_task_limiter limit) 0 []) g → IsSound g
steps-IsSound limit g run =
    reached-IsSound (gate (new_task_limiter limit) 0 []) g (new_task_limiter-IsSound limit) run
