-- ===== src/Transfer/Limiter/Slots.antt =====
-- The slots of the limiter are its owners': the tasks that run, and the granted waiters that have not
-- woken up yet.
use tdrive.Base.{
  ℕ, suc, ◌+◌, ◌<◌, ◌≡◌, ap, ◌∙◌, subst, inl, inr, true, false, List, [], ◌∷◌, ◌++◌, arith, All,
  length, length-append,
}
use tdrive.Base.Int.{ℤ}
use tdrive.Transfer.Limiter.{TaskLimiter, dispatch, enter, give_up, release, set_limit}
use tdrive.Transfer.Limiter.Dispatch.{
  Absent, Distinct, AllWaiting, Busy, Dispatched, dispatch-Dispatched,
}
use tdrive.Transfer.Limiter.Cancelling.{Distinct-append}

pub record Gate : Type 0 where
  pub limiter : TaskLimiter
  pub held : ℕ
  pub woken : List ℕ

abbrev pub gate : TaskLimiter → ℕ → List ℕ → Gate
gate l held woken = record { limiter = l; held = held; woken = woken }

-- The gate after a critical section that closes ready channels.
abbrev pub opened : ℕ → List ℕ → TaskLimiter × List ℕ → Gate
opened held woken r = gate (r.0) held (woken ++ r.1)

pub data Step : Gate → Gate → Type 0 where
  entered :
      (w : ℕ) (l after : TaskLimiter) (held : ℕ) (woken : List ℕ)
      → enter w l ≡ (after, true)
      → Step (gate l held woken) (gate after (held + 1) woken)
  queued :
      (w : ℕ) (l after : TaskLimiter) (held : ℕ) (woken : List ℕ)
      → enter w l ≡ (after, false)
      → Absent w (l.queue)
      → l.granted w ≡ false
      → l.cancel w ≡ false
      → Step (gate l held woken) (gate after held woken)
  returned :
      (l : TaskLimiter) (held : ℕ) (before : List ℕ) (w : ℕ) (rest : List ℕ)
      → Step (gate l held (before ++ w ∷ rest)) (gate l (held + 1) (before ++ rest))
  cancelled_granted :
      (l : TaskLimiter) (held : ℕ) (before : List ℕ) (w : ℕ) (rest : List ℕ)
      → Step (gate l held (before ++ w ∷ rest)) (opened held (before ++ rest) (give_up w l))
  cancelled_waiting :
      (w : ℕ) (l : TaskLimiter) (held : ℕ) (woken : List ℕ)
      → l.granted w ≡ false
      → Step (gate l held woken) (opened held woken (give_up w l))
  released :
      (l : TaskLimiter) (held : ℕ) (woken : List ℕ)
      → Step (gate l (suc held) woken) (opened held woken (release l))
  limited :
      (limit : ℤ) (l : TaskLimiter) (held : ℕ) (woken : List ℕ)
      → Step (gate l held woken) (opened held woken (set_limit limit l))

pub data Steps : Gate → Gate → Type 0 where
  stop : (g : Gate) → Steps g g
  next : (g h k : Gate) → Step g h → Steps h k → Steps g k

pub record IsSound (g : Gate) : Type 0 where
  pub slots : g.limiter.active ≡ g.held + length (g.woken)
  pub busy : Busy (g.limiter)
  pub distinct : Distinct (g.limiter.queue)
  pub waiting : AllWaiting (g.limiter) (g.limiter.queue)
  pub granted : All (λ w. g.limiter.granted w ≡ true) (g.woken)
  pub positive : 0 < g.limiter.limit

-- The same before a dispatch, which may find a free slot.
pub record IsReady (l : TaskLimiter) (held : ℕ) (woken : List ℕ) : Type 0 where
  pub slots : l.active ≡ held + length woken
  pub distinct : Distinct (l.queue)
  pub waiting : AllWaiting l (l.queue)
  pub granted : All (λ w. l.granted w ≡ true) woken
  pub positive : 0 < l.limit

kept_granted :
    (l after : TaskLimiter) (new woken : List ℕ)
    → Dispatched l after new
    → All (λ w. l.granted w ≡ true) woken
    → All (λ w. after.granted w ≡ true) (woken ++ new)
kept_granted l after new [] d h = d.woken_granted
kept_granted l after new (w ∷ ws) d h =
    (elim (d.only_grants w) [ inl g ↦ g | inr g ↦ g ∙ h.0 ], kept_granted l after new ws d (h.1))

kept_waiting :
    (l after : TaskLimiter) (new q : List ℕ)
    → Dispatched l after new
    → All (λ v. Absent v new) q
    → AllWaiting l q
    → AllWaiting after q
kept_waiting l after new [] d a h = tt
kept_waiting l after new (v ∷ q) d a h = (
  (d.others v (a.0) ∙ h.0.0, ap (λ f. f v) (d.same_cancel) ∙ h.0.1),
  kept_waiting l after new q d (a.1) (h.1),
)

waiting-append : (l : TaskLimiter) (xs ys : List ℕ) → AllWaiting l (xs ++ ys) → AllWaiting l ys
waiting-append l [] ys h = h
waiting-append l (x ∷ xs) ys h = waiting-append l xs ys (h.1)

pub dispatch-IsSound :
    (l : TaskLimiter) (held : ℕ) (woken : List ℕ)
    → IsReady l held woken
    → IsSound (opened held woken (dispatch l))
dispatch-IsSound l held woken r =
    let d = dispatch-Dispatched l (r.distinct) (r.waiting) in
    let new = (dispatch l).1 in
    let after = (dispatch l).0 in
    let (q, a) = Distinct-append new (after.queue) (subst Distinct (d.in_order) (r.distinct)) in
    record {
      slots = omega (arith, d.slots, r.slots, length-append woken new);
      busy = d.busy;
      distinct = q;
      waiting =
          kept_waiting l after new (after.queue) d a
            (waiting-append l new (after.queue) (subst (AllWaiting l) (d.in_order) (r.waiting)));
      granted = kept_granted l after new woken d (r.granted);
      positive = omega (arith, d.same_limit, r.positive);
    }
