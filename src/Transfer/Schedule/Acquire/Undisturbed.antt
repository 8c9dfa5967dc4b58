-- ===== src/Transfer/Schedule/Acquire/Undisturbed.antt =====
-- The sections of acquire when nothing disturbs them and there is a slot and an account.
use tdrive.Base.{
  ℕ, ◌+◌, ◌<◌, ◌≡◌, refl, sym, ap, ap₂, ◌∙◌, subst, inl, inr, Bool, true, false, ◌&&◌, Option, none,
  some, List, [], arith, lt→ltb, ◌==◌, Bool-cases, All, choose_true,
}
use tdrive.Base.Int.{ℤ}
use tdrive.Transfer.Quota.{Tracker, Stored, Reservation, reserve}
use tdrive.Transfer.Quota.Admission.{is_some, reserve-may_start}
use tdrive.Transfer.Limiter.{
  TaskLimiter, at_least_one, new_task_limiter, is_empty, enter, dispatch, dispatch_from, set_limit,
}
use tdrive.Transfer.Schedule.{
  Account, Transfer, key_for, limit_for, quota_may_start, and_fits, start_and_fit,
  first_account_for_transfer,
}
use tdrive.Transfer.Schedule.Preference.{
  IsLoaded, Chosen, starts, first_account_for_transfer-Chosen,
}
use tdrive.Transfer.Schedule.Acquire.{
  Service, service, put_side, Lease, new_lease, synced_limiter, joining, chosen, leased, choose,
  choose_again, lease_or_return, waits_or_joins, keep_or_return, reserve_chosen,
}
use tdrive.Transfer.Schedule.Acquire.Stages.{Scene, Move}

-- There will be a free slot under this limit, and nobody is queued.
abbrev pub HasSpare : ℤ → Option TaskLimiter → Type 0
HasSpare limit none = Unit
HasSpare limit (some l) = (l.active < at_least_one limit) × (l.queue ≡ [])

pub record HasRoom (r : TaskLimiter × List ℕ) : Type 0 where
  pub nobody_woken : r.1 ≡ []
  pub free : r.0.active < r.0.limit
  pub nobody_queued : r.0.queue ≡ []

set_limit-HasRoom :
    (limit : ℤ) (l : TaskLimiter)
    → l.active < at_least_one limit
    → l.queue ≡ []
    → HasRoom (set_limit limit l)
unfolding set_limit dispatch dispatch_from
set_limit-HasRoom limit l f q = elim (Bool-cases (l.limit == at_least_one limit)) [
  | inl e ↦ rw e (record { nobody_woken = refl; free = ground (arith, e, f); nobody_queued = q })
  | inr e ↦ rw (e, q) (record { nobody_woken = refl; free = f; nobody_queued = refl })
]

pub synced_limiter-HasRoom :
    (limit : ℤ) (o : Option TaskLimiter) → HasSpare limit o → HasRoom (synced_limiter limit o)
unfolding new_task_limiter
synced_limiter-HasRoom limit none h = record {
  nobody_woken = refl;
  free = ground arith;
  nobody_queued = refl;
}
synced_limiter-HasRoom limit (some l) h = set_limit-HasRoom limit l (h.0) (h.1)

abbrev pub one_more : TaskLimiter → TaskLimiter
one_more l = record {
  limit = l.limit;
  active = l.active + 1;
  queue = l.queue;
  granted = l.granted;
  cancel = l.cancel;
}

pub enter-free :
    (w : ℕ) (l : TaskLimiter) → l.active < l.limit → l.queue ≡ [] → enter w l ≡ (one_more l, true)
unfolding enter
enter-free w l f q = choose_true _ _ (both_true _ _ (lt→ltb (l.active) (l.limit) f) (ap is_empty q))
  where
    both_true : (b c : Bool) → b ≡ true → c ≡ true → (b && c) ≡ true
    both_true b c g h = ground arith

module _ (stored : Stored) (x : Transfer) (t : Tracker) (a : Account) where
  and_fits-start : (r : Tracker × Bool) → (and_fits stored x a r).1 ≡ true → r.1 ≡ true
  and_fits-start (u, true) h = refl
  and_fits-start (u, false) h = h

  some_injective : (b : Account) → ◌≡◌ {A = Option Account} (some a) (some b) → a ≡ b
  some_injective b h = cc

  none-some : ◌≡◌ {A = Option Account} (some a) none → ⊥
  none-some h = cc

  both_hold : (b c : Bool) → (b && c) ≡ true → c ≡ true
  both_hold b c h = ground arith

  -- The account that is chosen may start the transfer.
  Chosen-starts :
      (xs : List (Option Account)) → Chosen stored x t xs (some a) → starts stored x t a ≡ true
  Chosen-starts xs (inl (e, n)) = absurd (none-some e)
  Chosen-starts xs (inr (b, e, inl f)) = and_fits-start (quota_may_start stored x a t) (
      subst (λ c. (start_and_fit stored x c t).1 ≡ true) (sym (some_injective b e))
        (both_hold _ _ (f.chosen)))
  Chosen-starts xs (inr (b, e, inr (n, f))) =
      subst (λ c. starts stored x t c ≡ true) (sym (some_injective b e)) (both_hold _ _ (f.chosen))

  pub chosen-reserves :
      starts stored x t a ≡ true
      → (after : Tracker) × (r : Reservation) × (reserve stored
            (key_for x a)
            (limit_for x a)
            (x.size)
            t
          ≡ (after, some r))
  chosen-reserves h = by_answer (reserve stored (key_for x a) (limit_for x a) (x.size) t) refl
    where
      true-false : true ≡ false → ⊥
      true-false f = ground arith

      by_answer :
          (p : Tracker × Option Reservation)
          → reserve stored (key_for x a) (limit_for x a) (x.size) t ≡ p
          → (after : Tracker) × (r : Reservation) × (reserve stored
                (key_for x a)
                (limit_for x a)
                (x.size)
                t
              ≡ (after, some r))
      by_answer (u, some r) e = (u, r, e)
      by_answer (u, none) e = absurd (
          true-false (
            sym ((reserve-may_start stored (key_for x a) (limit_for x a) (x.size) t).0 ∙ h)
            ∙ ap (λ p. is_some (p.1)) e))

  module _ (xs : List (Option Account)) (loaded : All (IsLoaded stored x t) xs) where
    pub choice_made :
        (first_account_for_transfer stored x xs t).1 ≡ some a
        → (first_account_for_transfer stored x xs t ≡ (t, some a)) × (starts stored x t a ≡ true)
    choice_made e =
        let c = first_account_for_transfer-Chosen stored x t xs loaded in
        (pair _ (c.0) e, Chosen-starts xs (subst (Chosen stored x t xs) e (c.1)))
      where
        pair : (r : Tracker × Option Account) → r.0 ≡ t → r.1 ≡ some a → r ≡ (t, some a)
        pair r f g = ap₂ (λ u o. (u, o)) f g

pub put_own :
    (u : Bool) (o : Option TaskLimiter) (ls : Bool → Option TaskLimiter) → put_side u o ls u ≡ o
put_own true o ls = refl
put_own false o ls = refl

module _ (stored : Stored) (x : Transfer) where
  -- Sections of one request, with nothing between them.
  pub data Moves : Scene → Scene → Type 0 where
    done : (a : Scene) → Moves a a
    then : (a b c : Scene) → Move stored x a b → Moves b c → Moves a c

  module _ (xs : List (Option Account)) (a : Account) (s : Service) where
    abbrev pub Choice : Type 0
    Choice = first_account_for_transfer stored x xs (s.quotas) ≡ (s.quotas, some a)

    pub choose-joins : (seen : ℕ) → Choice → choose stored x xs seen s ≡ (s, joining)
    unfolding choose
    choose-joins seen e =
        ap (λ r. (service (s.limiters) (r.0) (s.active_tasks), waits_or_joins xs seen (r.1))) e

    pub choose_again-keeps : Choice → choose_again stored x xs s ≡ ((s, []), chosen a)
    unfolding choose_again
    choose_again-keeps e =
        ap (λ r. keep_or_return (x.is_upload) (r.1) (service (s.limiters) (r.0) (s.active_tasks))) e

  module _ (a : Account) (s : Service) (after : Tracker) (r : Reservation) where
    abbrev made : (Bool → ℕ → ℕ) × Lease
    made = new_lease a (x.is_upload) (some r) (s.active_tasks)

    pub reserve_chosen-leases :
        reserve stored (key_for x a) (limit_for x a) (x.size) (s.quotas) ≡ (after, some r)
        → reserve_chosen stored x a s ≡ ((service (s.limiters) after (made.0), []), leased (made.1))
    unfolding reserve_chosen
    reserve_chosen-leases e =
        ap (λ p. lease_or_return x a (p.1) (service (s.limiters) (p.0) (s.active_tasks))) e
