-- ===== src/Transfer/Schedule/Acquire/Sections.antt =====
-- Each section of a request keeps the books: slots, reserved bytes and counts.
use tdrive.Base.{
  ℕ, suc, ◌+◌, ◌≡◌, refl, sym, ap, ◌∙◌, subst, Bool, true, false, Option, some, List, ◌∷◌, ◌++◌,
  choose_false,
}
use tdrive.Base.Int.{ℤ}
use tdrive.Transfer.Quota.{QuotaKey, Stored}
use tdrive.Transfer.Limiter.{TaskLimiter, enter, give_up}
use tdrive.Transfer.Limiter.Dispatch.{Absent}
use tdrive.Transfer.Schedule.{Account, Transfer, first_account_for_transfer}
use tdrive.Transfer.Schedule.Acquire.{
  Service, service, same_side, put_side, release_slot, synced_limiter, sync_limiter, release_func,
}
use tdrive.Transfer.Schedule.Acquire.Stages.{wake, with_limiter}
use tdrive.Transfer.Schedule.Acquire.Totals.{Accounts, SideIsSound}
use tdrive.Transfer.Schedule.Acquire.Sides.{
  side_slot, on_side, on_limiter, on_woken, synced-SideIsSound, release_func-SideIsSound,
  enters-IsSound, queues-IsSound, gives_up_waiting-IsSound, gives_up_granted-IsSound,
  returns-SideIsSound,
}
use tdrive.Transfer.Schedule.Acquire.Quotas.{first_account_for_transfer-reserved}

pub other_slot : (u v : Bool) → same_side u v ≡ false → side_slot u v ≡ 0
other_slot u v e = choose_false 1 0 e

module _ (s : Service) (woken : Bool → List ℕ) (n : Bool → ℕ) (e : QuotaKey → ℕ) (c : Bool → ℕ → ℕ)
    (h : Accounts s woken n e c) where
  pub sync-Accounts :
      (u : Bool) (limit : ℤ)
      → Accounts (sync_limiter u limit s).0 (wake u (sync_limiter u limit s).1 woken) n e c
  sync-Accounts u limit = record {
    sides =
        on_side (s.limiters) woken n n (h.sides) u (some (synced_limiter limit (s.limiters u)).0)
          (woken u ++ (synced_limiter limit (s.limiters u)).1) (λ v f. refl)
          (synced-SideIsSound limit (s.limiters u) (n u) (woken u) (h.sides u));
    reserved = h.reserved;
    counted = h.counted;
  }

  pub choice-Accounts :
      (stored : Stored) (x : Transfer) (xs : List (Option Account))
      → Accounts
          (service
            (s.limiters)
            (first_account_for_transfer stored x xs (s.quotas)).0
            (s.active_tasks))
          woken
          n
          e
          c
  choice-Accounts stored x xs = record {
    sides = h.sides;
    reserved = λ k.
        ap (λ m. m k) (first_account_for_transfer-reserved stored x xs (s.quotas)) ∙ h.reserved k;
    counted = h.counted;
  }

  -- The slot of a request goes back.
  pub release_slot-Accounts :
      (u : Bool) (m : Bool → ℕ)
      → n u ≡ suc (m u)
      → ((v : Bool) → same_side u v ≡ false → m v ≡ n v)
      → Accounts (release_slot u s).0 (wake u (release_slot u s).1 woken) m e c
  release_slot-Accounts u m one beside = record {
    sides =
        on_side (s.limiters) woken n m (h.sides) u (release_func (s.limiters u)).0
          (woken u ++ (release_func (s.limiters u)).1) beside
          (release_func-SideIsSound (s.limiters u) (m u) (woken u)
            (subst (λ i. SideIsSound (s.limiters u) i (woken u)) one (h.sides u)));
    reserved = h.reserved;
    counted = h.counted;
  }

  module _ (u : Bool) (l : TaskLimiter) (known : s.limiters u ≡ some l) where
    pub enters-Accounts :
        (w : ℕ) (after : TaskLimiter) (m : Bool → ℕ)
        → enter w l ≡ (after, true)
        → m u ≡ n u + 1
        → ((v : Bool) → same_side u v ≡ false → m v ≡ n v)
        → Accounts (with_limiter u after s) woken m e c
    enters-Accounts w after m f one beside = record {
      sides = on_limiter (s.limiters) woken n m (h.sides) u (some after) beside (
          subst (λ i. SideIsSound (some after) i (woken u)) (sym one)
            (enters-IsSound (s.limiters u) l (n u) (woken u) known (h.sides u) w after f));
      reserved = h.reserved;
      counted = h.counted;
    }

    pub queues-Accounts :
        (w : ℕ) (after : TaskLimiter)
        → enter w l ≡ (after, false)
        → Absent w (l.queue)
        → l.granted w ≡ false
        → l.cancel w ≡ false
        → Accounts (with_limiter u after s) woken n e c
    queues-Accounts w after f a g d = record {
      sides =
          on_limiter (s.limiters) woken n n (h.sides) u (some after) (λ v i. refl)
            (queues-IsSound (s.limiters u) l (n u) (woken u) known (h.sides u) w after f a g d);
      reserved = h.reserved;
      counted = h.counted;
    }

    pub gives_up_waiting-Accounts :
        (w : ℕ)
        → l.granted w ≡ false
        → Accounts (with_limiter u (give_up w l).0 s) (wake u (give_up w l).1 woken) n e c
    gives_up_waiting-Accounts w g = record {
      sides =
          on_side (s.limiters) woken n n (h.sides) u (some (give_up w l).0)
            (woken u ++ (give_up w l).1) (λ v i. refl)
            (gives_up_waiting-IsSound (s.limiters u) l (n u) (woken u) known (h.sides u) w g);
      reserved = h.reserved;
      counted = h.counted;
    }

    pub gives_up_granted-Accounts :
        (before : List ℕ) (w : ℕ) (rest : List ℕ)
        → woken u ≡ before ++ w ∷ rest
        → Accounts
            (with_limiter u (give_up w l).0 s)
            (put_side u ((before ++ rest) ++ (give_up w l).1) woken)
            n
            e
            c
    gives_up_granted-Accounts before w rest f = record {
      sides =
          on_side (s.limiters) woken n n (h.sides) u (some (give_up w l).0)
            ((before ++ rest) ++ (give_up w l).1) (λ v i. refl)
            (gives_up_granted-IsSound (s.limiters u) l (n u) (woken u) known (h.sides u) before w
              rest f);
      reserved = h.reserved;
      counted = h.counted;
    }

  pub returns-Accounts :
      (u : Bool) (before : List ℕ) (w : ℕ) (rest : List ℕ) (m : Bool → ℕ)
      → woken u ≡ before ++ w ∷ rest
      → m u ≡ n u + 1
      → ((v : Bool) → same_side u v ≡ false → m v ≡ n v)
      → Accounts s (put_side u (before ++ rest) woken) m e c
  returns-Accounts u before w rest m f one beside = record {
    sides = on_woken (s.limiters) woken n m (h.sides) u (before ++ rest) beside (
        subst (λ i. SideIsSound (s.limiters u) i (before ++ rest)) (sym one)
          (returns-SideIsSound (s.limiters u) (n u) (woken u) before w rest f (h.sides u)));
    reserved = h.reserved;
    counted = h.counted;
  }
