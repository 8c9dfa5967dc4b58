-- ===== src/Transfer/Schedule/Acquire/Choices.antt =====
-- The choices of a request and its reservation keep the books.
use tdrive.Base.{ℕ, ◌+◌, ◌≡◌, refl, Bool, Option, none, some, List}
use tdrive.Transfer.Quota.{QuotaKey, Tracker, Stored, Reservation, reserve}
use tdrive.Transfer.Schedule.{Account, Transfer, key_for, limit_for, first_account_for_transfer}
use tdrive.Transfer.Schedule.Acquire.{
  Service, service, new_lease, Stage, looking, observed, choosing, chosen, leased, choose,
  keep_or_return, choose_again, lease_or_return, reserve_chosen,
}
use tdrive.Transfer.Schedule.Acquire.Stages.{Scene, scene, waking}
use tdrive.Transfer.Schedule.Acquire.Totals.{reservation_bytes, counts}
use tdrive.Transfer.Schedule.Acquire.Sections.{choice-Accounts, release_slot-Accounts}
use tdrive.Transfer.Schedule.Acquire.Leases.{wake-nobody, grant-Accounts, refusal-Accounts}
use tdrive.Transfer.Schedule.Acquire.Carried.{
  IsIdle, IsHolding, waits_or_joins-IsIdle, stage-IsIdle, Beside, Total, mine, idle, holding,
  from_idle, from_holding, own_more, same_other,
}

pub choosing-IsHolding : IsHolding choosing
choosing-IsHolding u = record { holds = λ v. refl; no_bytes = λ k. refl; no_count = λ v i. refl }

pub chosen-IsHolding : (a : Account) → IsHolding (chosen a)
chosen-IsHolding a u = record { holds = λ v. refl; no_bytes = λ k. refl; no_count = λ v i. refl }

module _ (stored : Stored) (x : Transfer) (n : Bool → ℕ) (e : QuotaKey → ℕ) (c : Bool → ℕ → ℕ) where
  abbrev pub With : Scene → Type 0
  With a = Beside x n e c (a.shared) (a.woken) (a.stage)

  -- Between two stages that hold nothing.
  pub between :
      (s : Service) (woken : Bool → List ℕ) (st later : Stage)
      → IsIdle st
      → IsIdle later
      → With (scene s woken st)
      → With (scene s woken later)
  between s woken st later i j h = idle x n e c s woken later j (from_idle x n e c s woken st i h)

  pub chosen-With :
      (accounts : List (Option Account)) (seen : ℕ) (s : Service) (woken : Bool → List ℕ)
      → With (scene s woken (observed accounts seen))
      → With (scene (choose stored x accounts seen s).0 woken (choose stored x accounts seen s).1)
  unfolding choose
  chosen-With accounts seen s woken h =
      idle x n e c _ woken _ (waits_or_joins-IsIdle accounts seen _) (
        choice-Accounts s woken _ e c
          (from_idle x n e c s woken (observed accounts seen) (stage-IsIdle _ refl) h) stored x
          accounts)

  returned-With :
      (s : Service) (woken : Bool → List ℕ)
      → Total x n e c s woken (mine x n e c)
      → With (waking (x.is_upload) woken (keep_or_return (x.is_upload) none s))
  returned-With s woken h = idle x n e c _ _ looking (stage-IsIdle _ refl) (
      release_slot-Accounts s woken _ e c h (x.is_upload) _ (own_more x n e c) (same_other x n e c))

  kept-With :
      (o : Option Account) (s : Service) (woken : Bool → List ℕ)
      → Total x n e c s woken (mine x n e c)
      → With (waking (x.is_upload) woken (keep_or_return (x.is_upload) o s))
  kept-With none s woken h = returned-With s woken h
  kept-With (some a) s woken h =
      holding x n e c s _ (chosen a) (chosen-IsHolding a)
        (wake-nobody s woken _ e c (x.is_upload) h)

  pub again-With :
      (accounts : List (Option Account)) (s : Service) (woken : Bool → List ℕ)
      → With (scene s woken choosing)
      → With (waking (x.is_upload) woken (choose_again stored x accounts s))
  unfolding choose_again
  again-With accounts s woken h =
      kept-With (first_account_for_transfer stored x accounts (s.quotas)).1 _ woken (
        choice-Accounts s woken _ e c (from_holding x n e c s woken choosing choosing-IsHolding h)
          stored x accounts)

  leased-With :
      (a : Account) (s : Service) (woken : Bool → List ℕ) (after : Tracker) (o : Option Reservation)
      → reserve stored (key_for x a) (limit_for x a) (x.size) (s.quotas) ≡ (after, o)
      → Total x n e c s woken (mine x n e c)
      → With (
          waking
            (x.is_upload)
            woken
            (lease_or_return x a o (service (s.limiters) after (s.active_tasks))))
  unfolding new_lease
  leased-With a s woken after none f h =
      returned-With (service (s.limiters) after (s.active_tasks)) woken
        (refusal-Accounts s woken _ e c h stored x a after f)
  leased-With a s woken after (some r) f h =
      let made = new_lease a (x.is_upload) (some r) (s.active_tasks) in
      wake-nobody (service (s.limiters) after (made.0)) woken (λ v. mine x n e c v + n v)
        (λ k. reservation_bytes k (some r) + e k) (λ v i. counts v i (leased (made.1)) + c v i)
        (x.is_upload) (grant-Accounts s woken _ e c h stored x a after r f)

  pub reserves-With :
      (a : Account) (s : Service) (woken : Bool → List ℕ)
      → With (scene s woken (chosen a))
      → With (waking (x.is_upload) woken (reserve_chosen stored x a s))
  unfolding reserve_chosen
  reserves-With a s woken h =
      leased-With a s woken _ _ refl
        (from_holding x n e c s woken (chosen a) (chosen-IsHolding a) h)
