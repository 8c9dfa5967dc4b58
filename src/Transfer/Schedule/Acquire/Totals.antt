-- ===== src/Transfer/Schedule/Acquire/Totals.antt =====
-- What the requests and leases of a world hold: slots, reserved bytes, and leases of an account.
use tdrive.Base.{
  ℕ, ◌+◌, ◌≡◌, Bool, Option, none, some, List, [], ◌∷◌, ◌++◌, arith, ◌==◌, if◌then◌else◌,
}
use tdrive.Transfer.Quota.{QuotaKey, same_key, Reservation}
use tdrive.Transfer.Limiter.{TaskLimiter}
use tdrive.Transfer.Limiter.Slots.{IsSound, gate}
use tdrive.Transfer.Schedule.Acquire.{Service, same_side, Lease, Stage, choosing, chosen, leased}
use tdrive.Transfer.Schedule.Acquire.Stages.{Task, World}

abbrev pub lease_slots : Bool → Lease → ℕ
lease_slots v l = if l.released then 0 else if same_side (l.is_upload) v then 1 else 0

-- The slots of a direction that a request of direction `u` holds.
abbrev pub slots : Bool → Bool → Stage → ℕ
slots v u choosing = if same_side u v then 1 else 0
slots v u (chosen a) = if same_side u v then 1 else 0
slots v u (leased l) = lease_slots v l
slots v u st = 0

abbrev pub reservation_bytes : QuotaKey → Option Reservation → ℕ
reservation_bytes k none = 0
reservation_bytes k (some r) =
    if r.committed then 0 else if same_key (r.key) k then r.expected else 0

abbrev pub reserved_bytes : QuotaKey → Stage → ℕ
reserved_bytes k (leased l) = reservation_bytes k (l.quota)
reserved_bytes k st = 0

abbrev pub lease_counts : Bool → ℕ → Lease → ℕ
lease_counts v i l =
    if i == 0
    then 0
    else if l.released
    then 0
    else if same_side (l.is_upload) v
    then (if l.account_id == i then 1 else 0)
    else 0

abbrev pub counts : Bool → ℕ → Stage → ℕ
counts v i (leased l) = lease_counts v i l
counts v i st = 0

abbrev pub sum_by : (Task → ℕ) → List Task → ℕ
sum_by f [] = 0
sum_by f (t ∷ ts) = f t + sum_by f ts

pub sum_by-place :
    (f : Task → ℕ) (before : List Task) (t : Task) (rest : List Task)
    → sum_by f (before ++ t ∷ rest) ≡ f t + (sum_by f before + sum_by f rest)
sum_by-place f [] t rest = omega arith
sum_by-place f (b ∷ bs) t rest = omega (arith, sum_by-place f bs t rest)

-- A direction whose limiter is not made yet has no slot out; otherwise the limiter is sound.
abbrev pub SideIsSound : Option TaskLimiter → ℕ → List ℕ → Type 0
SideIsSound none held woken = (held ≡ 0) × (woken ≡ [])
SideIsSound (some l) held woken = IsSound (gate l held woken)

-- The service accounts for what is held.
pub record Accounts (s : Service) (woken : Bool → List ℕ) (held : Bool → ℕ) (bytes : QuotaKey → ℕ)
    (leases : Bool → ℕ → ℕ) : Type 0 where
  pub sides : (v : Bool) → SideIsSound (s.limiters v) (held v) (woken v)
  pub reserved : (k : QuotaKey) → s.quotas.reserved k ≡ bytes k
  pub counted : (v : Bool) (i : ℕ) → s.active_tasks v i ≡ leases v i

abbrev pub IsAccounted : World → Type 0
IsAccounted a =
    Accounts (a.shared) (a.woken)
      (λ v. sum_by (λ t. slots v (t.transfer.is_upload) (t.stage)) (a.tasks))
      (λ k. sum_by (λ t. reserved_bytes k (t.stage)) (a.tasks))
      (λ v i. sum_by (λ t. counts v i (t.stage)) (a.tasks))
