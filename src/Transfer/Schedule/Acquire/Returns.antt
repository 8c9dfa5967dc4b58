-- ===== src/Transfer/Schedule/Acquire/Returns.antt =====
-- acquire returns a lease when nothing disturbs it and there is a slot and an account.
use tdrive.Base.{ℕ, ◌≡◌, Bool, false, List}
use tdrive.Transfer.Quota.{Stored}
use tdrive.Transfer.Schedule.{Account, Transfer}
use tdrive.Transfer.Schedule.Acquire.{Service, Lease, leased}
use tdrive.Transfer.Schedule.Acquire.Stages.{Scene, scene}
use tdrive.Transfer.Schedule.Acquire.Undisturbed.{Moves}

-- What the caller gets: a lease of this account, for this transfer, not released.
pub record IsLeaseFor (x : Transfer) (a : Account) (d : Lease) : Type 0 where
  of_account : d.account_id ≡ a.id
  of_side : d.is_upload ≡ x.is_upload
  not_released : d.released ≡ false

abbrev pub Returns : Stored → Transfer → Account → Scene → Type 0
Returns stored x a start =
    (d : Lease) × (t : Service) × (v : Bool → List ℕ) × Moves stored x start (scene t v (leased d))
    × IsLeaseFor x a d

module _ (stored : Stored) (x : Transfer) (a : Account) where
  abbrev u : Bool
  u = x.is_upload
