-- ===== src/Transfer/Quota/Admission.antt =====
-- mayStart, fits and reserve agree, and what the settings page shows agrees with them.
use tdrive.Base.{
  ℕ, ◌-◌, ◌≡◌, sym, ◌∙◌, Bool, true, false, ◌&&◌, ◌||◌, Option, none, some, arith, ltb, leb, ◌==◌,
  if◌then◌else◌,
}
use tdrive.Base.Int.{ℤ, pos, pos_part, leb_ℤ}
use tdrive.Transfer.Quota.{
  QuotaKey, Tracker, Stored, is_full, ensure_loaded, may_start, fits, reserve,
  quota_direction_status,
}

abbrev pub is_some {ℓ} : {A : Type ℓ} → Option A → Bool
is_some none = false
is_some (some a) = true

abbrev answer : ℕ → ℕ → ℕ → ℕ → Bool
answer limit size used reserved =
    if ltb 0 limit && ltb 0 size
    then (if is_full limit used reserved
        then false
        else leb size (limit - used - reserved) || (reserved == 0))
    else true

module _ (stored : Stored) (key : QuotaKey) (limit : ℕ) (size : ℤ) (t : Tracker) where
  abbrev loaded_tracker : Tracker
  loaded_tracker = ensure_loaded stored (key.account_id) (key.date) t

  may_start-answer :
      (may_start stored key limit size t).1
      ≡ answer limit (pos_part size) (loaded_tracker.used key) (loaded_tracker.reserved key)
  unfolding may_start
  may_start-answer = ground arith

  reserve-answer :
      is_some (reserve stored key limit size t).1
      ≡ answer limit (pos_part size) (loaded_tracker.used key) (loaded_tracker.reserved key)
  unfolding reserve
  reserve-answer = ground arith

-- The bytes that the settings page shows as remaining, 0 when it shows none.
abbrev pub shown_remaining : ℕ → QuotaKey → Tracker → ℕ
unfolding quota_direction_status
shown_remaining limit key t =
    pos_part ((quota_direction_status limit (t.used key) (t.reserved key)).remaining)

-- On one tracker, reserve succeeds exactly when mayStart says so; fits never says so when mayStart does
-- not; and fits says whether the size is at most the remaining bytes that the settings page shows, or
-- is not positive, or there is no limit.
pub reserve-may_start :
    (stored : Stored) (key : QuotaKey) (limit : ℕ) (size : ℤ) (t : Tracker)
    → (is_some (reserve stored key limit size t).1 ≡ (may_start stored key limit size t).1)
      × (((fits stored key limit size t).1 || (may_start stored key limit size t).1)
          ≡ (may_start stored key limit size t).1)
      × ((fits stored key limit size t).1 ≡ (
          leb_ℤ size (pos 0)
          || leb limit 0
          || leb (pos_part size) (shown_remaining limit key (fits stored key limit size t).0)))
unfolding fits may_start shown_remaining quota_direction_status
reserve-may_start stored key limit size t = (
  reserve-answer stored key limit size t ∙ sym (may_start-answer stored key limit size t),
  ground arith,
  ground arith,
)

-- On a day that is loaded, the tests leave the tracker as it is.
module _ (stored : Stored) (key : QuotaKey) (limit : ℕ) (size : ℤ) (t : Tracker) where
  pub may_start-loaded :
      t.loaded (key.account_id) (key.date) ≡ true → (may_start stored key limit size t).0 ≡ t
  unfolding may_start ensure_loaded
  may_start-loaded h = ground (arith, h)

  pub fits-loaded :
      t.loaded (key.account_id) (key.date) ≡ true → (fits stored key limit size t).0 ≡ t
  unfolding fits ensure_loaded
  fits-loaded h = ground (arith, h)
