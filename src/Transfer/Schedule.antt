-- ===== src/Transfer/Schedule.antt =====
-- The choice of an account for a transfer: firstAccountForTransfer and hasAvailableAccount of
-- internal/drive/schedule.go over the quotas, with quotaMayStart, quotaFits and directionFor of
-- internal/drive/quota.go. A nil account is `none`; what an account answers to Available and to
-- DailyQuota is given with it.
pub mod Preference
pub mod Acquire
pub mod Examples
use tdrive.Base.{
  ℕ, ◌+◌, Bool, true, false, not, ◌&&◌, ◌||◌, Option, none, some, List, [], ◌∷◌, if◌then◌else◌,
}
use tdrive.Base.Int.{ℤ}
use tdrive.Transfer.Quota.{
  Direction, upload, download, QuotaKey, key_of, Tracker, Stored, Reservation, may_start, fits,
  reserve, quota_limit,
}

pub record Account : Type 0 where
  pub id : ℕ
  pub available : Bool
  pub daily_quota : Bool → Option ℤ

abbrev pub direction_for : Bool → Direction
direction_for is_upload = if is_upload then upload else download

-- What a transfer asks of an account: the direction and the size, and the day on which it asks.
pub record Transfer : Type 0 where
  pub day : ℕ
  pub is_upload : Bool
  pub size : ℤ

-- quotaDate is read again whenever the quotas are asked.
abbrev pub on_day : ℕ → Transfer → Transfer
on_day day x = record { day = day; is_upload = x.is_upload; size = x.size }

abbrev pub key_for : Transfer → Account → QuotaKey
key_for x a = key_of (a.id) (x.day) (direction_for (x.is_upload))

abbrev pub limit_for : Transfer → Account → ℕ
unfolding quota_limit
limit_for x a = quota_limit (a.daily_quota (x.is_upload))

abbrev pub quota_may_start : Stored → Transfer → Account → Tracker → Tracker × Bool
quota_may_start stored x a t = may_start stored (key_for x a) (limit_for x a) (x.size) t

abbrev pub quota_fits : Stored → Transfer → Account → Tracker → Tracker × Bool
quota_fits stored x a t = fits stored (key_for x a) (limit_for x a) (x.size) t

-- `quotaMayStart && quotaFits`: the second test runs only when the first is true.
abbrev pub and_fits : Stored → Transfer → Account → Tracker × Bool → Tracker × Bool
and_fits stored x a (t, true) = quota_fits stored x a t
and_fits stored x a (t, false) = (t, false)

abbrev pub start_and_fit : Stored → Transfer → Account → Tracker → Tracker × Bool
start_and_fit stored x a t = and_fits stored x a (quota_may_start stored x a t)

-- One of the two loops: the first account that is there, available and passes the test.
abbrev pub taken_or :
    Account → Tracker × Bool → (Tracker → Tracker × Option Account) → Tracker × Option Account
taken_or a (t, true) rest = (t, some a)
taken_or a (t, false) rest = rest t

unfoldable pub scan :
    (Account → Tracker → Tracker × Bool)
    → List (Option Account)
    → Tracker
    → Tracker × Option Account
scan test [] t = (t, none)
scan test (none ∷ xs) t = scan test xs t
scan test (some a ∷ xs) t =
    if a.available then taken_or a (test a t) (scan test xs) else scan test xs t

abbrev pub or_else :
    Tracker × Option Account → (Tracker → Tracker × Option Account) → Tracker × Option Account
or_else (t, some a) rest = (t, some a)
or_else (t, none) rest = rest t

unfoldable pub first_account_for_transfer :
    Stored → Transfer → List (Option Account) → Tracker → Tracker × Option Account
first_account_for_transfer stored x accounts t =
    or_else (scan (start_and_fit stored x) accounts t) (scan (quota_may_start stored x) accounts)

unfoldable pub has_available_account : List (Option Account) → Bool
has_available_account [] = false
has_available_account (none ∷ xs) = has_available_account xs
has_available_account (some a ∷ xs) = a.available || has_available_account xs
