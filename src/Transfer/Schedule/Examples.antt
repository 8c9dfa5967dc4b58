-- ===== src/Transfer/Schedule/Examples.antt =====
-- A primary account that has used its quota up, and a backup.
use tdrive.Base.{◌≡◌, refl, true, Option, none, some, List, [], ◌∷◌}
use tdrive.Base.Int.{pos}
use tdrive.Transfer.Quota.{Tracker, Stored, ensure_loaded, may_start, fits, quota_limit}
use tdrive.Transfer.Schedule.{
  Account, Transfer, scan, first_account_for_transfer, has_available_account,
}
use tdrive.Transfer.Schedule.Preference.{Chosen, first_account_for_transfer-Chosen}

abbrev pub primary : Account
primary = record { id = 1; available = true; daily_quota = λ u. some (pos 3) }

abbrev pub backup : Account
backup = record { id = 2; available = true; daily_quota = λ u. none }

abbrev pub both : List (Option Account)
both = some primary ∷ none ∷ some backup ∷ []

abbrev pub content : Transfer
content = record { day = 20; is_upload = true; size = pos 5 }

abbrev pub empty_db : Stored
empty_db = λ account day. some (0, 0)

abbrev pub unused : Tracker
unused = record { used = λ k. 0; reserved = λ k. 0; loaded = λ a d. true; generation = 0 }

-- Five bytes would cross the primary's quota of three.
backup_chosen : (first_account_for_transfer empty_db content both unused).1 ≡ some backup
unfolding first_account_for_transfer scan may_start fits ensure_loaded quota_limit
backup_chosen = refl

somebody : has_available_account both ≡ true
unfolding has_available_account
somebody = refl

first_account_for_transfer-Chosen_example :
    ((first_account_for_transfer empty_db content both unused).0 ≡ unused)
    × Chosen empty_db content unused both
        (first_account_for_transfer empty_db content both unused).1
first_account_for_transfer-Chosen_example =
    first_account_for_transfer-Chosen empty_db content unused both (refl, (tt, (refl, tt)))
