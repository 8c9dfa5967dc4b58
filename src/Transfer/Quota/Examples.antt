-- ===== src/Transfer/Quota/Examples.antt =====
-- One account with a limit of ten bytes a day.
use tdrive.Base.{ℕ, ◌≡◌, refl, inl, true, false, some, [], ◌∷◌, arith, ◌||◌, leb}
use tdrive.Base.Int.{ℤ, pos, leb_ℤ}
use tdrive.Transfer.Quota.{
  upload, QuotaKey, key_of, Tracker, Stored, Reservation, new_reservation, claim, ensure_loaded,
  may_start, fits, reserve, commit,
}
use tdrive.Transfer.Quota.Ledger.{Desk, desk, granted, released, Steps, stop, next, IsBalanced}
use tdrive.Transfer.Quota.Admission.{is_some, shown_remaining, reserve-may_start}
use tdrive.Transfer.Quota.Crossing.{AtMostExpected, IsBounded}
use tdrive.Transfer.Quota.Boundary.{steps-IsBounded}

abbrev today : QuotaKey
today = key_of 1 20 upload

abbrev empty_db : Stored
empty_db = λ account day. some (0, 0)

abbrev fresh : Tracker
fresh = record { used = λ k. 0; reserved = λ k. 0; loaded = λ a d. true; generation = 0 }

abbrev ten_a_day : QuotaKey → ℕ
ten_a_day = λ k. 10

-- 25 bytes cross the boundary, and the next content waits.
crossing : (reserve empty_db today 10 (pos 25) fresh).1 ≡ some (new_reservation today 25)
unfolding reserve ensure_loaded
crossing = refl

waiting : (may_start empty_db today 10 (pos 1) (claim today 25 fresh)).1 ≡ false
unfolding may_start ensure_loaded
waiting = refl

abbrev taken : Desk
taken = desk (claim today 25 fresh) (new_reservation today 25 ∷ [])

abbrev returned : Desk
returned = desk (commit (new_reservation today 25) (claim today 25 fresh)).1.0 []

abbrev morning :
    (reports : ℤ → Reservation → Type 0) → Steps empty_db ten_a_day reports (desk fresh []) returned
unfolding reserve ensure_loaded
morning reports =
    next (desk fresh []) taken returned
      (granted today (pos 25) fresh (claim today 25 fresh) (new_reservation today 25) [] refl)
      (next taken returned returned
        (released (claim today 25 fresh) [] (new_reservation today 25) []) (stop returned))

fresh-IsBalanced : IsBalanced (desk fresh [])
fresh-IsBalanced = record { balanced = λ k. refl; all_open = tt }

fresh-IsBounded : IsBounded 10 today (desk fresh [])
fresh-IsBounded = record {
  ledger = fresh-IsBalanced;
  day_loaded = refl;
  honest = tt;
  one_crossing = inl (omega arith);
}

steps-IsBounded_example : IsBounded 10 today returned
steps-IsBounded_example =
    steps-IsBounded empty_db ten_a_day today (omega arith) (desk fresh []) returned fresh-IsBounded
      (morning AtMostExpected)

reserve-may_start_example :
    (is_some (reserve empty_db today 10 (pos 4) fresh).1
      ≡ (may_start empty_db today 10 (pos 4) fresh).1)
    × (((fits empty_db today 10 (pos 4) fresh).1 || (may_start empty_db today 10 (pos 4) fresh).1)
        ≡ (may_start empty_db today 10 (pos 4) fresh).1)
    × ((fits empty_db today 10 (pos 4) fresh).1 ≡ (
        leb_ℤ (pos 4) (pos 0)
        || leb 10 0
        || leb 4 (shown_remaining 10 today (fits empty_db today 10 (pos 4) fresh).0)))
reserve-may_start_example = reserve-may_start empty_db today 10 (pos 4) fresh
