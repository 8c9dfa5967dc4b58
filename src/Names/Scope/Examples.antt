-- ===== src/Names/Scope/Examples.antt =====
-- An account whose scope is "/b".
use tdrive.Base.{
  ℕ, ◌≡◌, refl, true, false, none, some, List, [], ◌∷◌, ok, err, ◌<◌, ◌≤◌, ◌+◌, arith, All,
}
use tdrive.Names.Path.{Text, validate_name, split_path, path_clean, clean_path}
use tdrive.Names.Scope.{
  Scope, Entry, scope_of, to_real, to_visible, contains, check_quota, found, quota_exceeded,
}
use tdrive.Names.Scope.Confinement.{to_visible-to_real}
use tdrive.Names.Scope.Returning.{to_real-to_visible}
use tdrive.Base.Int.{pos}
use tdrive.Names.Scope.Quota.{used_after, check_quota-keeps}

abbrev below_b : Scope
below_b = record { scope_root = 47 ∷ 98 ∷ [] }

-- "../c"
abbrev climbing : Text
climbing = 46 ∷ 46 ∷ 47 ∷ 99 ∷ []

abbrev b_c : Text
b_c = 47 ∷ 98 ∷ 47 ∷ 99 ∷ []

stays_below : to_real below_b climbing ≡ ok b_c
unfolding to_real clean_path path_clean split_path validate_name
stays_below = refl

outside : to_visible below_b (47 ∷ 98 ∷ 99 ∷ []) ≡ none
unfolding to_visible
outside = refl

to_visible-to_real_example :
    (c : Text) × (clean_path climbing ≡ ok c)
    × (to_visible below_b b_c ≡ some c)
    × (contains below_b b_c ≡ true)
to_visible-to_real_example = to_visible-to_real below_b climbing b_c stays_below

-- "/a" in the drive
abbrev foreign : List (Entry ℕ)
foreign = record { path = 47 ∷ 97 ∷ []; about = 1 } ∷ []

-- "/c" below the scope
abbrev own : List (Entry ℕ)
own = record { path = 47 ∷ 99 ∷ []; about = 2 } ∷ []

foreign_hidden : contains below_b (47 ∷ 97 ∷ []) ≡ false
unfolding contains to_visible
foreign_hidden = refl

check_quota-keeps_example :
    ((sizes : List ℕ) → All (λ a. 5 + a < 9223372036854775808) sizes → used_after 5 3 sizes ≤ 5)
    × ((a : ℕ)
        → a < 9223372036854775808
        → 9223372036854775808 ≤ 3 + a
        → check_quota false (pos a) (found (pos 5)) (some 3) ≡ ok tt)
check_quota-keeps_example = check_quota-keeps 5 3 (omega arith) (omega arith) (omega arith)

too_much : check_quota false (pos 3) (found (pos 5)) (some 3) ≡ err quota_exceeded
unfolding check_quota
too_much = refl

second_refused : used_after 5 0 (3 ∷ 3 ∷ 2 ∷ []) ≡ 5
unfolding check_quota used_after
second_refused = refl

b_c_fixed : clean_path b_c ≡ ok b_c
unfolding clean_path path_clean split_path validate_name
b_c_fixed = refl

seen_as_c : to_visible (scope_of false (47 ∷ 98 ∷ [])) b_c ≡ some (47 ∷ 99 ∷ [])
unfolding scope_of to_visible clean_path path_clean split_path validate_name
seen_as_c = refl

to_real-to_visible_example : to_real (scope_of false (47 ∷ 98 ∷ [])) (47 ∷ 99 ∷ []) ≡ ok b_c
to_real-to_visible_example =
    to_real-to_visible false (47 ∷ 98 ∷ []) b_c b_c (47 ∷ 99 ∷ []) b_c_fixed seen_as_c
