-- ===== src/Upload/Mask/Examples.antt =====
-- Ten segments: two bytes.
use tdrive.Base.{ℕ, ◌≡◌, refl, ◌||◌, List, [], ◌∷◌, arith, ◌==◌}
use tdrive.Upload.Mask.{new_mask, mask_has, grow, or_at, mask_set}
use tdrive.Upload.Mask.Membership.{IsBytes, mask_has-mask_set}

abbrev ninth : List ℕ
unfolding new_mask mask_set grow or_at
ninth = mask_set (new_mask 10) 9

ninth_bytes : ninth ≡ 0 ∷ 1 ∷ []
unfolding new_mask mask_set grow or_at
ninth_bytes = refl

mask_has-mask_set_example :
    (mask_has (mask_set (5 ∷ []) 10) 3 ≡ (10 == 3 || mask_has (5 ∷ []) 3))
    × IsBytes (mask_set (5 ∷ []) 10)
mask_has-mask_set_example = mask_has-mask_set (5 ∷ []) 10 3 (omega arith, tt) (omega arith)
