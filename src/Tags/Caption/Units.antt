-- ===== src/Tags/Caption/Units.antt =====
-- Lengths in UTF-16 units.
use tdrive.Base.{ℕ, ◌+◌, ◌-◌, ◌≤◌, ◌≡◌, [], ◌∷◌, ◌++◌, arith}
use tdrive.Names.Path.{Text}
use tdrive.Tags.Caption.{units, utf16_len, cut_utf16, truncate_utf16}

pub utf16_len-append : (s t : Text) → utf16_len (s ++ t) ≡ utf16_len s + utf16_len t
unfolding utf16_len
utf16_len-append [] t = omega arith
utf16_len-append (c ∷ cs) t = omega (arith, utf16_len-append cs t)

cut_utf16-le : (n : ℕ) (s : Text) → utf16_len (cut_utf16 n s) ≤ n
unfolding utf16_len cut_utf16
cut_utf16-le n [] = omega arith
cut_utf16-le n (c ∷ cs) = let ih = cut_utf16-le (n - units c) cs in ground arith

pub truncate_utf16-le : (s : Text) (n : ℕ) → utf16_len (truncate_utf16 s n) ≤ n
unfolding truncate_utf16
truncate_utf16-le s n = let k = cut_utf16-le n s in ground arith
