-- ===== src/Api/Range/Examples.antt =====
-- Headers that a client sends.
use tdrive.Base.{◌≡◌, refl, [], ◌∷◌, ◌++◌, arith}
use tdrive.Names.Path.{Text}
use tdrive.Api.Range.{
  bytes_unit, refused, part, whole, suffix, starting, ending, parse_int, parse_range,
}
use tdrive.Api.Range.Within.{IsWithin, parse_range-IsWithin}

-- "bytes=1-9"
abbrev one_to_nine : Text
one_to_nine = bytes_unit ++ 49 ∷ 45 ∷ 57 ∷ []

-- "bytes= -2 , 0-1"
abbrev last_two : Text
last_two = bytes_unit ++ 32 ∷ 45 ∷ 50 ∷ 32 ∷ 44 ∷ 32 ∷ 48 ∷ 45 ∷ 49 ∷ []

cut_off : parse_range one_to_nine 5 ≡ part 1 4
unfolding parse_range starting ending parse_int
cut_off = refl

from_the_end : parse_range last_two 5 ≡ part 3 4
unfolding parse_range suffix parse_int
from_the_end = refl

-- "bytes=1-9" of one byte
past_the_end : parse_range one_to_nine 1 ≡ refused
unfolding parse_range starting parse_int
past_the_end = refl

-- "items=1"
other_unit : parse_range (105 ∷ 116 ∷ 101 ∷ 109 ∷ 115 ∷ 61 ∷ 49 ∷ []) 5 ≡ whole 5
unfolding parse_range
other_unit = refl

parse_range-IsWithin_example : IsWithin 5 (parse_range one_to_nine 5)
parse_range-IsWithin_example = parse_range-IsWithin 5 (omega arith) one_to_nine
