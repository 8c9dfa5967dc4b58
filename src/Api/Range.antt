-- ===== src/Api/Range.antt =====
-- parseRange of internal/api/stream.go, for a size of at least 0. A header is its list of code
-- points; TrimSpace, CutPrefix, IndexByte, Cut and ParseInt are the standard library's.
pub mod Within
pub mod Examples
use tdrive.Base.{
  ℕ, ◌+◌, ◌-◌, ◌*◌, ◌==◌, Bool, true, false, ◌&&◌, ◌||◌, Option, none, some, List, [], ◌∷◌, ◌++◌,
  ltb, leb, if◌then◌else◌,
}
use tdrive.Base.Int.{ℤ, pos, negsuc}
use tdrive.Access.Perms.{trim_space}
use tdrive.Names.Path.{Text, text_eq, has_prefix}

-- The text without a prefix, if it has it.
abbrev pub cut_prefix : Text → Text → Option Text
cut_prefix [] s = some s
cut_prefix (x ∷ xs) [] = none
cut_prefix (x ∷ xs) (y ∷ ys) = if x == y then cut_prefix xs ys else none

abbrev pub up_to : ℕ → Text → Text
up_to sep [] = []
up_to sep (c ∷ cs) = if c == sep then [] else c ∷ up_to sep cs

abbrev pub after_first : ℕ → Text → Option Text
after_first sep [] = none
after_first sep (c ∷ cs) = if c == sep then some cs else after_first sep cs

-- The value of the digits, after the value of those before them.
abbrev pub digits : ℕ → Text → Option ℕ
digits n [] = some n
digits n (c ∷ cs) = if leb 48 c && leb c 57 then digits (n * 10 + (c - 48)) cs else none

abbrev pub unsigned : Text → Option ℕ
unsigned [] = none
unsigned (c ∷ cs) = digits 0 (c ∷ cs)

abbrev pub max_int64 : ℕ
max_int64 = 9223372036854775807

abbrev pub positive : Option ℕ → Option ℤ
positive none = none
positive (some n) = if leb n max_int64 then some (pos n) else none

abbrev pub minus : ℕ → ℤ
minus n = if n == 0 then pos 0 else negsuc (n - 1)

abbrev pub negative : Option ℕ → Option ℤ
negative none = none
negative (some n) = if leb n (max_int64 + 1) then some (minus n) else none

-- strconv.ParseInt in base 10 and 64 bits
unfoldable pub parse_int : Text → Option ℤ
parse_int [] = none
parse_int (c ∷ cs) =
    if c == 45
    then negative (unsigned cs)
    else if c == 43
    then positive (unsigned cs)
    else positive (unsigned (c ∷ cs))

pub record Answer : Type 0 where
  pub start : ℕ
  pub end : ℕ
  pub ranged : Bool
  pub is_ok : Bool

abbrev pub refused : Answer
refused = record { start = 0; end = 0; ranged = false; is_ok = false }

abbrev pub whole : ℕ → Answer
whole size = record { start = 0; end = size - 1; ranged = false; is_ok = true }

abbrev pub part : ℕ → ℕ → Answer
part start end = record { start = start; end = end; ranged = true; is_ok = true }

-- "-n": the last n bytes.
unfoldable pub suffix : ℕ → Option ℤ → Answer
suffix size none = refused
suffix size (some (negsuc n)) = refused
suffix size (some (pos n)) =
    if leb n 0 then refused else part (size - (if ltb size n then size else n)) (size - 1)

unfoldable pub ending : ℕ → ℕ → Option ℤ → Answer
ending size start none = refused
ending size start (some (negsuc e)) = refused
ending size start (some (pos e)) =
    if ltb e start then refused else part start (if ltb (size - 1) e then size - 1 else e)

abbrev pub ended : ℕ → ℕ → Text → Answer
ended size start [] = part start (size - 1)
ended size start (c ∷ cs) = ending size start (parse_int (c ∷ cs))

unfoldable pub starting : ℕ → Text → Option ℤ → Answer
starting size after none = refused
starting size after (some (negsuc n)) = refused
starting size after (some (pos start)) = if leb size start then refused else ended size start after

abbrev pub forms : ℕ → Text → Text → Answer
forms size [] [] = refused
forms size [] (c ∷ cs) = suffix size (parse_int (c ∷ cs))
forms size (b ∷ bs) after = starting size after (parse_int (b ∷ bs))

abbrev pub cut_at_dash : ℕ → Text → Option Text → Answer
cut_at_dash size spec none = refused
cut_at_dash size spec (some after) = forms size (trim_space (up_to 45 spec)) (trim_space after)

abbrev pub first_range : ℕ → Text → Answer
first_range size spec = cut_at_dash size spec (after_first 45 spec)

-- "bytes="
abbrev pub bytes_unit : Text
bytes_unit = 98 ∷ 121 ∷ 116 ∷ 101 ∷ 115 ∷ 61 ∷ []

abbrev pub of_unit : ℕ → Option Text → Answer
of_unit size none = whole size
of_unit size (some spec) = first_range size (trim_space (up_to 44 spec))

unfoldable pub parse_range : Text → ℕ → Answer
parse_range header size =
    if text_eq header [] || size == 0
    then whole size
    else of_unit size (cut_prefix bytes_unit (trim_space header))
