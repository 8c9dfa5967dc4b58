-- ===== src/Tags/Base32.antt =====
-- nameEnc of internal/tagcodec/tagcodec.go: RFC 4648 base32 without padding, as encoding/base32 has it.
pub mod Packing
use tdrive.Base.{
  ℕ, ◌+◌, ◌-◌, ◌*◌, ◌/◌, ◌%◌, Bool, true, false, ◌&&◌, ◌||◌, Option, none, some, List, [], ◌∷◌, ltb,
  leb, ◌==◌, if◌then◌else◌, map,
}
use tdrive.Names.Path.{Text}
use tdrive.Tags.Utf8.{between}

-- The digits that begin in the first to the fifth byte of a group; a byte and its follower.
abbrev pub digit_2 : ℕ → ℕ → ℕ
digit_2 a b = a % 8 * 4 + b / 64

abbrev pub digit_4 : ℕ → ℕ → ℕ
digit_4 b c = b % 2 * 16 + c / 16

abbrev pub digit_5 : ℕ → ℕ → ℕ
digit_5 c d = c % 16 * 2 + d / 128

abbrev pub digit_7 : ℕ → ℕ → ℕ
digit_7 d e = d % 4 * 8 + e / 32

-- Five bytes in eight digits of five bits; what is left over in as many as it needs.
unfoldable pub pack : List ℕ → List ℕ
pack [] = []
pack (a ∷ []) = (a / 8) ∷ digit_2 a 0 ∷ []
pack (a ∷ b ∷ []) = (a / 8) ∷ digit_2 a b ∷ (b / 2 % 32) ∷ digit_4 b 0 ∷ []
pack (a ∷ b ∷ c ∷ []) = (a / 8) ∷ digit_2 a b ∷ (b / 2 % 32) ∷ digit_4 b c ∷ digit_5 c 0 ∷ []
pack (a ∷ b ∷ c ∷ d ∷ []) =
    (a / 8)
    ∷ digit_2 a b
    ∷ (b / 2 % 32)
    ∷ digit_4 b c
    ∷ digit_5 c d
    ∷ (d / 4 % 32)
    ∷ digit_7 d 0
    ∷ []
pack (a ∷ b ∷ c ∷ d ∷ e ∷ rest) =
    (a / 8)
    ∷ digit_2 a b
    ∷ (b / 2 % 32)
    ∷ digit_4 b c
    ∷ digit_5 c d
    ∷ (d / 4 % 32)
    ∷ digit_7 d e
    ∷ (e % 32)
    ∷ pack rest

abbrev pub byte_1 : ℕ → ℕ → ℕ
byte_1 p q = p * 8 + q / 4

abbrev pub byte_2 : ℕ → ℕ → ℕ → ℕ
byte_2 q r s = q % 4 * 64 + r * 2 + s / 16

abbrev pub byte_3 : ℕ → ℕ → ℕ
byte_3 s t = s % 16 * 16 + t / 2

abbrev pub byte_4 : ℕ → ℕ → ℕ → ℕ
byte_4 t u v = t % 2 * 128 + u * 4 + v / 8

abbrev pub byte_5 : ℕ → ℕ → ℕ
byte_5 v w = v % 8 * 32 + w

-- The bytes of the digits; a last group of one, three or six digits gives none.
unfoldable pub unpack : List ℕ → List ℕ
unpack [] = []
unpack (p ∷ []) = []
unpack (p ∷ q ∷ []) = byte_1 p q ∷ []
unpack (p ∷ q ∷ r ∷ []) = []
unpack (p ∷ q ∷ r ∷ s ∷ []) = byte_1 p q ∷ byte_2 q r s ∷ []
unpack (p ∷ q ∷ r ∷ s ∷ t ∷ []) = byte_1 p q ∷ byte_2 q r s ∷ byte_3 s t ∷ []
unpack (p ∷ q ∷ r ∷ s ∷ t ∷ u ∷ []) = []
unpack (p ∷ q ∷ r ∷ s ∷ t ∷ u ∷ v ∷ []) = byte_1 p q ∷ byte_2 q r s ∷ byte_3 s t ∷ byte_4 t u v ∷ []
unpack (p ∷ q ∷ r ∷ s ∷ t ∷ u ∷ v ∷ w ∷ rest) =
    byte_1 p q ∷ byte_2 q r s ∷ byte_3 s t ∷ byte_4 t u v ∷ byte_5 v w ∷ unpack rest

-- The alphabet A-Z, 2-7.
abbrev pub letter : ℕ → ℕ
letter n = if ltb n 26 then 65 + n else 24 + n

abbrev pub digit_of : ℕ → Option ℕ
digit_of c =
    if between 65 90 c then some (c - 65) else if between 50 55 c then some (c - 24) else none

abbrev pub with_digit : Option ℕ → Option (List ℕ) → Option (List ℕ)
with_digit none rest = none
with_digit (some n) none = none
with_digit (some n) (some ns) = some (n ∷ ns)

-- A character that is none of the alphabet is an error, but line ends are skipped.
unfoldable pub digits_of : Text → Option (List ℕ)
digits_of [] = some []
digits_of (c ∷ cs) =
    let rest = digits_of cs in if c == 10 || c == 13 then rest else with_digit (digit_of c) rest

abbrev pub bytes_of : Option (List ℕ) → Option (List ℕ)
bytes_of none = none
bytes_of (some ns) = some (unpack ns)

unfoldable pub encode_bytes : List ℕ → Text
encode_bytes bytes = map letter (pack bytes)

unfoldable pub decode_bytes : Text → Option (List ℕ)
decode_bytes t = bytes_of (digits_of t)
