-- ===== src/Tags/Utf8.antt =====
-- []byte of a Go string and string of bytes, for tagcodec's names. A string is the list of its code
-- points; a byte that begins no valid sequence reads as U+FFFD, as it does when Go ranges over it.
pub mod Decoding
use tdrive.Base.{
  ℕ, zero, suc, ◌+◌, ◌-◌, ◌*◌, ◌/◌, ◌%◌, Bool, true, false, ◌&&◌, ◌||◌, List, [], ◌∷◌, ◌++◌, ltb,
  leb, ◌==◌, if◌then◌else◌,
}
use tdrive.Names.Path.{Text}

abbrev pub continuation : ℕ → ℕ
continuation n = 128 + n % 64

-- A code point that is a character: no surrogate, and none beyond U+10FFFF.
abbrev pub is_rune : ℕ → Bool
is_rune c = ltb c 55296 || (leb 57344 c && ltb c 1114112)

-- The code points of a valid string.
abbrev pub is_text : Text → Bool
is_text [] = true
is_text (c ∷ cs) = is_rune c && is_text cs

abbrev pub rune_bytes : ℕ → List ℕ
rune_bytes c =
    if ltb c 128
    then c ∷ []
    else if ltb c 2048
    then (192 + c / 64) ∷ continuation c ∷ []
    else if ltb c 65536
    then (224 + c / 4096) ∷ continuation (c / 64) ∷ continuation c ∷ []
    else (240 + c / 262144) ∷ continuation (c / 4096) ∷ continuation (c / 64) ∷ continuation c ∷ []

-- What is no character is written as U+FFFD.
abbrev pub utf8_rune : ℕ → List ℕ
utf8_rune c = if is_rune c then rune_bytes c else 239 ∷ 191 ∷ 189 ∷ []

unfoldable pub utf8 : Text → List ℕ
utf8 [] = []
utf8 (c ∷ cs) = utf8_rune c ++ utf8 cs

abbrev pub between : ℕ → ℕ → ℕ → Bool
between low high b = leb low b && leb b high

abbrev pub replacement : ℕ × ℕ
replacement = (65533, 1)

abbrev pub two_bytes : ℕ → List ℕ → ℕ × ℕ
two_bytes a [] = replacement
two_bytes a (b ∷ bs) = if between 128 191 b then ((a - 192) * 64 + (b - 128), 2) else replacement

-- The second byte of a longer sequence has bounds of its own: no value in too many bytes, no
-- surrogate, and none beyond U+10FFFF.
abbrev pub three_bytes : ℕ → List ℕ → ℕ × ℕ
three_bytes a [] = replacement
three_bytes a (b ∷ []) = replacement
three_bytes a (b ∷ c ∷ cs) =
    let low = if a == 224 then 160 else 128 in
    let high = if a == 237 then 159 else 191 in
    if between low high b && between 128 191 c
    then ((a - 224) * 4096 + (b - 128) * 64 + (c - 128), 3)
    else replacement

abbrev pub four_bytes : ℕ → List ℕ → ℕ × ℕ
four_bytes a [] = replacement
four_bytes a (b ∷ []) = replacement
four_bytes a (b ∷ c ∷ []) = replacement
four_bytes a (b ∷ c ∷ d ∷ ds) =
    let low = if a == 240 then 144 else 128 in
    let high = if a == 244 then 143 else 191 in
    if between low high b && between 128 191 c && between 128 191 d
    then ((a - 240) * 262144 + (b - 128) * 4096 + (c - 128) * 64 + (d - 128), 4)
    else replacement

-- utf8.DecodeRune: the first code point, and the bytes that it takes.
abbrev pub first_rune : ℕ → List ℕ → ℕ × ℕ
first_rune a bs =
    if ltb a 128
    then (a, 1)
    else if between 194 223 a
    then two_bytes a bs
    else if between 224 239 a
    then three_bytes a bs
    else if between 240 244 a
    then four_bytes a bs
    else replacement

-- The bytes after as many as belong to the code point before.
unfoldable pub runes_from : ℕ → List ℕ → Text
runes_from skip [] = []
runes_from zero (a ∷ bs) = (first_rune a bs).0 ∷ runes_from ((first_rune a bs).1 - 1) bs
runes_from (suc skip) (a ∷ bs) = runes_from skip bs

abbrev pub runes : List ℕ → Text
runes bytes = runes_from 0 bytes
