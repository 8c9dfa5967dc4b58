-- ===== src/Names/Path.antt =====
-- internal/drive/path.go. A path is the list of its code points; a string of the source that is not
-- valid UTF-8 has no counterpart here. path.Clean, of a rooted path, is the lexical rule that the
-- standard library documents: empty and "." components go, ".." takes the one before it away.
pub mod Splitting
pub mod Canonical
pub mod Components
pub mod Parents
pub mod Depth
pub mod Equal
pub mod Inside
pub mod Examples
use tdrive.Base.{
  ℕ, zero, suc, ◌+◌, Bool, true, false, not, ◌&&◌, ◌||◌, List, [], ◌∷◌, ◌++◌, ltb, leb, ◌==◌,
  if◌then◌else◌, Option, none, some, Result, ok, err, ◌>>=◌,
}

abbrev pub Text : Type 0
Text = List ℕ

abbrev pub slash : ℕ
slash = 47

abbrev pub dot : ℕ
dot = 46

abbrev pub max_name_bytes : ℕ
max_name_bytes = 255

abbrev pub root : Text
root = slash ∷ []

abbrev pub text_eq : Text → Text → Bool
text_eq [] [] = true
text_eq (x ∷ xs) (y ∷ ys) = (x == y) && text_eq xs ys
text_eq [] (y ∷ ys) = false
text_eq (x ∷ xs) [] = false

abbrev pub has_prefix : Text → Text → Bool
has_prefix [] s = true
has_prefix (x ∷ xs) [] = false
has_prefix (x ∷ xs) (y ∷ ys) = (x == y) && has_prefix xs ys

abbrev pub contains_rune : ℕ → Text → Bool
contains_rune r [] = false
contains_rune r (x ∷ xs) = (x == r) || contains_rune r xs

-- The bytes of a code point in UTF-8, and `len` of a string.
abbrev pub rune_len : ℕ → ℕ
rune_len r = if ltb r 128 then 1 else if ltb r 2048 then 2 else if ltb r 65536 then 3 else 4

abbrev pub byte_len : Text → ℕ
byte_len [] = 0
byte_len (x ∷ xs) = rune_len x + byte_len xs

pub data PathReason : Type 0 where
  nul_byte : PathReason
  escapes_root : PathReason
  empty_name : PathReason
  reserved_name : PathReason
  has_slash : PathReason
  too_long : PathReason
  control_character : PathReason

-- `unicode.IsControl` is true of 0 to 31 and 127 to 159.
abbrev pub is_control : ℕ → Bool
is_control r = ltb r 32 || (leb 127 r && ltb r 160)

abbrev pub any_control : Text → Bool
any_control [] = false
any_control (r ∷ rs) = (ltb r 32 || (r == 127) || (is_control r && not (r == 9))) || any_control rs

unfoldable pub validate_name : Text → Result {0, 0} PathReason Unit
validate_name name =
    if text_eq name []
    then err empty_name
    else if text_eq name (dot ∷ []) || text_eq name (dot ∷ dot ∷ [])
    then err reserved_name
    else if contains_rune slash name
    then err has_slash
    else if ltb max_name_bytes (byte_len name)
    then err too_long
    else if any_control name
    then err control_character
    else ok tt

-- strings.Split at slashes.
abbrev pub put_front : ℕ → List Text → List Text
put_front c [] = (c ∷ []) ∷ []
put_front c (x ∷ xs) = (c ∷ x) ∷ xs

abbrev pub split_slash : Text → List Text
split_slash [] = [] ∷ []
split_slash (c ∷ cs) = if c == slash then [] ∷ split_slash cs else put_front c (split_slash cs)

-- strings.Trim of slashes.
abbrev pub trim_left : Text → Text
trim_left [] = []
trim_left (c ∷ cs) = if c == slash then trim_left cs else c ∷ cs

abbrev pub trim_right : Text → Text
trim_right [] = []
trim_right (c ∷ cs) =
    let rest = trim_right cs in if (c == slash) && text_eq rest [] then [] else c ∷ rest

unfoldable pub split_path : Text → List Text
split_path p =
    let trimmed = trim_right (trim_left p) in if text_eq trimmed [] then [] else split_slash trimmed

-- The components of a rooted path, the last one first.
abbrev pub without_last : List Text → List Text
without_last [] = []
without_last (x ∷ xs) = xs

abbrev pub resolve : List Text → List Text → List Text
resolve above [] = above
resolve above (x ∷ xs) =
    if text_eq x [] || text_eq x (dot ∷ [])
    then resolve above xs
    else if text_eq x (dot ∷ dot ∷ [])
    then resolve (without_last above) xs
    else resolve (x ∷ above) xs

abbrev pub render_onto : Text → List Text → Text
render_onto tail [] = tail
render_onto tail (x ∷ xs) = render_onto (slash ∷ x ++ tail) xs

-- path.Clean of a path that starts with a slash.
unfoldable pub path_clean : Text → Text
path_clean p =
    let cleaned = render_onto [] (resolve [] (split_slash p)) in
    if text_eq cleaned [] then root else cleaned

abbrev pub validate_all : List Text → Result {0, 0} PathReason Unit
validate_all [] = ok tt
validate_all (x ∷ xs) = do u ← validate_name x; validate_all xs

abbrev pub rooted : Text → Text
rooted p = if has_prefix root p then p else slash ∷ p

unfoldable pub clean_path : Text → Result PathReason Text
clean_path p =
    if text_eq p []
    then ok root
    else if contains_rune 0 p
    then err nul_byte
    else (let folded = path_clean (rooted p) in
        let cleaned = if text_eq folded (dot ∷ []) || text_eq folded [] then root else folded in
        if has_prefix (dot ∷ dot ∷ []) cleaned
        then err escapes_root
        else (do u ← validate_all (split_path cleaned); ok cleaned))

unfoldable pub join : Text → Text → Text
join parent name =
    if text_eq parent root || text_eq parent [] then root ++ name else parent ++ slash ∷ name

unfoldable pub is_descendant : Text → Text → Bool
is_descendant parent child =
    if text_eq parent root
    then not (text_eq child root)
    else has_prefix (parent ++ slash ∷ []) child

-- Parent: the path up to its last slash, and what follows it.
abbrev pub split_last : Text → Option (Text × Text)
split_last [] = none
split_last (c ∷ cs) =
    let rest = split_last cs in
    elim rest [
      | some (dir, name) ↦ some (c ∷ dir, name)
      | none ↦ if c == slash then some ([], cs) else none
    ]

abbrev pub without_first : Text → Text
without_first [] = []
without_first (c ∷ cs) = cs

-- Of a path without a slash the source drops one byte, here one code point: the same where it starts
-- with an ASCII character; every path that the drive stores starts with a slash.
abbrev pub parent_of : Text → Option (Text × Text) → Text × Text
parent_of p none = (root, without_first p)
parent_of p (some ([], name)) = (root, without_first p)
parent_of p (some (c ∷ cs, name)) = (c ∷ cs, name)

unfoldable pub parent : Text → Text × Text
parent p = if text_eq p root || text_eq p [] then (root, []) else parent_of p (split_last p)

abbrev pub reversed : List Text → List Text → List Text
reversed acc [] = acc
reversed acc (x ∷ xs) = reversed (x ∷ acc) xs

unfoldable pub ancestor_names : Text → List Text
ancestor_names dir_path = reversed [] (split_path dir_path)
