-- ===== src/Rebuild/Ids.antt =====
-- Ids as the index and the captions spell them: strings, compared byte by byte.
use tdrive.Base.{Bool, true, false, ◌&&◌, ◌||◌, [], ◌∷◌, ltb, ◌==◌}
use tdrive.Names.Path.{Text}

abbrev pub Ulid : Type 0
Ulid = Text

-- `<` on strings.
abbrev pub text_lt : Text → Text → Bool
text_lt [] [] = false
text_lt [] (y ∷ ys) = true
text_lt (x ∷ xs) [] = false
text_lt (x ∷ xs) (y ∷ ys) = ltb x y || ((x == y) && text_lt xs ys)
