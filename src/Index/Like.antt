-- ===== src/Index/Like.antt =====
-- Subtree patterns: escapeLike of internal/database/tree.go, and the LIKE operator of SQLite that
-- the statements there put its result in.
pub mod Subtree
pub mod Examples
use tdrive.Base.{
  ℕ, ◌+◌, ◌≡◌, Bool, true, false, ◌&&◌, ◌||◌, List, [], ◌∷◌, ◌++◌, leb, ◌==◌, if◌then◌else◌,
}
use tdrive.Names.Path.{Text, slash}

abbrev pub percent : ℕ
percent = 37

abbrev pub underscore : ℕ
underscore = 95

abbrev pub backslash : ℕ
backslash = 92

abbrev pub is_special : ℕ → Bool
is_special c = c == backslash || c == percent || c == underscore

-- ASCII letters without their case.
abbrev pub fold : ℕ → ℕ
fold c = if leb 65 c && leb c 90 then c + 32 else c

-- `subject LIKE pattern ESCAPE '\'`. SQLite documents that `%` stands for any text, a character
-- behind the escape character for itself, and any other character, `_` aside, for itself in
-- either case; and that only ASCII characters have a case.
pub record Like : Type 0 where
  pub like : Text → Text → Bool
  pub like-percent : (s : Text) → like (percent ∷ []) s ≡ true
  pub like-escaped :
      (c d : ℕ) (p s : Text)
      → is_special c ≡ true
      → like (backslash ∷ c ∷ p) (d ∷ s) ≡ ((fold c == fold d) && like p s)
  pub like-escaped_end :
      (c : ℕ) (p : Text) → is_special c ≡ true → like (backslash ∷ c ∷ p) [] ≡ false
  pub like-literal :
      (c d : ℕ) (p s : Text)
      → is_special c ≡ false
      → like (c ∷ p) (d ∷ s) ≡ ((fold c == fold d) && like p s)
  pub like-literal_end : (c : ℕ) (p : Text) → is_special c ≡ false → like (c ∷ p) [] ≡ false

unfoldable pub escape_like : Text → Text
escape_like [] = []
escape_like (c ∷ cs) = if is_special c then backslash ∷ c ∷ escape_like cs else c ∷ escape_like cs

-- `escapeLike(path) + "/%"`
unfoldable pub subtree_pattern : Text → Text
subtree_pattern p = escape_like p ++ slash ∷ percent ∷ []
