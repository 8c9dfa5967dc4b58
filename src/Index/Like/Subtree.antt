-- ===== src/Index/Like/Subtree.antt =====
-- What a subtree pattern matches.
use tdrive.Base.{
  ℕ, ◌≡◌, refl, inl, inr, Bool, true, false, ◌&&◌, [], ◌∷◌, ◌++◌, ◌==◌, arith, Bool-cases,
}
use tdrive.Names.Path.{Text, slash, has_prefix}
use tdrive.Index.Like.{Like, fold, is_special, percent, backslash, escape_like, subtree_pattern}

-- HasPrefix without the case of ASCII letters.
abbrev pub has_prefix_fold : Text → Text → Bool
has_prefix_fold [] s = true
has_prefix_fold (x ∷ xs) [] = false
has_prefix_fold (x ∷ xs) (y ∷ ys) = fold x == fold y && has_prefix_fold xs ys

pub has_prefix-has_prefix_fold : (p s : Text) → has_prefix p s ≡ true → has_prefix_fold p s ≡ true
has_prefix-has_prefix_fold [] s h = refl
has_prefix-has_prefix_fold (x ∷ xs) [] h = absurd (ground arith)
has_prefix-has_prefix_fold (x ∷ xs) (y ∷ ys) h = ground (arith, has_prefix-has_prefix_fold xs ys)

module _ (l : Like) where
  open l use {like, like-percent, like-escaped, like-escaped_end, like-literal, like-literal_end}

  like-below : (s : Text) → like (slash ∷ percent ∷ []) s ≡ has_prefix_fold (slash ∷ []) s
  like-below [] = like-literal_end slash (percent ∷ []) refl
  like-below (d ∷ s) = rw (like-literal slash d (percent ∷ []) s refl, like-percent s) refl

  module _ (c : ℕ) (p pattern : Text) (ih : (s : Text) → like pattern s ≡ has_prefix_fold p s) where
    escaped :
        (s : Text)
        → is_special c ≡ true
        → like (backslash ∷ c ∷ pattern) s ≡ has_prefix_fold (c ∷ p) s
    escaped [] e = like-escaped_end c pattern e
    escaped (d ∷ s) e = rw (like-escaped c d pattern s e, ih s) refl

    literal : (s : Text) → is_special c ≡ false → like (c ∷ pattern) s ≡ has_prefix_fold (c ∷ p) s
    literal [] e = like-literal_end c pattern e
    literal (d ∷ s) e = rw (like-literal c d pattern s e, ih s) refl

  -- A row matches the pattern of a path, whatever wildcards the path has in it, exactly when its own
  -- path begins with that path and a slash, the case of ASCII letters aside.
  pub like-subtree_pattern :
      (p s : Text) → like (subtree_pattern p) s ≡ has_prefix_fold (p ++ slash ∷ []) s
  unfolding subtree_pattern escape_like
  like-subtree_pattern [] s = like-below s
  like-subtree_pattern (c ∷ cs) s = elim (Bool-cases (is_special c)) [
    | inl e ↦ rw e (escaped c (cs ++ slash ∷ []) _ (like-subtree_pattern cs) s e)
    | inr e ↦ rw e (literal c (cs ++ slash ∷ []) _ (like-subtree_pattern cs) s e)
  ]
