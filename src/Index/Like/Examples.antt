-- ===== src/Index/Like/Examples.antt =====
-- Patterns of a directory, and a LIKE that does what the documentation says.
use tdrive.Base.{
  ℕ, ◌≡◌, refl, Bool, true, false, ◌&&◌, ◌||◌, [], ◌∷◌, ◌++◌, ◌==◌, if◌then◌else◌, arith,
}
use tdrive.Names.Path.{Text, slash, text_eq}
use tdrive.Index.Like.{
  Like, fold, is_special, percent, underscore, backslash, escape_like, subtree_pattern,
}
use tdrive.Index.Like.Subtree.{has_prefix_fold, like-subtree_pattern}

abbrev one : (ℕ → Bool) → (Text → Bool) → Text → Bool
one test more [] = false
one test more (x ∷ s) = test x && more s

abbrev some_suffix : (Text → Bool) → Text → Bool
some_suffix more [] = more []
some_suffix more (x ∷ s) = more (x ∷ s) || some_suffix more s

abbrev pub matched : Text → Text → Bool
matched [] s = text_eq s []
matched (c ∷ []) s =
    if c == percent
    then true
    else one (λ x. c == underscore || fold c == fold x) (λ t. text_eq t []) s
matched (c ∷ d ∷ p) s =
    if c == backslash
    then one (λ x. fold d == fold x) (matched p) s
    else if c == percent
    then some_suffix (matched (d ∷ p)) s
    else one (λ x. c == underscore || fold c == fold x) (matched (d ∷ p)) s

plain :
    (c : ℕ)
    → is_special c ≡ false
    → ((c == backslash) ≡ false) × ((c == percent) ≡ false) × ((c == underscore) ≡ false)
plain c h = (ground arith, ground arith, ground arith)

pub matched-literal :
    (c x : ℕ) (p s : Text)
    → is_special c ≡ false
    → matched (c ∷ p) (x ∷ s) ≡ ((fold c == fold x) && matched p s)
matched-literal c x [] s h = let (a, b, e) = plain c h in rw (b, e) refl
matched-literal c x (d ∷ p) s h = let (a, b, e) = plain c h in rw (a, b, e) refl

pub matched-literal_end : (c : ℕ) (p : Text) → is_special c ≡ false → matched (c ∷ p) [] ≡ false
matched-literal_end c [] h = let (a, b, e) = plain c h in rw b refl
matched-literal_end c (d ∷ p) h = let (a, b, e) = plain c h in rw (a, b) refl

abbrev pub documented : Like
documented = record {
  like = matched;
  like-percent = λ s. refl;
  like-escaped = λ c d p s h. refl;
  like-escaped_end = λ c p h. refl;
  like-literal = matched-literal;
  like-literal_end = matched-literal_end;
}

-- "/a%"
abbrev wild : Text
wild = 47 ∷ 97 ∷ 37 ∷ []

-- "/ab/c" is not below it.
not_wild : documented.like (subtree_pattern wild) (47 ∷ 97 ∷ 98 ∷ 47 ∷ 99 ∷ []) ≡ false
unfolding subtree_pattern escape_like
not_wild = refl

like-subtree_pattern_example :
    documented.like (subtree_pattern wild) (47 ∷ 65 ∷ 37 ∷ 47 ∷ 99 ∷ [])
    ≡ has_prefix_fold (wild ++ slash ∷ []) (47 ∷ 65 ∷ 37 ∷ 47 ∷ 99 ∷ [])
like-subtree_pattern_example = like-subtree_pattern documented wild (47 ∷ 65 ∷ 37 ∷ 47 ∷ 99 ∷ [])
