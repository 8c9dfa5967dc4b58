-- ===== src/Index/Tree/Prefix.antt =====
-- Prefixes of paths that end at a slash.
use tdrive.Base.{
  ◌<◌, ◌≡◌, ◌≢◌, refl, ◌⊎◌, inl, inr, true, false, [], ◌∷◌, ◌++◌, arith, length, drop,
}
use tdrive.Names.Path.{Text, slash, has_prefix, contains_rune}

no_room :
    (xs name : Text) → has_prefix (xs ++ slash ∷ []) name ≡ true → contains_rune slash name ≡ true
no_room [] [] h = absurd (ground arith)
no_room [] (y ∷ ys) h = ground arith
no_room (x ∷ xs) [] h = absurd (ground arith)
no_room (x ∷ xs) (y ∷ ys) h = ground (arith, no_room xs ys)

-- What lies below a path is below or at the directory that it stands in.
pub below_parent :
    (old base name : Text)
    → contains_rune slash name ≡ false
    → has_prefix (old ++ slash ∷ []) (base ++ slash ∷ name) ≡ true
    → (has_prefix (old ++ slash ∷ []) base ≡ true) ⊎ (old ≡ base)
below_parent [] [] name n h = inr refl
below_parent [] (y ∷ ys) name n h = inl (ground arith)
below_parent (x ∷ xs) [] name n h = absurd (ground (arith, no_room xs name))
below_parent (x ∷ xs) (y ∷ ys) name n h = elim (below_parent xs ys name n (ground arith)) [
  | inl k ↦ inl (ground arith)
  | inr k ↦ inr (ground arith)
]

pub has_prefix-append : (p s t : Text) → has_prefix p s ≡ true → has_prefix p (s ++ t) ≡ true
has_prefix-append [] s t h = refl
has_prefix-append (x ∷ xs) [] t h = absurd (ground arith)
has_prefix-append (x ∷ xs) (y ∷ ys) t h = ground (arith, has_prefix-append xs ys t)

pub has_prefix-at : (p name : Text) → has_prefix (p ++ slash ∷ []) (p ++ slash ∷ name) ≡ true
has_prefix-at [] name = refl
has_prefix-at (x ∷ xs) name = ground (arith, has_prefix-at xs name)

pub drop-at : (p t : Text) → drop (length p) (p ++ t) ≡ t
drop-at [] t = refl
drop-at (x ∷ xs) t = drop-at xs t

pub drop-below :
    (p s t : Text)
    → has_prefix (p ++ slash ∷ []) s ≡ true
    → drop (length p) (s ++ t) ≡ drop (length p) s ++ t
drop-below [] s t h = refl
drop-below (x ∷ xs) [] t h = absurd (ground arith)
drop-below (x ∷ xs) (y ∷ ys) t h = drop-below xs ys t (ground arith)

-- No directory lies below what stands in it.
pub not_below : (base t : Text) → has_prefix ((base ++ slash ∷ t) ++ slash ∷ []) base ≡ false
not_below [] t = refl
not_below (x ∷ xs) t = ground (arith, not_below xs t)

-- A path below another is longer.
pub below_length : (p s : Text) → has_prefix (p ++ slash ∷ []) s ≡ true → length p < length s
below_length [] [] h = absurd (ground arith)
below_length [] (y ∷ ys) h = omega arith
below_length (x ∷ xs) [] h = absurd (ground arith)
below_length (x ∷ xs) (y ∷ ys) h = omega (arith, below_length xs ys (ground arith))

pub not_nil : (base t : Text) → base ++ slash ∷ t ≢ []
not_nil [] t e = absurd (ground arith)
not_nil (x ∷ xs) t e = absurd (ground arith)
