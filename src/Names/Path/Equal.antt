-- ===== src/Names/Path/Equal.antt =====
-- The comparison of strings, code point by code point, decides their equality.
use tdrive.Base.{◌≡◌, refl, subst, ◌↔◌, true, [], ◌∷◌, arith}
use tdrive.Names.Path.{Text, text_eq}

pub text_eq_sound : (a b : Text) → text_eq a b ≡ true → a ≡ b
text_eq_sound [] [] h = refl
text_eq_sound [] (y ∷ ys) h = absurd (ground arith)
text_eq_sound (x ∷ xs) [] h = absurd (ground arith)
text_eq_sound (x ∷ xs) (y ∷ ys) h = ground (arith, text_eq_sound xs ys)

pub same_text : (t : Text) → text_eq t t ≡ true
same_text [] = refl
same_text (x ∷ xs) = ground (arith, same_text xs)

pub text_eq_iff : (a b : Text) → (text_eq a b ≡ true) ↔ (a ≡ b)
text_eq_iff a b = (text_eq_sound a b, λ e. subst (λ (x : Text). text_eq a x ≡ true) e (same_text a))

pub text_eq_sym : (a b : Text) → text_eq a b ≡ text_eq b a
text_eq_sym [] [] = refl
text_eq_sym [] (y ∷ ys) = refl
text_eq_sym (x ∷ xs) [] = refl
text_eq_sym (x ∷ xs) (y ∷ ys) = ground (arith, text_eq_sym xs ys)
