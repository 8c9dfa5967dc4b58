-- ===== src/Names/Path/Splitting.antt =====
-- Splitting and rendering the components of a rooted path.
use tdrive.Base.{
  ℕ, ◌≡◌, refl, inl, inr, false, ◌||◌, List, [], ◌∷◌, ◌++◌, arith, ◌==◌, Bool-cases, All,
}
use tdrive.Names.Path.{
  Text, slash, dot, text_eq, contains_rune, put_front, split_slash, without_last, resolve,
  render_onto,
}

-- A component that no rule of path.Clean takes away.
pub record IsName (x : Text) : Type 0 where
  pub nonempty : text_eq x [] ≡ false
  pub no_slash : contains_rune slash x ≡ false
  pub no_nul : contains_rune 0 x ≡ false
  pub not_dot : text_eq x (dot ∷ []) ≡ false
  pub not_dot_dot : text_eq x (dot ∷ dot ∷ []) ≡ false

-- A piece between slashes.
abbrev pub IsPiece : Text → Type 0
IsPiece x = (contains_rune slash x ≡ false) × (contains_rune 0 x ≡ false)

abbrev pub rev_onto : List Text → List Text → List Text
rev_onto tail [] = tail
rev_onto tail (x ∷ xs) = rev_onto (x ∷ tail) xs

pub rev_onto-rev_onto :
    (acc ts xs : List Text) → rev_onto acc (rev_onto ts xs) ≡ rev_onto (xs ++ acc) ts
rev_onto-rev_onto acc ts [] = refl
rev_onto-rev_onto acc ts (x ∷ xs) = rev_onto-rev_onto acc (x ∷ ts) xs

pub All-rev_onto : (ts xs : List Text) → All IsName ts → All IsName xs → All IsName (rev_onto ts xs)
All-rev_onto ts [] a b = a
All-rev_onto ts (x ∷ xs) a b = All-rev_onto (x ∷ ts) xs (b.0, a) (b.1)

put_front-pieces :
    (c : ℕ) (xs : List Text)
    → (c == slash) ≡ false
    → (c == 0) ≡ false
    → All IsPiece xs
    → All IsPiece (put_front c xs)
put_front-pieces c [] h z a = ((rw h refl, rw z refl), tt)
put_front-pieces c (x ∷ xs) h z a = ((rw h (a.0.0), rw z (a.0.1)), a.1)

pub split_slash-pieces : (p : Text) → contains_rune 0 p ≡ false → All IsPiece (split_slash p)
split_slash-pieces [] h = ((refl, refl), tt)
split_slash-pieces (c ∷ cs) h = elim (Bool-cases (c == slash)) [
  | inl e ↦ rw e ((refl, refl), split_slash-pieces cs (ground arith))
  | inr e ↦
      rw e (
        put_front-pieces c (split_slash cs) e (ground arith) (split_slash-pieces cs (ground arith)))
]

-- A name in front of a rooted rest is one more component.
split_slash-name :
    (x tail : Text) (ts : List Text)
    → contains_rune slash x ≡ false
    → split_slash tail ≡ [] ∷ ts
    → split_slash (x ++ tail) ≡ x ∷ ts
split_slash-name [] tail ts h e = e
split_slash-name (c ∷ cs) tail ts h e =
    rw (no_slash_here, split_slash-name cs tail ts (ground arith) e) refl
  where
    no_slash_here : (c == slash) ≡ false
    no_slash_here = ground arith

pub split_slash-render_onto :
    (tail : Text) (ts above : List Text)
    → split_slash tail ≡ [] ∷ ts
    → All IsName above
    → split_slash (render_onto tail above) ≡ [] ∷ rev_onto ts above
split_slash-render_onto tail ts [] e a = e
split_slash-render_onto tail ts (x ∷ xs) e a =
    split_slash-render_onto (slash ∷ x ++ tail) (x ∷ ts) xs
      (rw (split_slash-name x tail ts (a.0.no_slash) e) refl) (a.1)

pub resolve-names : (acc xs : List Text) → All IsName xs → resolve acc xs ≡ rev_onto acc xs
resolve-names acc [] a = refl
resolve-names acc (x ∷ xs) a =
    rw (a.0.nonempty, a.0.not_dot, a.0.not_dot_dot) (resolve-names (x ∷ acc) xs (a.1))

without_last-names : (above : List Text) → All IsName above → All IsName (without_last above)
without_last-names [] a = tt
without_last-names (x ∷ xs) a = a.1

pub resolve-IsName :
    (above xs : List Text) → All IsName above → All IsPiece xs → All IsName (resolve above xs)
resolve-IsName above [] a b = a
resolve-IsName above (x ∷ xs) a b = elim (Bool-cases (text_eq x [] || text_eq x (dot ∷ []))) [
  | inl e ↦ rw e (resolve-IsName above xs a (b.1))
  | inr e ↦ elim (Bool-cases (text_eq x (dot ∷ dot ∷ []))) [
    | inl f ↦ rw (e, f) (resolve-IsName (without_last above) xs (without_last-names above a) (b.1))
    | inr f ↦
        rw (e, f)
          (resolve-IsName (x ∷ above) xs
            (
              record {
                nonempty = ground arith;
                no_slash = b.0.0;
                no_nul = b.0.1;
                not_dot = ground arith;
                not_dot_dot = f;
              },
              a,
            )
            (b.1))
  ]
]
