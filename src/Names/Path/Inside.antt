-- ===== src/Names/Path/Inside.antt =====
-- What stands behind a canonical path, inside a longer one, is canonical too.
use tdrive.Base.{
  ℕ, ◌≡◌, refl, sym, ap, ◌∙◌, subst, inl, inr, false, List, [], ◌∷◌, ◌++◌, append-nil, arith, ◌==◌,
  Bool-cases, All, ok, err, Result, ◌>>=◌,
}
use tdrive.Names.Path.{
  Text, PathReason, slash, text_eq, put_front, split_slash, without_last, render_onto, split_path,
  validate_name, validate_all,
}
use tdrive.Names.Path.Splitting.{
  IsName, rev_onto, rev_onto-rev_onto, All-rev_onto, split_slash-render_onto,
}
use tdrive.Names.Path.Canonical.{canonical, rest_of, IsClean}
use tdrive.Names.Path.Components.{split_path-canonical}

-- The first component first, each behind a slash.
abbrev rendered : List Text → Text
rendered [] = []
rendered (x ∷ xs) = slash ∷ x ++ rendered xs

rendered-put_front :
    (c : ℕ) (xs : List Text) (t : Text)
    → rendered xs ≡ slash ∷ t
    → rendered (put_front c xs) ≡ slash ∷ c ∷ t
rendered-put_front c [] t e = ground arith
rendered-put_front c (x ∷ xs) t e = ap (λ s. slash ∷ c ∷ s) (ap without_first e)
  where
    without_first : Text → Text
    without_first [] = []
    without_first (d ∷ ds) = ds

rendered-split_slash : (t : Text) → rendered (split_slash t) ≡ slash ∷ t
rendered-split_slash [] = refl
rendered-split_slash (c ∷ cs) = elim (Bool-cases (c == slash)) [
  | inl e ↦ rw (e, rendered-split_slash cs) (ground (arith, e))
  | inr e ↦ rw e (rendered-put_front c (split_slash cs) cs (rendered-split_slash cs))
]

render_onto-rev_onto :
    (xs above : List Text) → render_onto [] (rev_onto above xs) ≡ render_onto (rendered xs) above
render_onto-rev_onto [] above = refl
render_onto-rev_onto (x ∷ xs) above = render_onto-rev_onto xs (x ∷ above)

-- A text has a first piece.
first_piece : (t : Text) → (x : Text) × (xs : List Text) × (split_slash t ≡ x ∷ xs)
first_piece [] = ([], [], refl)
first_piece (c ∷ cs) = elim (Bool-cases (c == slash)) [
  | inl e ↦ ([], split_slash cs, rw e refl)
  | inr e ↦ let (x, xs, f) = first_piece cs in (c ∷ x, xs, rw (e, f) refl)
]

put_front-append :
    (c : ℕ) (xs ys : List Text) (x : Text) (rest : List Text)
    → xs ≡ x ∷ rest
    → put_front c (xs ++ ys) ≡ put_front c xs ++ ys
put_front-append c xs ys x rest e = rw e refl

-- Splitting at one slash.
split_slash-append : (a t : Text) → split_slash (a ++ slash ∷ t) ≡ split_slash a ++ split_slash t
split_slash-append [] t = refl
split_slash-append (c ∷ cs) t = elim (Bool-cases (c == slash)) [
  | inl e ↦ rw (e, split_slash-append cs t) refl
  | inr e ↦
      let (x, xs, f) = first_piece cs in
      rw (e, split_slash-append cs t) (put_front-append c (split_slash cs) (split_slash t) x xs f)
]

names_behind : (xs ys : List Text) → All IsName (xs ++ ys) → All IsName ys
names_behind [] ys h = h
names_behind (x ∷ xs) ys h = names_behind xs ys (h.1)

valid_behind : (xs ys : List Text) → validate_all (xs ++ ys) ≡ ok tt → validate_all ys ≡ ok tt
valid_behind [] ys h = h
valid_behind (x ∷ xs) ys h =
    valid_behind xs ys (second (validate_name x) (validate_all (xs ++ ys)) h)
  where
    second : (r s : Result {0, 0} PathReason Unit) → (r >>= λ u. s) ≡ ok tt → s ≡ ok tt
    second (ok tt) s h = h
    second (err e) s h = absurd (ground (arith, h))

pieces_behind : (xs ys zs : List Text) → [] ∷ xs ++ ys ≡ [] ∷ zs → xs ++ ys ≡ zs
pieces_behind xs ys zs e = ap without_last e

-- A path that is longer than "/" is its components.
pieces_of :
    (a t : Text) (above : List Text)
    → All IsName above
    → slash ∷ a ++ slash ∷ t ≡ canonical above
    → split_slash a ++ split_slash t ≡ rev_onto [] above
pieces_of a t [] names e = absurd (longer a (ap without_slash e))
  where
    without_slash : Text → Text
    without_slash [] = []
    without_slash (c ∷ cs) = cs

    longer : (b : Text) → b ++ slash ∷ t ≡ [] → ⊥
    longer [] f = ground (arith, f)
    longer (c ∷ cs) f = ground (arith, f)
pieces_of a t (x ∷ xs) names e =
    let (rest, f) = rest_of (x ++ []) xs in
    let same : slash ∷ a ++ slash ∷ t ≡ render_onto [] (x ∷ xs) = e ∙ whole rest f in
    pieces_behind (split_slash a) (split_slash t) (rev_onto [] (x ∷ xs)) (
      ap (λ ps. [] ∷ ps) (sym (split_slash-append a t))
      ∙ ap split_slash same
      ∙ split_slash-render_onto [] [] (x ∷ xs) refl names)
  where
    whole :
        (rest : Text)
        → render_onto (slash ∷ x ++ []) xs ≡ slash ∷ rest
        → canonical (x ∷ xs) ≡ render_onto [] (x ∷ xs)
    whole rest f = rw f refl

-- A canonical path longer than "/" has a canonical rest behind each of its slashes but the first.
pub IsClean-behind :
    (a t : Text) → IsClean (slash ∷ a ++ slash ∷ t) → IsClean (slash ∷ t) × (text_eq t [] ≡ false)
IsClean-behind a t h =
    let pieces = pieces_of a t (h.above) (h.names) (h.form) in
    let all_names = subst (All IsName) (sym pieces) (All-rev_onto [] (h.above) tt (h.names)) in
    let names = names_behind (split_slash a) (split_slash t) all_names in
    let mine = rev_onto [] (split_slash t) in
    let parts : rev_onto [] mine ≡ split_slash t =
      rev_onto-rev_onto [] [] (split_slash t) ∙ append-nil (split_slash t) in
    let text : render_onto [] mine ≡ slash ∷ t =
      render_onto-rev_onto (split_slash t) [] ∙ rendered-split_slash t in
    let form : slash ∷ t ≡ canonical mine = rw text refl in
    let mine_names = All-rev_onto [] (split_slash t) tt names in
    let split_real =
      ap split_path (h.form) ∙ split_path-canonical (h.above) (h.names) ∙ sym pieces in
    let split_mine = ap split_path form ∙ split_path-canonical mine mine_names ∙ parts in
    (
      record {
        above = mine;
        names = mine_names;
        form = form;
        valid =
            subst (λ ps. validate_all ps ≡ ok tt) (sym split_mine)
              (valid_behind (split_slash a) (split_slash t)
                (subst (λ ps. validate_all ps ≡ ok tt) split_real (h.valid)));
      },
      not_empty t names,
    )
  where
    not_empty : (b : Text) → All IsName (split_slash b) → text_eq b [] ≡ false
    not_empty [] n = n.0.nonempty
    not_empty (c ∷ cs) n = refl
