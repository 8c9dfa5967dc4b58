-- ===== src/Names/Path/Components.antt =====
-- SplitPath of a canonical path gives its components.
use tdrive.Base.{
  ℕ, ◌≡◌, refl, sym, ap, ◌∙◌, subst, true, false, List, [], ◌∷◌, ◌++◌, arith, ◌==◌, Bool-cases, inl,
  inr, All, Result, ok, err, ◌>>=◌,
}
use tdrive.Names.Path.{
  Text, slash, root, text_eq, put_front, split_slash, trim_left, trim_right, without_last,
  split_path, PathReason, validate_name, validate_all, clean_path,
}
use tdrive.Names.Path.Splitting.{IsName, rev_onto, All-rev_onto, split_slash-render_onto}
use tdrive.Names.Path.Canonical.{canonical, rest_of, clean_path-IsClean}

abbrev AllFull : List Text → Type 0
AllFull = All (λ x. text_eq x [] ≡ false)

behind-put_front : (c : ℕ) (xs : List Text) → without_last (put_front c xs) ≡ without_last xs
behind-put_front c [] = refl
behind-put_front c (x ∷ xs) = refl

behind_full : (xs : List Text) → AllFull xs → AllFull (without_last xs)
behind_full [] a = tt
behind_full (x ∷ xs) a = a.1

full_text : (p : Text) → AllFull (split_slash p) → text_eq p [] ≡ false
full_text [] a = absurd (ground (arith, a.0))
full_text (c ∷ cs) a = refl

at_slash : (c : ℕ) (cs : Text) → (c == slash) ≡ true → split_slash (c ∷ cs) ≡ [] ∷ split_slash cs
at_slash c cs e = rw e refl

at_other :
    (c : ℕ) (cs : Text) → (c == slash) ≡ false → split_slash (c ∷ cs) ≡ put_front c (split_slash cs)
at_other c cs e = rw e refl

-- Pieces that are not empty, but for the first, leave nothing to trim at the end.
trim_right-full : (p : Text) → AllFull (without_last (split_slash p)) → trim_right p ≡ p
trim_right-full [] a = refl
trim_right-full (c ∷ cs) a = elim (Bool-cases (c == slash)) [
  | inl e ↦
      let full = subst AllFull (ap without_last (at_slash c cs e)) a in
      rw (e, trim_right-full cs (behind_full (split_slash cs) full), full_text cs full) refl
  | inr e ↦
      let behind =
        subst AllFull (ap without_last (at_other c cs e) ∙ behind-put_front c (split_slash cs)) a in
      rw (e, trim_right-full cs behind) refl
]

trim_left-full : (p : Text) → AllFull (split_slash p) → trim_left p ≡ p
trim_left-full [] a = refl
trim_left-full (c ∷ cs) a = elim (Bool-cases (c == slash)) [
  | inl e ↦ absurd (ground (arith, (subst AllFull (at_slash c cs e) a).0))
  | inr e ↦ rw e refl
]

-- Names are full.
names_full : (xs : List Text) → All IsName xs → AllFull xs
names_full [] a = tt
names_full (x ∷ xs) a = (a.0.nonempty, names_full xs (a.1))

split_path-behind : (t : Text) → AllFull (split_slash t) → split_path (slash ∷ t) ≡ split_slash t
unfolding split_path
split_path-behind t a =
    rw (trim_left-full t a, trim_right-full t (behind_full (split_slash t) a), full_text t a) refl

same_behind : {x y : Text} {xs ys : List Text} → x ∷ xs ≡ y ∷ ys → xs ≡ ys
same_behind {xs = xs} {ys = ys} e = ap without_last e

split_path-root : split_path root ≡ []
unfolding split_path
split_path-root = refl

-- SplitPath of a canonical path is the list of its components, from the root on.
pub split_path-canonical :
    (above : List Text) → All IsName above → split_path (canonical above) ≡ rev_onto [] above
split_path-canonical [] a = split_path-root
split_path-canonical (x ∷ xs) a =
    let (rest, e) = rest_of (x ++ []) xs in
    let pieces =
      same_behind (ap split_slash (sym e) ∙ split_slash-render_onto [] [] (x ∷ xs) refl a) in
    let full = names_full (rev_onto [] (x ∷ xs)) (All-rev_onto [] (x ∷ xs) tt a) in
    rw e (split_path-behind rest (subst AllFull (sym pieces) full) ∙ pieces)

validated_each : (xs : List Text) → validate_all xs ≡ ok tt → All (λ x. validate_name x ≡ ok tt) xs
validated_each [] h = tt
validated_each (x ∷ xs) h =
    let (a, b) = validated_step (validate_name x) (validate_all xs) h in (a, validated_each xs b)
  where
    validated_step :
        (r s : Result {0, 0} PathReason Unit) → (r >>= λ u. s) ≡ ok tt → (r ≡ ok tt) × (s ≡ ok tt)
    validated_step (ok tt) s h = (refl, h)
    validated_step (err e) s h = absurd (ground (arith, h))

-- What CleanPath accepts is "/" or a sequence of components, each behind one slash, and SplitPath of it
-- gives back exactly these: each is accepted by ValidateName, and none is empty, "." or "..", or holds
-- a slash.
pub split_path-clean_path :
    (p c : Text)
    → clean_path p ≡ ok c
    → (above : List Text) × (c ≡ canonical above)
      × (split_path c ≡ rev_onto [] above)
      × All (λ x. validate_name x ≡ ok tt) (split_path c)
      × All IsName (split_path c)
split_path-clean_path p c h =
    let k = clean_path-IsClean p c h in
    let parts = ap split_path (k.form) ∙ split_path-canonical (k.above) (k.names) in
    (
      k.above,
      k.form,
      parts,
      validated_each (split_path c) (k.valid),
      subst (All IsName) (sym parts) (All-rev_onto [] (k.above) tt (k.names)),
    )
