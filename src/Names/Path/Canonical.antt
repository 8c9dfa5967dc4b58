-- ===== src/Names/Path/Canonical.antt =====
-- CleanPath gives the canonical form of a path.
use tdrive.Base.{
  ℕ, ◌≡◌, refl, sym, ◌∙◌, subst, inl, inr, true, false, List, [], ◌∷◌, ◌++◌, append-nil, arith,
  if◌then◌else◌, Bool-cases, All, Result, ok, err, ◌>>=◌,
}
use tdrive.Names.Path.{
  Text, PathReason, nul_byte, slash, root, text_eq, has_prefix, contains_rune, split_slash, resolve,
  render_onto, path_clean, rooted, split_path, validate_all, clean_path,
}
use tdrive.Names.Path.Splitting.{
  IsName, rev_onto, rev_onto-rev_onto, All-rev_onto, split_slash-pieces, split_slash-render_onto,
  resolve-names, resolve-IsName,
}

-- The text of a list of components, the last one first.
abbrev pub canonical : List Text → Text
canonical above = if text_eq (render_onto [] above) [] then root else render_onto [] above

resolve-rev_onto : (above : List Text) → All IsName above → resolve [] (rev_onto [] above) ≡ above
resolve-rev_onto above a =
    resolve-names [] (rev_onto [] above) (All-rev_onto [] above tt a)
    ∙ (rev_onto-rev_onto [] [] above ∙ append-nil above)

path_clean-canonical :
    (above : List Text) → All IsName above → path_clean (canonical above) ≡ canonical above
unfolding path_clean
path_clean-canonical above a = elim (Bool-cases (text_eq (render_onto [] above) [])) [
  | inl e ↦ rw e refl
  | inr e ↦ rw (e, split_slash-render_onto [] [] above refl a, resolve-rev_onto above a, e) refl
]

path_clean-resolve : (p : Text) → path_clean p ≡ canonical (resolve [] (split_slash p))
unfolding path_clean
path_clean-resolve p = refl

-- A rendered text starts with a slash.
pub rest_of :
    (t : Text) (above : List Text) → (rest : Text) × (render_onto (slash ∷ t) above ≡ slash ∷ rest)
rest_of t [] = (t, refl)
rest_of t (x ∷ xs) = rest_of (x ++ slash ∷ t) xs

pub canonical_rest : (above : List Text) → (rest : Text) × (canonical above ≡ slash ∷ rest)
canonical_rest [] = ([], refl)
canonical_rest (x ∷ xs) = let (rest, e) = rest_of (x ++ []) xs in (rest, rw e refl)

contains-append :
    (r : ℕ) (xs ys : Text)
    → contains_rune r xs ≡ false
    → contains_rune r ys ≡ false
    → contains_rune r (xs ++ ys) ≡ false
contains-append r [] ys a b = b
contains-append r (x ∷ xs) ys a b = ground (arith, contains-append r xs ys)

render_onto-no_nul :
    (tail : Text) (above : List Text)
    → contains_rune 0 tail ≡ false
    → All IsName above
    → contains_rune 0 (render_onto tail above) ≡ false
render_onto-no_nul tail [] h a = h
render_onto-no_nul tail (x ∷ xs) h a =
    render_onto-no_nul (slash ∷ x ++ tail) xs (contains-append 0 x tail (a.0.no_nul) h) (a.1)

canonical-no_nul :
    (above : List Text) → All IsName above → contains_rune 0 (canonical above) ≡ false
canonical-no_nul above a = elim (Bool-cases (text_eq (render_onto [] above) [])) [
  | inl e ↦ rw e refl
  | inr e ↦ rw e (render_onto-no_nul [] above refl a)
]

-- The canonical form: rooted, its components non-empty, without slash, and neither "." nor "..", and
-- each a name that ValidateName accepts.
pub record IsClean (c : Text) : Type 0 where
  pub above : List Text
  pub names : All IsName above
  pub form : c ≡ canonical above
  pub valid : validate_all (split_path c) ≡ ok tt

clean_rooted :
    (rest : Text)
    → contains_rune 0 rest ≡ false
    → path_clean (slash ∷ rest) ≡ slash ∷ rest
    → validate_all (split_path (slash ∷ rest)) ≡ ok tt
    → clean_path (slash ∷ rest) ≡ ok (slash ∷ rest)
unfolding clean_path
clean_rooted rest n e v = rw (n, e, v) refl

pub IsClean-fixed : (c : Text) → IsClean c → clean_path c ≡ ok c
IsClean-fixed c h =
    let (rest, e) = canonical_rest (h.above) in
    let f = h.form ∙ e in
    rw f (
      clean_rooted rest
        (subst (λ (t : Text). contains_rune 0 t ≡ false) e (canonical-no_nul (h.above) (h.names)))
        (subst (λ (t : Text). path_clean t ≡ t) e (path_clean-canonical (h.above) (h.names)))
        (subst (λ (t : Text). validate_all (split_path t) ≡ ok tt) f (h.valid)))

clean_body :
    (p rest : Text)
    → text_eq p [] ≡ false
    → contains_rune 0 p ≡ false
    → path_clean (rooted p) ≡ slash ∷ rest
    → clean_path p ≡ (validate_all (split_path (slash ∷ rest)) >>= λ u. ok (slash ∷ rest))
unfolding clean_path
clean_body p rest a b e = rw (a, b, e) refl

clean_empty : (p : Text) → text_eq p [] ≡ true → clean_path p ≡ ok root
unfolding clean_path
clean_empty p e = rw e refl

clean_nul :
    (p : Text) → text_eq p [] ≡ false → contains_rune 0 p ≡ true → clean_path p ≡ err nul_byte
unfolding clean_path
clean_nul p a b = rw (a, b) refl

ok_injective : {d c : Text} → ◌≡◌ {A = Result PathReason Text} (ok d) (ok c) → d ≡ c
ok_injective h = cc

err-ok : {e : PathReason} {c : Text} → ◌≡◌ {A = Result PathReason Text} (err e) (ok c) → ⊥
err-ok h = cc

validated :
    (r : Result {0, 0} PathReason Unit) (d c : Text)
    → (r >>= λ u. ok d) ≡ ok c
    → (r ≡ ok tt) × (d ≡ c)
validated (ok tt) d c h = (refl, ok_injective h)
validated (err e) d c h = absurd (err-ok h)

rooted-no_nul : (p : Text) → contains_rune 0 p ≡ false → contains_rune 0 (rooted p) ≡ false
rooted-no_nul p h = elim (Bool-cases (has_prefix root p)) [ inl e ↦ rw e h | inr e ↦ rw e h ]

root-IsClean : IsClean root
unfolding split_path
root-IsClean = record { above = []; names = tt; form = refl; valid = refl }

pub clean_path-IsClean : (p c : Text) → clean_path p ≡ ok c → IsClean c
clean_path-IsClean p c h = elim (Bool-cases (text_eq p [])) [
  | inl e ↦ subst IsClean (ok_injective (sym (clean_empty p e) ∙ h)) root-IsClean
  | inr a ↦ elim (Bool-cases (contains_rune 0 p)) [
    | inl e ↦ absurd (err-ok (sym (clean_nul p a e) ∙ h))
    | inr b ↦
        let above = resolve [] (split_slash (rooted p)) in
        let (rest, e) = canonical_rest above in
        let f = path_clean-resolve (rooted p) ∙ e in
        let (v, d) = validated _ (slash ∷ rest) c (sym (clean_body p rest a b f) ∙ h) in
        subst IsClean d (record {
          above = above;
          names =
              resolve-IsName [] (split_slash (rooted p)) tt
                (split_slash-pieces (rooted p) (rooted-no_nul p b));
          form = sym e;
          valid = v;
        })
  ]
]

-- Whatever path a client sends, what CleanPath accepts is in canonical form: rooted, with single slashes
-- between components that are non-empty and neither "." nor "..", and that ValidateName accepts; and
-- CleanPath of it is the same path again.
pub clean_path-clean_path : (p c : Text) → clean_path p ≡ ok c → IsClean c × (clean_path c ≡ ok c)
clean_path-clean_path p c h = let k = clean_path-IsClean p c h in (k, IsClean-fixed c k)
