-- ===== src/Names/Scope/Returning.antt =====
-- A path that a scope shows leads back to where it was shown from.
use tdrive.Base.{
  ◌≡◌, refl, sym, ap, ◌∙◌, subst, inl, inr, Bool, true, false, Option, some, none, [], ◌∷◌, ◌++◌,
  arith, Bool-cases, ok, choose_true, choose_false,
}
use tdrive.Names.Path.{Text, root, slash, text_eq, has_prefix, clean_path, path_clean, split_path}
use tdrive.Names.Path.Equal.{text_eq_sound}
use tdrive.Names.Path.Canonical.{IsClean, IsClean-fixed, canonical_rest, clean_path-IsClean}
use tdrive.Names.Path.Inside.{IsClean-behind}
use tdrive.Names.Scope.{Scope, scope_of, unrestricted, rebase, to_real, trim_prefix, to_visible}
use tdrive.Names.Scope.Confinement.{trim_prefix-append, scope_of-IsClean}

prefix_split :
    (r s : Text) → has_prefix (r ++ slash ∷ []) s ≡ true → (t : Text) × (s ≡ r ++ slash ∷ t)
prefix_split [] [] h = absurd (ground (arith, h))
prefix_split [] (y ∷ ys) h = (ys, ground (arith, h))
prefix_split (x ∷ xs) [] h = absurd (ground (arith, h))
prefix_split (x ∷ xs) (y ∷ ys) h =
    let (t, e) = prefix_split xs ys (ground (arith, h)) in (t, ground (arith, h, e))

some_injective : (a b : Text) → ◌≡◌ {A = Option Text} (some a) (some b) → a ≡ b
some_injective a b h = cc

none-some : (a : Text) → ◌≡◌ {A = Option Text} none (some a) → ⊥
none-some a h = cc

-- ToReal of a path that CleanPath leaves alone.
real_of : (s : Scope) (v : Text) → clean_path v ≡ ok v → to_real s v ≡ ok (rebase s v)
unfolding to_real
real_of s v e = rw e refl

root_fixed : clean_path root ≡ ok root
unfolding clean_path path_clean split_path
root_fixed = refl

module _ (s : Scope) (real v : Text) (clean : IsClean real) where
  in_whole : unrestricted s ≡ true → to_visible s real ≡ some v → to_real s v ≡ ok real
  unfolding to_visible
  in_whole e h =
      let same : real ≡ v = some_injective real v (sym (choose_true _ _ e) ∙ h) in
      subst (λ w. to_real s w ≡ ok real) same
        (real_of s real (IsClean-fixed real clean) ∙ ap ok (choose_true _ _ e))

  module _ (e : unrestricted s ≡ false) where
    at_root :
        text_eq real (s.scope_root) ≡ true → to_visible s real ≡ some v → to_real s v ≡ ok real
    unfolding to_visible
    at_root f h =
        let same : root ≡ v =
          some_injective root v (sym (choose_false _ _ e ∙ choose_true _ _ f) ∙ h) in
        subst (λ w. to_real s w ≡ ok real) same
          (real_of s root root_fixed
            ∙ ap ok (choose_false _ _ e ∙ sym (text_eq_sound real (s.scope_root) f)))

    below_root :
        (a t : Text)
        → s.scope_root ≡ slash ∷ a
        → real ≡ s.scope_root ++ slash ∷ t
        → trim_prefix (s.scope_root) real ≡ v
        → to_real s v ≡ ok real
    below_root a t r g h =
        let shown : slash ∷ t ≡ v =
          sym (trim_prefix-append (s.scope_root) (slash ∷ t))
          ∙ ap (λ p. trim_prefix (s.scope_root) p) (sym g)
          ∙ h in
        let (k, n) = IsClean-behind a t (subst IsClean (g ∙ ap (λ p. p ++ slash ∷ t) r) clean) in
        subst (λ w. to_real s w ≡ ok real) shown
          (real_of s (slash ∷ t) (IsClean-fixed (slash ∷ t) k)
            ∙ ap ok (choose_false _ _ e ∙ choose_false _ _ n ∙ sym g))

    shown_below :
        (a : Text)
        → s.scope_root ≡ slash ∷ a
        → text_eq real (s.scope_root) ≡ false
        → to_visible s real ≡ some v
        → to_real s v ≡ ok real
    unfolding to_visible
    shown_below a r f h = elim (Bool-cases (has_prefix (s.scope_root ++ slash ∷ []) real)) [
      | inl g ↦
          let (t, d) = prefix_split (s.scope_root) real g in
          below_root a t r d (
            some_injective _ v
              (sym (choose_false _ _ e ∙ choose_false _ _ f ∙ choose_true _ _ g) ∙ h))
      | inr g ↦
          absurd
            (none-some v (sym (choose_false _ _ e ∙ choose_false _ _ f ∙ choose_false _ _ g) ∙ h))
    ]

-- In the scope of any account: when ToVisible shows a canonical real path, one that CleanPath gives,
-- to a client, then ToReal of what it shows is that real path again.
pub to_real-to_visible :
    (is_admin : Bool) (scope_path p real v : Text)
    → clean_path p ≡ ok real
    → to_visible (scope_of is_admin scope_path) real ≡ some v
    → to_real (scope_of is_admin scope_path) v ≡ ok real
to_real-to_visible is_admin scope_path p real v e h =
    let clean = clean_path-IsClean p real e in
    let s = scope_of is_admin scope_path in
    elim ((scope_of-IsClean is_admin scope_path).1) [
      | inl f ↦ in_whole s real v clean (ap unrestricted f) h
      | inr (k, n) ↦
          let (a, r) = canonical_rest (k.above) in
          let starts = k.form ∙ r in
          let narrow : unrestricted s ≡ false = ap (λ q. text_eq q []) starts in
          elim (Bool-cases (text_eq real (s.scope_root))) [
            | inl f ↦ at_root s real v clean narrow f h
            | inr f ↦ shown_below s real v clean narrow a starts f h
          ]
    ]
