-- ===== src/Names/Scope/Listing.antt =====
-- A listing as a client of a scope sees it.
use tdrive.Base.{
  ◌≡◌, refl, sym, ap, ◌∙◌, subst, inl, inr, Bool, true, false, Option, none, some, List, [], ◌∷◌,
  ◌++◌, map, arith, if◌then◌else◌, Bool-cases, All,
}
use tdrive.Names.Path.{Text, slash}
use tdrive.Names.Scope.{
  Scope, unrestricted, rebase, to_visible, is_shown, contains, Entry, shown_as, apply, apply_each,
  apply_all,
}
use tdrive.Names.Scope.Confinement.{to_visible-rebase}

abbrev pub IsRooted : Text → Type 0
IsRooted p = (rest : Text) × (p ≡ slash ∷ rest)

rebase_whole : (s : Scope) (p : Text) → unrestricted s ≡ true → rebase s p ≡ p
rebase_whole s p e = rw e refl

visible_again : (s : Scope) (p : Text) → IsRooted p → to_visible s (rebase s p) ≡ some p
visible_again s p (rest, e) =
    subst (λ (t : Text). to_visible s (rebase s t) ≡ some t) (sym e) (to_visible-rebase s rest)

hidden : (o : Option Text) → is_shown o ≡ false → o ≡ none
hidden none h = refl
hidden (some v) h = absurd (ground arith)

module _ {A : Type 0} where
  abbrev at_path : A → Text → Entry A
  at_path about p = record { path = p; about = about }

  -- The entry with its path in the drive.
  abbrev pub real_entry : Scope → Entry A → Entry A
  real_entry s e = at_path (e.about) (rebase s (e.path))

  apply-real_entry :
      (s : Scope) (e : Entry A) → IsRooted (e.path) → apply s (real_entry s e) ≡ some e
  unfolding apply
  apply-real_entry s e r = elim (Bool-cases (unrestricted s)) [
    | inl u ↦ choose_true _ _ _ u (ap (λ p. some (at_path (e.about) p)) (rebase_whole s (e.path) u))
    | inr u ↦ choose_false _ _ _ u (ap (shown_as (real_entry s e)) (visible_again s (e.path) r))
  ]
    where
      choose_true :
          {b : Bool} (x y z : Option (Entry A)) → b ≡ true → x ≡ z → (if b then x else y) ≡ z
      choose_true x y z u h = rw u h

      choose_false :
          {b : Bool} (x y z : Option (Entry A)) → b ≡ false → y ≡ z → (if b then x else y) ≡ z
      choose_false x y z u h = rw u h

  apply-hidden :
      (s : Scope) (e : Entry A)
      → unrestricted s ≡ false
      → contains s (e.path) ≡ false
      → apply s e ≡ none
  unfolding apply contains
  apply-hidden s e u h = rw (u, hidden (to_visible s (e.path)) h) refl

  -- Entries of the scope, given by the client's paths, with others before each.
  abbrev pub Hidden : Scope → List (Entry A) → Type 0
  Hidden s = All (λ e. contains s (e.path) ≡ false)

  pub apply_each-real :
      (s : Scope) (es : List (Entry A))
      → All (λ e. IsRooted (e.path)) es
      → apply_each s (map (real_entry s) es) ≡ es
  apply_each-real s [] h = refl
  apply_each-real s (e ∷ es) h = rw (apply-real_entry s e (h.0), apply_each-real s es (h.1)) refl

  apply_each-Hidden :
      (s : Scope) (es rest : List (Entry A))
      → unrestricted s ≡ false
      → Hidden s es
      → apply_each s (es ++ rest) ≡ apply_each s rest
  apply_each-Hidden s [] rest u h = refl
  apply_each-Hidden s (e ∷ es) rest u h =
      rw (apply-hidden s e u (h.0)) (apply_each-Hidden s es rest u (h.1))

  -- In a restricted scope, a listing of entries outside of it and then of entries of it, given by the
  -- paths that the client sees, comes out as the latter with just these paths, in their order; the
  -- others are left out.
  pub apply_all-real :
      (s : Scope) (outside inside : List (Entry A))
      → unrestricted s ≡ false
      → Hidden s outside
      → All (λ e. IsRooted (e.path)) inside
      → apply_all s (outside ++ map (real_entry s) inside) ≡ inside
  unfolding apply_all
  apply_all-real s outside inside u h r =
      rw u
        (apply_each-Hidden s outside (map (real_entry s) inside) u h ∙ apply_each-real s inside r)
