-- ===== src/Names/Scope/Confinement.antt =====
-- A client of a scope reaches its subtree and nothing else.
use tdrive.Base.{
  ◌≡◌, refl, sym, ap, ◌∙◌, subst, ◌⊎◌, inl, inr, Bool, true, false, ◌||◌, some, [], ◌∷◌, ◌++◌,
  arith, Bool-cases, Result, ok, err, ◌>>=◌,
}
use tdrive.Names.Path.{Text, PathReason, root, slash, text_eq, has_prefix, clean_path}
use tdrive.Names.Path.Equal.{same_text, text_eq_sound}
use tdrive.Names.Path.Canonical.{IsClean, canonical_rest, clean_path-IsClean}
use tdrive.Names.Scope.{
  Scope, whole_drive, narrowed, scope_of, unrestricted, rebase, to_real, trim_prefix, to_visible,
  is_shown, contains,
}

longer : (r rest : Text) → text_eq (r ++ slash ∷ rest) r ≡ false
longer [] rest = refl
longer (x ∷ xs) rest = ground (arith, longer xs rest)

prefix_there : (r rest : Text) → has_prefix (r ++ slash ∷ []) (r ++ slash ∷ rest) ≡ true
prefix_there [] rest = refl
prefix_there (x ∷ xs) rest = ground (arith, prefix_there xs rest)

pub trim_prefix-append : (r t : Text) → trim_prefix r (r ++ t) ≡ t
trim_prefix-append [] t = refl
trim_prefix-append (x ∷ xs) t = trim_prefix-append xs t

pub to_visible-rebase :
    (s : Scope) (rest : Text) → to_visible s (rebase s (slash ∷ rest)) ≡ some (slash ∷ rest)
unfolding to_visible
to_visible-rebase s rest = elim (Bool-cases (unrestricted s)) [
  | inl e ↦ rw e refl
  | inr e ↦ elim (Bool-cases (text_eq (slash ∷ rest) root)) [
    | inl f ↦ rw (e, f, same_text (s.scope_root), text_eq_sound (slash ∷ rest) root f) refl
    | inr f ↦
        rw
          (
            e,
            f,
            longer (s.scope_root) rest,
            prefix_there (s.scope_root) rest,
            trim_prefix-append (s.scope_root) (slash ∷ rest),
          )
          refl
  ]
]

to_real-cases :
    (s : Scope) (p r : Text)
    → to_real s p ≡ ok r
    → (c : Text) × (clean_path p ≡ ok c) × (rebase s c ≡ r)
unfolding to_real
to_real-cases s p r h = rebased (clean_path p) h
  where
    rebased :
        (x : Result PathReason Text)
        → (x >>= λ c. ok (rebase s c)) ≡ ok r
        → (c : Text) × (x ≡ ok c) × (rebase s c ≡ r)
    rebased (ok c) e = (c, refl, cc)
    rebased (err f) e = absurd (ground (arith, e))

-- Whatever path a client of a scope sends, with any number of ".." in it: the real path that ToReal
-- makes of it lies in the scope, and ToVisible shows it to the client under the cleaned path.
pub to_visible-to_real :
    (s : Scope) (p r : Text)
    → to_real s p ≡ ok r
    → (c : Text) × (clean_path p ≡ ok c) × (to_visible s r ≡ some c) × (contains s r ≡ true)
unfolding contains
to_visible-to_real s p r h =
    let (c, e, f) = to_real-cases s p r h in
    let k = clean_path-IsClean p c e in
    let (rest, g) = canonical_rest (k.above) in
    let d = k.form ∙ g in
    let shown =
      subst (λ (x : Text). to_visible s x ≡ some c) f
        (subst (λ (t : Text). to_visible s (rebase s t) ≡ some t) (sym d)
          (to_visible-rebase s rest)) in
    (c, e, shown, ap is_shown shown)

-- An administrator sees the whole drive. Any other account's scope is the whole drive or a canonical
-- path below the root.
pub scope_of-IsClean :
    (is_admin : Bool) (scope_path : Text)
    → (scope_of true scope_path ≡ whole_drive)
      × ((scope_of is_admin scope_path ≡ whole_drive)
          ⊎ (IsClean ((scope_of is_admin scope_path).scope_root)
              × (text_eq ((scope_of is_admin scope_path).scope_root) root ≡ false)))
unfolding scope_of
scope_of-IsClean is_admin scope_path = (
  refl,
  elim (Bool-cases (is_admin || text_eq scope_path [])) [
    | inl e ↦ rw e (inl refl)
    | inr e ↦ rw e (kept (clean_path scope_path) refl)
  ],
)
  where
    kept :
        (x : Result PathReason Text)
        → clean_path scope_path ≡ x
        → (narrowed x ≡ whole_drive)
          ⊎ (IsClean ((narrowed x).scope_root) × (text_eq ((narrowed x).scope_root) root ≡ false))
    kept (err f) e = inl refl
    kept (ok c) e = elim (Bool-cases (text_eq c root)) [
      | inl f ↦ rw f (inl refl)
      | inr f ↦ rw f (inr (clean_path-IsClean scope_path c e, f))
    ]
