-- ===== src/Names/Path/Parents.antt =====
-- Parent undoes Join.
use tdrive.Base.{ℕ, ◌≡◌, refl, ◌∙◌, true, false, none, some, [], ◌∷◌, ◌++◌, arith, ◌==◌, ok}
use tdrive.Names.Path.{
  Text, slash, root, text_eq, contains_rune, split_last, parent, join, has_prefix, is_descendant,
  validate_name, clean_path,
}
use tdrive.Names.Path.Canonical.{canonical_rest, clean_path-IsClean}

split_last-name : (name : Text) → contains_rune slash name ≡ false → split_last name ≡ none
split_last-name [] h = refl
split_last-name (c ∷ cs) h = rw (split_last-name cs (ground arith), no_slash) refl
  where
    no_slash : (c == slash) ≡ false
    no_slash = ground arith

split_last-join :
    (dir name : Text)
    → contains_rune slash name ≡ false
    → split_last (dir ++ slash ∷ name) ≡ some (dir, name)
split_last-join [] name h = rw (split_last-name name h) refl
split_last-join (c ∷ cs) name h = rw (split_last-join cs name h) refl

module _ (name : Text) where
  valid-nonempty : validate_name name ≡ ok tt → text_eq name [] ≡ false
  unfolding validate_name
  valid-nonempty h = ground (arith, h)

  valid-no_slash : validate_name name ≡ ok tt → contains_rune slash name ≡ false
  unfolding validate_name
  valid-no_slash h = ground (arith, h)

  prefix_of : (p : Text) → has_prefix (p ++ slash ∷ []) (p ++ slash ∷ name) ≡ true
  prefix_of [] = refl
  prefix_of (x ∷ xs) = ground (arith, prefix_of xs)

  below_root :
      text_eq name [] ≡ false
      → contains_rune slash name ≡ false
      → (parent (join root name) ≡ (root, name)) × (is_descendant root (join root name) ≡ true)
  unfolding join parent is_descendant
  below_root f h = (rw (f, split_last-name name h) refl, rw f refl)

  below_dir :
      (c : ℕ) (cs : Text)
      → contains_rune slash name ≡ false
      → let dir = slash ∷ c ∷ cs in
        (parent (join dir name) ≡ (dir, name)) × (is_descendant dir (join dir name) ≡ true)
  unfolding join parent is_descendant
  below_dir c cs h = (rw (split_last-join (c ∷ cs) name h) refl, prefix_of (slash ∷ c ∷ cs))

-- For a directory path that CleanPath has accepted and a name that ValidateName accepts: Parent of the
-- joined path gives back the directory and the name, and the joined path is a descendant of the
-- directory.
pub parent-join :
    (p dir name : Text)
    → clean_path p ≡ ok dir
    → validate_name name ≡ ok tt
    → (parent (join dir name) ≡ (dir, name)) × (is_descendant dir (join dir name) ≡ true)
parent-join p dir name h v =
    let k = clean_path-IsClean p dir h in
    let (rest, e) = canonical_rest (k.above) in rw (k.form ∙ e) (either rest)
  where
    either :
        (rest : Text)
        → (parent (join (slash ∷ rest) name) ≡ (slash ∷ rest, name))
          × (is_descendant (slash ∷ rest) (join (slash ∷ rest) name) ≡ true)
    either [] = below_root name (valid-nonempty name v) (valid-no_slash name v)
    either (c ∷ cs) = below_dir name c cs (valid-no_slash name v)
