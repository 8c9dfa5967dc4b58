-- ===== src/Names/Path/Examples.antt =====
-- "a//../b/" is "/b".
use tdrive.Base.{◌≡◌, refl, true, false, List, [], ◌∷◌, ok, err, All}
use tdrive.Names.Path.{
  Text, has_slash, reserved_name, validate_name, split_path, path_clean, clean_path, join,
  is_descendant, ancestor_names,
}
use tdrive.Names.Path.Splitting.{IsName, rev_onto}
use tdrive.Names.Path.Canonical.{canonical}
use tdrive.Names.Path.Components.{split_path-clean_path}

abbrev sent : Text
sent = 97 ∷ 47 ∷ 47 ∷ 46 ∷ 46 ∷ 47 ∷ 98 ∷ 47 ∷ []

abbrev slash_b : Text
slash_b = 47 ∷ 98 ∷ []

cleaned : clean_path sent ≡ ok slash_b
unfolding clean_path path_clean split_path validate_name
cleaned = refl

above_root : clean_path (47 ∷ 46 ∷ 46 ∷ 47 ∷ 98 ∷ []) ≡ ok slash_b
unfolding clean_path path_clean split_path validate_name
above_root = refl

dots_refused : validate_name (46 ∷ 46 ∷ []) ≡ err reserved_name
unfolding validate_name
dots_refused = refl

slash_refused : validate_name (97 ∷ 47 ∷ []) ≡ err has_slash
unfolding validate_name
slash_refused = refl

child : join slash_b (99 ∷ []) ≡ 47 ∷ 98 ∷ 47 ∷ 99 ∷ []
unfolding join
child = refl

inside : is_descendant slash_b (47 ∷ 98 ∷ 47 ∷ 99 ∷ []) ≡ true
unfolding is_descendant
inside = refl

sibling : is_descendant slash_b (47 ∷ 98 ∷ 99 ∷ []) ≡ false
unfolding is_descendant
sibling = refl

split_path-clean_path_example :
    (above : List Text) × (slash_b ≡ canonical above)
    × (split_path slash_b ≡ rev_onto [] above)
    × All (λ x. validate_name x ≡ ok tt) (split_path slash_b)
    × All IsName (split_path slash_b)
split_path-clean_path_example = split_path-clean_path sent slash_b cleaned

c_valid : validate_name (99 ∷ []) ≡ ok tt
unfolding validate_name
c_valid = refl

outwards : ancestor_names (47 ∷ 98 ∷ 47 ∷ 99 ∷ []) ≡ (99 ∷ []) ∷ (98 ∷ []) ∷ []
unfolding ancestor_names split_path
outwards = refl
