-- ===== src/Rebuild/Collisions/Examples.antt =====
-- Two directories of one name in the recovery folder, the second with a directory in it.
use tdrive.Base.{ℕ, ◌≡◌, refl, Option, none, some, List, [], ◌∷◌}
use tdrive.Names.Path.{Text, join, split_path}
use tdrive.Tags.Numbers.{decimal, decimal_onto}
use tdrive.Rebuild.Ids.{Ulid}
use tdrive.Rebuild.Resolve.{Row}
use tdrive.Rebuild.Collisions.{sort_rows, dedupe_from, dedupe_paths, free_name, numbered_free}

abbrev row : ℕ → Option Ulid → Text → Text → Row
row c parent name path = record {
  id = c ∷ [];
  parent_id = parent;
  name = name;
  path = path;
  msg_id = c;
}

-- "/a", "/a" again, and "/a/b" in the second
abbrev clashing : List Row
clashing =
    row 3 (some (2 ∷ [])) (98 ∷ []) (47 ∷ 97 ∷ 47 ∷ 98 ∷ [])
    ∷ row 2 none (97 ∷ []) (47 ∷ 97 ∷ [])
    ∷ row 1 none (97 ∷ []) (47 ∷ 97 ∷ [])
    ∷ []

abbrev paths_of : Option (List Row) → List Text
paths_of none = []
paths_of (some rows) = collect rows
  where
    collect : List Row → List Text
    collect [] = []
    collect (r ∷ rs) = r.path ∷ collect rs

-- "/a", "/a (2)" and "/a (2)/b"
renamed_with_child :
    paths_of (dedupe_paths clashing)
    ≡ (47 ∷ 97 ∷ [])
      ∷ (47 ∷ 97 ∷ 32 ∷ 40 ∷ 50 ∷ 41 ∷ [])
      ∷ (47 ∷ 97 ∷ 32 ∷ 40 ∷ 50 ∷ 41 ∷ 47 ∷ 98 ∷ [])
      ∷ []
unfolding dedupe_paths dedupe_from sort_rows free_name numbered_free join split_path decimal
    decimal_onto
renamed_with_child = refl
