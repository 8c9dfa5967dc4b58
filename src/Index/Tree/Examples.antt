-- ===== src/Index/Tree/Examples.antt =====
-- A small tree.
use tdrive.Base.{ℕ, ◌≡◌, refl, Option, none, some, List, [], ◌∷◌, ◌++◌, length, drop, ok}
use tdrive.Names.Path.{Text}
use tdrive.Index.Like.{subtree_pattern, escape_like}
use tdrive.Index.Like.Examples.{documented}
use tdrive.Index.Like.Subtree.{has_prefix_fold}
use tdrive.Index.Tree.{
  Dir, dir_by_id, rename_dir, renamed, move_dir, relocate, update, update_from, affected_one,
  referenced, rebased, prefix_cut,
}
use tdrive.Index.Tree.Placed.{IsPlaced, IsTree, NoVariant, below_exactly, found-All}
use tdrive.Index.Tree.Relocations.{expected, AsExpected}
use tdrive.Index.Tree.Renames.{rename_dir-IsTree}
use tdrive.Index.Tree.Cases.{rename_dir-variant}

abbrev dir : ℕ → Option ℕ → Text → Text → Dir
dir id parent name path = record {
  id = id;
  parent_id = parent;
  name = name;
  path = path;
  channel_id = none;
  tg_msg_id = 0;
  updated_at = 5;
}

-- "/a", "/a/b" and "/A"
abbrev dir_a : Dir
dir_a = dir 1 none (97 ∷ []) (47 ∷ 97 ∷ [])

abbrev dir_b : Dir
dir_b = dir 2 (some 1) (98 ∷ []) (47 ∷ 97 ∷ 47 ∷ 98 ∷ [])

abbrev dir_upper : Dir
dir_upper = dir 3 none (65 ∷ []) (47 ∷ 65 ∷ [])

abbrev small : List Dir
small = dir_a ∷ dir_b ∷ dir_upper ∷ []

small-IsTree : IsTree small
small-IsTree = record {
  distinct = (refl, (refl, (refl, tt)));
  places = λ p r h.
      found-All (IsPlaced small) p small r
        (
          record { base = []; under = refl; placed = refl; one_name = refl },
          (
            record {
              base = 47 ∷ 97 ∷ [];
              under = (dir_a, refl, refl);
              placed = refl;
              one_name = refl;
            },
            (record { base = []; under = refl; placed = refl; one_name = refl }, tt),
          ),
        )
        h;
}

small-NoVariant : NoVariant (47 ∷ 97 ∷ []) small
small-NoVariant p r h =
    found-All
      (λ (s : Dir).
        has_prefix_fold (47 ∷ 97 ∷ 47 ∷ []) (s.path) ≡ below_exactly (47 ∷ 97 ∷ []) (s.path))
      p small r (refl, (refl, (refl, tt))) h

-- "/a" renamed to "c" at the time 9
abbrev small_renamed : List Dir
small_renamed =
    record dir_a { name = 99 ∷ []; path = 47 ∷ 99 ∷ []; updated_at = 9 }
    ∷ record dir_b { path = 47 ∷ 99 ∷ 47 ∷ 98 ∷ []; updated_at = 9 }
    ∷ dir_upper
    ∷ []

rename_runs : rename_dir documented 1 (99 ∷ []) (47 ∷ 99 ∷ []) 9 small ≡ ok small_renamed
unfolding rename_dir relocate update update_from affected_one referenced subtree_pattern escape_like
    rebased prefix_cut
rename_runs = refl

rename_dir-IsTree_example :
    IsTree small_renamed
    × AsExpected
        (expected 1 (renamed documented (99 ∷ []) (47 ∷ 99 ∷ []) 9) (47 ∷ 97 ∷ []) (47 ∷ 99 ∷ []) 9)
        small
        small_renamed
rename_dir-IsTree_example =
    rename_dir-IsTree documented small small_renamed 1 dir_a [] 9 (99 ∷ []) small-IsTree refl refl
      small-NoVariant refl rename_runs

-- "/a/b" moved to the root
abbrev small_moved : List Dir
small_moved =
    dir_a ∷ record dir_b { parent_id = none; path = 47 ∷ 98 ∷ []; updated_at = 9 } ∷ dir_upper ∷ []

move_runs : move_dir documented 2 none (47 ∷ 98 ∷ []) 9 small ≡ ok small_moved
unfolding move_dir relocate update update_from affected_one referenced subtree_pattern escape_like
    rebased prefix_cut
move_runs = refl

b-NoVariant : NoVariant (47 ∷ 97 ∷ 47 ∷ 98 ∷ []) small
b-NoVariant p r h =
    found-All
      (λ (s : Dir).
        has_prefix_fold (47 ∷ 97 ∷ 47 ∷ 98 ∷ 47 ∷ []) (s.path)
        ≡ below_exactly (47 ∷ 97 ∷ 47 ∷ 98 ∷ []) (s.path))
      p small r (refl, (refl, (refl, tt))) h

-- "/A/x"
abbrev dir_x : Dir
dir_x = dir 4 (some 3) (120 ∷ []) (47 ∷ 65 ∷ 47 ∷ 120 ∷ [])

abbrev cased : List Dir
cased = dir_a ∷ dir_upper ∷ dir_x ∷ []

-- Renaming "/a" to "/c" takes "/A/x" to "/c/x".
abbrev cased_renamed : List Dir
cased_renamed =
    record dir_a { name = 99 ∷ []; path = 47 ∷ 99 ∷ []; updated_at = 9 }
    ∷ dir_upper
    ∷ record dir_x { path = 47 ∷ 99 ∷ 47 ∷ 120 ∷ []; updated_at = 9 }
    ∷ []

cased_runs : rename_dir documented 1 (99 ∷ []) (47 ∷ 99 ∷ []) 9 cased ≡ ok cased_renamed
unfolding rename_dir relocate update update_from affected_one referenced subtree_pattern escape_like
    rebased prefix_cut
cased_runs = refl

rename_dir-variant_example :
    (s : Dir) × (dir_by_id 4 cased_renamed ≡ some s)
    × (s.path ≡ (47 ∷ 99 ∷ []) ++ drop (length (dir_a.path)) (dir_x.path))
    × (s.parent_id ≡ dir_x.parent_id)
rename_dir-variant_example =
    rename_dir-variant documented 1 4 (99 ∷ []) (47 ∷ 99 ∷ []) 9 cased cased_renamed dir_a dir_x
      (refl, (refl, (refl, tt))) refl refl refl refl cased_runs
