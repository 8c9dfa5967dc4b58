-- ===== src/Index/Tree/Renames.antt =====
-- RenameDir and MoveDir on an index that is a tree.
use tdrive.Base.{
  ℕ, ◌≡◌, ◌≢◌, refl, sym, ap, ◌∙◌, true, false, Option, none, some, List, [], ◌∷◌, ◌++◌, arith,
  Bool-cases, inl, inr, ok,
}
use tdrive.Names.Path.{Text, slash, contains_rune}
use tdrive.Index.Like.{Like}
use tdrive.Index.Like.Subtree.{has_prefix_fold}
use tdrive.Index.Tree.{Dir, dir_by_id, rename_dir, move_dir, renamed, moved}
use tdrive.Index.Tree.Prefix.{not_below}
use tdrive.Index.Tree.Placed.{Under, IsTree, NoVariant, below_exactly}
use tdrive.Index.Tree.Relocations.{expected, AsExpected}
use tdrive.Index.Tree.Moves.{relocate-IsTree}

no_room_fold :
    (xs name : Text)
    → has_prefix_fold (xs ++ slash ∷ []) name ≡ true
    → contains_rune slash name ≡ true
no_room_fold [] [] h = absurd (ground arith)
no_room_fold [] (y ∷ ys) h = ground arith
no_room_fold (x ∷ xs) [] h = absurd (ground arith)
no_room_fold (x ∷ xs) (y ∷ ys) h = ground (arith, no_room_fold xs ys)

-- A new name in the same directory is not below the old one, in any case of letters.
sibling_outside :
    (base name new_name : Text)
    → contains_rune slash new_name ≡ false
    → has_prefix_fold ((base ++ slash ∷ name) ++ slash ∷ []) (base ++ slash ∷ new_name) ≡ false
sibling_outside [] name new_name h =
    elim (Bool-cases (has_prefix_fold (name ++ slash ∷ []) new_name)) [
      | inl e ↦ absurd (ground (arith, no_room_fold name new_name e))
      | inr e ↦ rw e refl
    ]
sibling_outside (x ∷ xs) name new_name h = ground (arith, sibling_outside xs name new_name h)

longer_ne : (base t : Text) → base ++ slash ∷ t ≢ base
longer_ne [] t e = absurd (ground arith)
longer_ne (x ∷ xs) t e = longer_ne xs t (ground arith)

Under-one :
    (rows : List Dir) (parent : Option ℕ) (a b : Text)
    → Under rows parent a
    → Under rows parent b
    → a ≡ b
Under-one rows none a b u v = u ∙ sym v
Under-one rows (some p) a b (q, h, e) (r, k, f) =
    let g : some q ≡ some r = sym h ∙ k in
    let z : q ≡ r = ground arith in sym e ∙ ap (λ (x : Dir). x.path) z ∙ f

module _ (l : Like) (rows out : List Dir) (id : ℕ) (d : Dir) (base : Text) (now : ℕ) where
  -- In an index that is a tree, let no directory lie below a path that is the renamed one's but for
  -- the case of letters. When RenameDir, with the path that Join makes of the parent's path and a
  -- name without a slash, succeeds, then the index is a tree again; the row has the new name and
  -- path, those below it have the new path in place of the old one, and the others are as they were.
  pub rename_dir-IsTree :
      (new_name : Text)
      → IsTree rows
      → dir_by_id id rows ≡ some d
      → Under rows (d.parent_id) base
      → NoVariant (d.path) rows
      → contains_rune slash new_name ≡ false
      → rename_dir l id new_name (base ++ slash ∷ new_name) now rows ≡ ok out
      → IsTree out
        × AsExpected
            (expected id
              (renamed l new_name (base ++ slash ∷ new_name) now)
              (d.path)
              (base ++ slash ∷ new_name)
              now)
            rows
            out
  unfolding rename_dir
  rename_dir-IsTree new_name t h u v n k =
      relocate-IsTree l rows id (renamed l new_name (base ++ slash ∷ new_name) now) d
        (base ++ slash ∷ new_name) now
        (record {
          tree = t;
          here = h;
          no_variant = v;
          base = base;
          under = u;
          at = refl;
          one_name = n;
          outside = ap (λ (x : Text). below_exactly x base) at_base ∙ not_below base (d.name);
          elsewhere = λ e. longer_ne base (d.name) (sym at_base ∙ e);
          new_outside =
              ap (λ (x : Text). has_prefix_fold (x ++ slash ∷ []) (base ++ slash ∷ new_name))
                at_base
              ∙ sibling_outside base (d.name) new_name n;
          set_path = refl;
          keeps = λ r. refl;
        })
        none out (rw h at k)
    where
      at_base : d.path ≡ base ++ slash ∷ d.name
      at_base =
          let w = t.places id d h in
          w.placed
          ∙ ap (λ (x : Text). x ++ slash ∷ d.name)
              (Under-one rows (d.parent_id) (w.base) base (w.under) u)

  -- In an index that is a tree, let no directory lie below a path that is the moved one's but for the
  -- case of letters, nor the new path. When MoveDir into a directory that is neither the moved one
  -- nor below it succeeds, then the index is a tree again; the row has the new parent and path,
  -- those below it have the new path in place of the old one, and the others are as they were.
  pub move_dir-IsTree :
      (parent : Option ℕ)
      → IsTree rows
      → dir_by_id id rows ≡ some d
      → Under rows parent base
      → NoVariant (d.path) rows
      → has_prefix_fold (d.path ++ slash ∷ []) (base ++ slash ∷ d.name) ≡ false
      → below_exactly (d.path) base ≡ false
      → d.path ≢ base
      → move_dir l id parent (base ++ slash ∷ d.name) now rows ≡ ok out
      → IsTree out
        × AsExpected
            (expected id
              (moved l parent (base ++ slash ∷ d.name) now)
              (d.path)
              (base ++ slash ∷ d.name)
              now)
            rows
            out
  unfolding move_dir
  move_dir-IsTree parent t h u v n b e k =
      relocate-IsTree l rows id (moved l parent (base ++ slash ∷ d.name) now) d
        (base ++ slash ∷ d.name) now
        (record {
          tree = t;
          here = h;
          no_variant = v;
          base = base;
          under = u;
          at = refl;
          one_name = (t.places id d h).one_name;
          outside = b;
          elsewhere = e;
          new_outside = n;
          set_path = refl;
          keeps = λ r. refl;
        })
        parent out (rw h at k)
