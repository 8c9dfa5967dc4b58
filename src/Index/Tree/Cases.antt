-- ===== src/Index/Tree/Cases.antt =====
-- Directories that differ in the case of letters.
use tdrive.Base.{
  ℕ, ◌≡◌, refl, ap, ◌∙◌, true, false, none, some, List, [], ◌∷◌, ◌++◌, arith, ◌==◌, length, drop,
  ok,
}
use tdrive.Names.Path.{Text, slash}
use tdrive.Index.Like.{Like}
use tdrive.Index.Like.Subtree.{has_prefix_fold, like-subtree_pattern}
use tdrive.Index.Tree.{Dir, dir_by_id, below, rebased, changed, rename_dir, renamed, prefix_cut}
use tdrive.Index.Tree.Update.{changed-true, changed-false, changed_id}
use tdrive.Index.Tree.Distinct.{Distinct, dir_by_id-id}
use tdrive.Index.Tree.Placed.{relocated, relocate-map, map-dir_by_id}

-- A successful RenameDir takes along each other row whose path begins with the old path and a slash
-- when the case of ASCII letters is put aside: its path gets the new one for its beginning, and its
-- parent stays. This holds of the directories in one that is not renamed but is spelled like it in
-- another case.
pub rename_dir-variant :
    (l : Like) (id p : ℕ) (new_name new : Text) (now : ℕ) (rows out : List Dir) (d r : Dir)
    → Distinct rows
    → dir_by_id id rows ≡ some d
    → dir_by_id p rows ≡ some r
    → (p == id) ≡ false
    → has_prefix_fold (d.path ++ slash ∷ []) (r.path) ≡ true
    → rename_dir l id new_name new now rows ≡ ok out
    → (s : Dir) × (dir_by_id p out ≡ some s)
      × (s.path ≡ new ++ drop (length (d.path)) (r.path))
      × (s.parent_id ≡ r.parent_id)
unfolding rename_dir rebased prefix_cut
rename_dir-variant l id p new_name new now rows out d r dist h k n b e =
    let set = renamed l new_name new now in
    let itself = λ (s : Dir). s.id == id in
    let moves = rebased l (d.path) new now in
    let test = below l (d.path) in
    let after = relocated l id set (d.path) new now in
    let (g, u) = relocate-map l id none set new now d rows out (rw h at e) dist in
    let not_it = ap (λ (x : ℕ). x == id) (dir_by_id-id p rows r k) ∙ n in
    let f : after r ≡ moves r =
      ap (changed test moves) (changed-false itself set r not_it)
      ∙ changed-true test moves r (like-subtree_pattern l (d.path) (r.path) ∙ b) in
    let ids = λ (s : Dir).
      changed_id test moves (λ t. refl) (changed itself set s)
      ∙ changed_id itself set (λ t. refl) s in
    (
      moves r,
      ap (dir_by_id p) g ∙ map-dir_by_id after ids p rows r k ∙ ap (λ (x : Dir). some x) f,
      ap (λ (x : ℕ). new ++ drop x (r.path)) (omega arith),
      refl,
    )
