-- ===== src/Index/Tree.antt =====
-- Directories in internal/database/tree.go: the rows of the table dirs, the constraints that
-- internal/database/schema.sql puts on them, and the statements that find, insert, rename and move
-- one. An id is a number, the root the missing parent. The columns created_at and owner_id, which
-- nothing here reads, are left out, and so are errors of the disk.
pub mod Update
pub mod Distinct
pub mod Prefix
pub mod Placed
pub mod Relocations
pub mod Moves
pub mod Renames
pub mod Cases
pub mod Examples
use tdrive.Base.{
  ℕ, zero, suc, ◌+◌, ◌-◌, Bool, true, false, not, ◌&&◌, ◌||◌, Option, none, some, List, [], ◌∷◌,
  ◌++◌, ◌==◌, if◌then◌else◌, length, drop, Result, ok, err, ◌>>=◌,
}
use tdrive.Names.Path.{Text, text_eq}
use tdrive.Index.Like.{Like, subtree_pattern}

pub record Dir : Type 0 where
  pub id : ℕ
  pub parent_id : Option ℕ
  pub name : Text
  pub path : Text
  pub channel_id : Option ℕ
  pub tg_msg_id : ℕ
  pub updated_at : ℕ

pub data DbError : Type 0 where
  not_found conflict foreign_key : DbError

abbrev pub dir_by_id : ℕ → List Dir → Option Dir
dir_by_id id [] = none
dir_by_id id (r ∷ rs) = if r.id == id then some r else dir_by_id id rs

abbrev pub dir_by_path : Text → List Dir → Option Dir
dir_by_path p [] = none
dir_by_path p (r ∷ rs) = if text_eq (r.path) p then some r else dir_by_path p rs

-- `ifnull(parent_id, '') = ?`
abbrev pub same_parent : Option ℕ → Option ℕ → Bool
same_parent none none = true
same_parent none (some q) = false
same_parent (some p) none = false
same_parent (some p) (some q) = p == q

abbrev pub dir_child : Option ℕ → Text → List Dir → Option Dir
dir_child parent name [] = none
dir_child parent name (r ∷ rs) =
    if same_parent (r.parent_id) parent && text_eq (r.name) name
    then some r
    else dir_child parent name rs

-- The two unique indexes besides the key.
abbrev pub clash : Dir → Dir → Bool
clash r s =
    text_eq (r.path) (s.path)
    || (same_parent (r.parent_id) (s.parent_id) && text_eq (r.name) (s.name))

abbrev pub clashes : Dir → List Dir → Bool
clashes r [] = false
clashes r (s ∷ ss) = clash r s || clashes r ss

abbrev pub has_id : ℕ → List Dir → Bool
has_id id [] = false
has_id id (r ∷ rs) = r.id == id || has_id id rs

abbrev pub parent_there : Option ℕ → List Dir → Bool
parent_there none rows = true
parent_there (some p) rows = has_id p rows

unfoldable pub insert_dir : Dir → ℕ → List Dir → Result DbError (List Dir)
insert_dir d now rows =
    if has_id (d.id) rows || clashes d rows
    then err conflict
    else if parent_there (d.parent_id) rows
    then ok (record d { updated_at = now } ∷ rows)
    else err foreign_key

-- An UPDATE, row by row: the unique indexes are checked as each row is written.
abbrev pub changed : (Dir → Bool) → (Dir → Dir) → Dir → Dir
changed test set r = if test r then set r else r

abbrev pub put_first : Dir → Option (List Dir) → Option (List Dir)
put_first r none = none
put_first r (some rs) = some (r ∷ rs)

unfoldable pub update_from : (Dir → Bool) → (Dir → Dir) → List Dir → List Dir → Option (List Dir)
update_from test set done [] = some []
update_from test set done (r ∷ rs) =
    let written = changed test set r in
    let rest = update_from test set (written ∷ done) rs in
    if test r && (clashes written done || clashes written rs) then none else put_first written rest

abbrev pub stored : Option (List Dir) → Result DbError (List Dir)
stored none = err conflict
stored (some rows) = ok rows

unfoldable pub update : (Dir → Bool) → (Dir → Dir) → List Dir → Result DbError (List Dir)
update test set rows = stored (update_from test set [] rows)

unfoldable pub affected_one : ℕ → List Dir → Result DbError (List Dir)
affected_one id rows = if has_id id rows then ok rows else err not_found

unfoldable pub referenced : Option ℕ → List Dir → Result DbError (List Dir)
referenced parent rows = if parent_there parent rows then ok rows else err foreign_key

-- substr of SQLite counts from 1.
unfoldable pub prefix_cut : Text → ℕ
prefix_cut prefix = length prefix + 1

abbrev pub substr : Text → ℕ → Text
substr s start = drop (start - 1) s

module _ (l : Like) where
  open l use {like}

  abbrev pub below : Text → Dir → Bool
  below old r = like (subtree_pattern old) (r.path)

  abbrev pub rebased : Text → Text → ℕ → Dir → Dir
  unfolding prefix_cut
  rebased old new now r = record r {
    path = new ++ substr (r.path) (prefix_cut old);
    updated_at = now;
  }

  -- The transaction of RenameDir and of MoveDir: the row itself, then those below its old path.
  -- `parent` is the one that the row is given, where it is given one.
  unfoldable pub relocate :
      ℕ → Option ℕ → (Dir → Dir) → Text → ℕ → Option Dir → List Dir → Result DbError (List Dir)
  relocate id parent set new_path now none rows = err not_found
  relocate id parent set new_path now (some d) rows = do
    written ← update (λ r. r.id == id) set rows
    there ← referenced parent written
    one ← affected_one id there
    update (below (d.path)) (rebased (d.path) new_path now) one

  abbrev pub renamed : Text → Text → ℕ → Dir → Dir
  renamed new_name new_path now r = record r { name = new_name; path = new_path; updated_at = now }

  unfoldable pub rename_dir : ℕ → Text → Text → ℕ → List Dir → Result DbError (List Dir)
  rename_dir id new_name new_path now rows =
      relocate id none (renamed new_name new_path now) new_path now (dir_by_id id rows) rows

  abbrev pub moved : Option ℕ → Text → ℕ → Dir → Dir
  moved parent new_path now r = record r { parent_id = parent; path = new_path; updated_at = now }

  unfoldable pub move_dir : ℕ → Option ℕ → Text → ℕ → List Dir → Result DbError (List Dir)
  move_dir id parent new_path now rows =
      relocate id parent (moved parent new_path now) new_path now (dir_by_id id rows) rows
