-- ===== src/Rebuild/Channel.antt =====
-- What the messages of a channel say of the paths of its directories, for rebuild of
-- internal/indexer/indexer.go, up to the rows of directories, with the captions that
-- internal/tagcodec/tagcodec.go writes.
pub mod Directories
pub mod Written
pub mod Examples
use mathlib.Core.List.{Memᴰ}
use mathlib.Core.List.Memᴰ
use tdrive.Base.{
  ℕ, ◌≡◌, refl, sym, ap, ◌∙◌, subst, inl, inr, Bool, true, false, Option, none, some, List, [], ◌∷◌,
  arith, Bool-cases,
}
use tdrive.Names.Path.{Text, text_eq, root, join}
use tdrive.Names.Path.Equal.{text_eq_iff}
use tdrive.Rebuild.Ids.{Ulid}
use tdrive.Rebuild.Resolve.{DirRecord, Row, row_of, is_found, build_tree}
use tdrive.Rebuild.Resolve.Growth.{Every}
use tdrive.Rebuild.Resolve.Undamaged.{PathOf, PathOf.top, PathOf.under, row_at}
use tdrive.Rebuild.Resolve.Recovering.{build_tree-AllResolved}
use tdrive.Rebuild.Resolve.Outcome.{Lies, build_tree-Lies, build_tree-PathOf}
use tdrive.Rebuild.Scan.{Message, scan}
use tdrive.Rebuild.Scan.Said.{dir_with, newest_dir}
use tdrive.Rebuild.Scan.Newest.{scan-newest}

-- The newest messages of a channel put a directory at a path, by its parents up to the root.
pub data Described (history : List Message) : DirRecord → Text → Type 0 where
  on_top :
      (d : DirRecord)
      → newest_dir (d.id) history ≡ some d
      → d.parent_id ≡ none
      → Described history d (join root (d.name))
  inside :
      (d e : DirRecord) (path : Text)
      → newest_dir (d.id) history ≡ some d
      → d.parent_id ≡ some (e.id)
      → Described history e path
      → Described history d (join path (d.name))
