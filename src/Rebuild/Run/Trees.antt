-- ===== src/Rebuild/Run/Trees.antt =====
-- The directories of a rebuild (internal/indexer/indexer.go) are a tree, also after renames.
use mathlib.Core.List.{Memᴰ}
use tdrive.Base.{◌≡◌, refl, ◌∙◌, false, none, some, List, []}
use tdrive.Names.Path.{Text}
use tdrive.Names.Path.Depth.{IsComponent}
use tdrive.Rebuild.Ids.{Ulid}
use tdrive.Rebuild.Resolve.{DirRecord, is_found}
use tdrive.Rebuild.Resolve.Recovering.{build_tree-AllResolved}
use tdrive.Rebuild.Resolve.Outcome.{each-Lies, each-IsComponent}
use tdrive.Rebuild.Scan.{Message, scan}
use tdrive.Rebuild.Scan.Said.{newest_dir}
use tdrive.Rebuild.Scan.Newest.{scan-newest}
use tdrive.Rebuild.Collisions.Followed.{Follows, dedupe_paths-Follows}
use tdrive.Rebuild.Channel.Directories.{dir_with-none}
use tdrive.Rebuild.Files.Refers.{entries, build_files-Sound}
use tdrive.Rebuild.Run.{Rebuilt, rebuild}

-- When no message of a channel is about the recovery folder, and the directories that the scan finds
-- have names that are not empty and hold no slash, the directories of the index are a tree: in the
-- order of dedupePaths each has its parent before it, if it has one, and lies at the final path of the
-- parent, or of the root, with its final name behind it, whatever was renamed.
pub rebuild-Follows :
    (guess_mime : Text → Text) (account : Text) (rid : Ulid) (history : List Message)
    → newest_dir rid history ≡ none
    → ((d : DirRecord) → Memᴰ d ((scan history).dirs) → IsComponent (d.name))
    → (r : Rebuilt) × (rebuild guess_mime account rid history ≡ some r) × Follows [] (r.dirs)
unfolding rebuild
rebuild-Follows guess_mime account rid history none_said names =
    let ds = (scan history).dirs in
    let (with_dirs, with_segments, distinct) = scan-newest history in
    let absent : is_found rid ds ≡ false = dir_with-none rid ds (with_dirs rid ∙ none_said) in
    let (rows, e, resolved) = build_tree-AllResolved rid ds in
    let (dirs, f, follows) =
      dedupe_paths-Follows rows (each-IsComponent rid ds absent distinct rows e names)
        (each-Lies rid ds absent distinct rows e) in
    let (files, g, separate, as_many, housed, owned) =
      build_files-Sound guess_mime account dirs ((scan history).files) in
    let rest = entries guess_mime account dirs ((scan history).files) in
    (
      record { dirs = dirs; files = files; segments = rest.1; broken_files = rest.2 },
      rw (e, f, g) refl,
      follows,
    )
