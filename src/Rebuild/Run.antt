-- ===== src/Rebuild/Run.antt =====
-- The whole of rebuild (internal/indexer/indexer.go), from a history that was read to its end to what
-- replace writes. The order in which replace writes the directories is left out.
pub mod Sound
pub mod Trees
pub mod Examples
use tdrive.Base.{ℕ, Option, some, List, ◌∷◌}
use tdrive.Names.Path.{Text}
use tdrive.Rebuild.Ids.{Ulid}
use tdrive.Rebuild.Resolve.{Row, build_tree}
use tdrive.Rebuild.Scan.{Message, scan}
use tdrive.Rebuild.Collisions.{◌>>=◌, dedupe_paths}
use tdrive.Rebuild.Files.{FileEntry, SegmentEntry, build_files}

-- What replace gets, and the number of broken files.
pub record Rebuilt : Type 0 where
  pub dirs : List Row
  pub files : List FileEntry
  pub segments : List SegmentEntry
  pub broken_files : ℕ

unfoldable pub rebuild : (Text → Text) → Text → Ulid → List Message → Option Rebuilt
rebuild guess_mime account rid history = do
  rows ← build_tree rid ((scan history).dirs)
  dirs ← dedupe_paths rows
  built ← build_files guess_mime account dirs ((scan history).files)
  some (record { dirs = dirs; files = built.0; segments = built.1; broken_files = built.2 })
