-- ===== src/Rebuild/Channel/Directories.antt =====
-- The rows of directories that a rebuild (internal/indexer/indexer.go) gets from the messages of a
-- channel.
use mathlib.Core.List.{Memᴰ}
use tdrive.Base.{◌≡◌, refl, sym, ◌∙◌, inl, inr, false, none, some, List, [], ◌∷◌, arith, Bool-cases}
use tdrive.Names.Path.{Text, text_eq}
use tdrive.Rebuild.Ids.{Ulid}
use tdrive.Rebuild.Resolve.{DirRecord, Row, row_of, is_found, build_tree}
use tdrive.Rebuild.Resolve.Growth.{Every}
use tdrive.Rebuild.Resolve.Undamaged.{PathOf, PathOf.top, PathOf.under, row_at}
use tdrive.Rebuild.Resolve.Recovering.{build_tree-AllResolved}
use tdrive.Rebuild.Resolve.Outcome.{Lies, build_tree-Lies, build_tree-PathOf}
use tdrive.Rebuild.Scan.{Message, scan}
use tdrive.Rebuild.Scan.Said.{dir_with, newest_dir}
use tdrive.Rebuild.Scan.Newest.{scan-newest}
use tdrive.Rebuild.Collisions.{sort_rows, dedupe_paths}
use tdrive.Rebuild.Collisions.Paths.{Renamed, dedupe_paths-Different}
use tdrive.Rebuild.Channel.{Described, Described.on_top, Described.inside}

dir_with-Memᴰ :
    (id : Ulid) (ds : List DirRecord) (d : DirRecord) → dir_with id ds ≡ some d → Memᴰ d ds
dir_with-Memᴰ id [] d f = ground arith
dir_with-Memᴰ id (e ∷ es) d f = elim (Bool-cases (text_eq (e.id) id)) [
  | inl t ↦ let same : e ≡ d = ground (arith, t, f) in Memᴰ.head (sym same)
  | inr t ↦ Memᴰ.tail (dir_with-Memᴰ id es d (ground (arith, t, f)))
]

pub dir_with-none :
    (id : Ulid) (ds : List DirRecord) → dir_with id ds ≡ none → is_found id ds ≡ false
dir_with-none id [] f = refl
dir_with-none id (e ∷ es) f = elim (Bool-cases (text_eq (e.id) id)) [
  | inl t ↦ ground (arith, t, f)
  | inr t ↦ ground (arith, t, dir_with-none id es (ground (arith, t, f)))
]

module _ (rid : Ulid) (history : List Message) where
  Described-PathOf :
      (d : DirRecord) (path : Text) → Described history d path → PathOf ((scan history).dirs) d path
  Described-PathOf d _ (on_top _ n e) =
      let m = dir_with-Memᴰ (d.id) ((scan history).dirs) d ((scan-newest history).0 (d.id) ∙ n) in
      top d m e
  Described-PathOf d _ (inside _ c path n e above) =
      let m = dir_with-Memᴰ (d.id) ((scan history).dirs) d ((scan-newest history).0 (d.id) ∙ n) in
      under d c path m e (Described-PathOf c path above)

  -- For every channel that has no record of the recovery folder's own id, what scan finds gets rows
  -- from the passes and rounds of buildTree, before dedupePaths tells colliding names apart. In these
  -- rows each lies at the path of its parent's row, or of the root, with its name behind it; and each
  -- directory whose newest message names parents that are all in the channel has the row that these
  -- messages describe, with its own parent and the path of the names from the root. What dedupePaths
  -- then makes of them are the same rows in the order by depth and id, each with its id, parent and
  -- message as before; only names, and the paths with them, may change.
  pub build_tree-Described :
      newest_dir rid history ≡ none
      → (rows : List Row) × (build_tree rid ((scan history).dirs) ≡ some rows)
        × Every Lies rows
        × ((d : DirRecord) (path : Text)
            → Described history d path
            → row_of (d.id) rows ≡ some (row_at d path))
        × (out : List Row) × (dedupe_paths rows ≡ some out)
        × Renamed (sort_rows rows) out
  build_tree-Described none_said =
      let dirs = (scan history).dirs in
      let (with_dirs, with_segments, distinct) = scan-newest history in
      let absent : is_found rid dirs ≡ false = dir_with-none rid dirs (with_dirs rid ∙ none_said) in
      let (rows, built, resolved) = build_tree-AllResolved rid dirs in
      let (out, deduped, different, renamed, ids) = dedupe_paths-Different rows in
      (
        rows,
        built,
        build_tree-Lies rid dirs absent distinct rows built,
        λ d path p.
            build_tree-PathOf rid dirs absent distinct rows built d path
              (Described-PathOf d path p),
        out,
        deduped,
        renamed,
      )
