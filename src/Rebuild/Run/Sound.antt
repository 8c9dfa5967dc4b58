-- ===== src/Rebuild/Run/Sound.antt =====
-- What a rebuild (internal/indexer/indexer.go) gives to the database.
use tdrive.Base.{ℕ, ◌≡◌, refl, ◌∙◌, true, some, List, [], ◌∷◌, length, All}
use tdrive.Names.Path.{Text}
use tdrive.Rebuild.Ids.{Ulid}
use tdrive.Rebuild.Resolve.{DirRecord, Row, is_resolved}
use tdrive.Rebuild.Resolve.Pending.{AllResolved, found_head, found_tail}
use tdrive.Rebuild.Resolve.OneEach.{OneEach, build_tree-OneEach}
use tdrive.Rebuild.Resolve.Recovering.{build_tree-AllResolved}
use tdrive.Rebuild.Scan.{Message, scan}
use tdrive.Rebuild.Collisions.Paths.{Different, dedupe_paths-Different}
use tdrive.Rebuild.Collisions.Kept.{Renamed-OneEach}
use tdrive.Rebuild.Files.Slots.{Separate}
use tdrive.Rebuild.Files.Refers.{AllHoused, AllOwned, entries, build_files-Sound}
use tdrive.Rebuild.Run.{Rebuilt, rebuild}

-- Each record has a row.
abbrev pub AllKept : List DirRecord → List Row → Type 0
AllKept ds rows = All (λ d. is_resolved (d.id) rows ≡ true) ds

AllKept-resolved :
    (ds : List DirRecord) (rows out : List Row)
    → ((id : Ulid) → is_resolved id out ≡ is_resolved id rows)
    → AllResolved ds rows
    → AllKept ds out
AllKept-resolved [] rows out e a = tt
AllKept-resolved (d ∷ ds) rows out e a = (
  e (d.id) ∙ a (d.id) (found_head d ds),
  AllKept-resolved ds rows out e (λ id f. a id (found_tail id d ds f)),
)

-- What the database gets: directories with different paths, one row for an id and a row for each record
-- of one, as many files as were found, under different names in their directories, which are there,
-- and segments of these files only.
pub record IsIndex (ds : List DirRecord) (found : ℕ) (r : Rebuilt) : Type 0 where
  pub different : Different (r.dirs)
  pub one_each : OneEach (r.dirs)
  pub kept : AllKept ds (r.dirs)
  pub separate : Separate (r.files)
  pub as_many : length (r.files) ≡ found
  pub housed : AllHoused (r.dirs) (r.files)
  pub owned : AllOwned (r.files) (r.segments)

-- From every history, whatever its messages are, a rebuild ends with an index: no two directories have
-- one path or one id, also where a message uses the id of the recovery folder; every directory that
-- the scan found has a row; there are as many files as the scan found, each in the root or in a
-- directory of the index and no two with one name in one directory; and every segment is of a file
-- of the index.
pub rebuild-IsIndex :
    (guess_mime : Text → Text) (account : Text) (rid : Ulid)
    → (history : List Message)
    → (r : Rebuilt) × (rebuild guess_mime account rid history ≡ some r)
      × IsIndex ((scan history).dirs) (length ((scan history).files)) r
unfolding rebuild
rebuild-IsIndex guess_mime account rid history =
    let ds = (scan history).dirs in
    let (rows, e, resolved) = build_tree-AllResolved rid ds in
    let (dirs, f, different, renamed, ids) = dedupe_paths-Different rows in
    let (files, g, separate, as_many, housed, owned) =
      build_files-Sound guess_mime account dirs ((scan history).files) in
    let rest = entries guess_mime account dirs ((scan history).files) in
    (
      record { dirs = dirs; files = files; segments = rest.1; broken_files = rest.2 },
      rw (e, f, g) refl,
      record {
        different = different;
        one_each = Renamed-OneEach rows dirs renamed (build_tree-OneEach rid ds rows e);
        kept = AllKept-resolved ds rows dirs ids resolved;
        separate = separate;
        as_many = as_many;
        housed = housed;
        owned = owned;
      },
    )
