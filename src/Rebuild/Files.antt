-- ===== src/Rebuild/Files.antt =====
-- The rows of files: buildFiles and dedupeFileNames of internal/indexer/indexer.go. GuessMIME of a name
-- and the id of the scanning account are arguments.
pub mod Whole
pub mod Slots
pub mod Refers
pub mod Examples
use tdrive.Base.{
  ℕ, suc, ◌+◌, Bool, true, false, ◌||◌, Option, none, some, List, [], ◌∷◌, ◌++◌, ◌==◌,
  if◌then◌else◌, length, map,
}
use tdrive.Base.Int.{ℤ}
use tdrive.Index.Messages.{FileStatus, complete, broken}
use tdrive.Names.Path.{Text, slash}
use tdrive.Rebuild.Ids.{Ulid, text_lt}
use tdrive.Rebuild.Resolve.{Row, is_resolved}
use tdrive.Rebuild.Scan.{StoredDoc, SegmentRecord, FileRecord, named_parent}
use tdrive.Rebuild.Collisions.{◌>>=◌, is_taken, free_name}

-- database.File, less the times and the channel, which is one for all.
pub record FileEntry : Type 0 where
  pub id : Ulid
  pub dir_id : Option Ulid
  pub name : Text
  pub size : ℤ
  pub mime : Text
  pub segment_size : ℤ
  pub segment_count : ℕ
  pub status : FileStatus
  pub owner_id : Text

-- database.Segment; the handles of a document are those of the account that read it.
pub record SegmentEntry : Type 0 where
  pub file_id : Ulid
  pub idx : ℕ
  pub size : ℤ
  pub tg_msg_id : ℕ
  pub doc : Option StoredDoc
  pub account_id : Text

-- The file's folder, or the root when it is gone.
abbrev pub kept_dir : Option Ulid → List Row → Option Ulid
kept_dir none dirs = none
kept_dir (some p) dirs = if is_resolved p dirs then some p else none

unfoldable pub status_of : FileRecord → FileStatus
status_of f = if length (f.segments) == f.rec.seg_count then complete else broken

abbrev pub counted : FileStatus → ℕ → ℕ
counted broken n = suc n
counted s n = n

abbrev pub account_of : Text → Option StoredDoc → Text
account_of account none = []
account_of account (some d) = account

module _ (guess_mime : Text → Text) (account : Text) where
  abbrev pub file_entry : List Row → FileRecord → FileEntry
  file_entry dirs f = record {
    id = f.rec.id;
    dir_id = kept_dir (named_parent (f.rec.parent_id)) dirs;
    name = f.rec.name;
    size = f.rec.total_size;
    mime = guess_mime (f.rec.name);
    segment_size = f.rec.segment_size;
    segment_count = f.rec.seg_count;
    status = status_of f;
    owner_id = f.rec.owner_id;
  }

  abbrev pub segment_entries : Ulid → List (ℕ × SegmentRecord) → List SegmentEntry
  segment_entries id [] = []
  segment_entries id (s ∷ ss) =
      record {
        file_id = id;
        idx = s.0;
        size = s.1.size;
        tg_msg_id = s.1.msg_id;
        doc = s.1.doc;
        account_id = account_of account (s.1.doc);
      }
      ∷ segment_entries id ss

  -- The loop of buildFiles: files, segments, and how many files are broken.
  unfoldable pub file_entries : List Row → List FileRecord → List FileEntry × List SegmentEntry × ℕ
  file_entries dirs [] = ([], [], 0)
  file_entries dirs (f ∷ fs) =
      let (files, segments, n) = file_entries dirs fs in
      (
        file_entry dirs f ∷ files,
        segment_entries (f.rec.id) (f.segments) ++ segments,
        counted (status_of f) n,
      )

abbrev pub dir_text : Option Ulid → Text
dir_text none = []
dir_text (some p) = p

-- The slot that a name takes in a directory.
abbrev pub file_slot : Option Ulid → Text → Text
file_slot dir name = dir_text dir ++ slash ∷ name

abbrev pub insert_file : FileEntry → List FileEntry → List FileEntry
insert_file f [] = f ∷ []
insert_file f (g ∷ gs) =
    let rest = insert_file f gs in if text_lt (g.id) (f.id) then g ∷ rest else f ∷ g ∷ gs

unfoldable pub sort_files : List FileEntry → List FileEntry
sort_files [] = []
sort_files (f ∷ fs) = insert_file f (sort_files fs)

abbrev pub with_name : FileEntry → Text → FileEntry
with_name f name = record f { name = name }

unfoldable pub dedupe_files_from : List Text → List FileEntry → Option (List FileEntry)
dedupe_files_from taken [] = some []
dedupe_files_from taken (f ∷ fs) = do
  name ← free_name (file_slot (f.dir_id)) (f.name) taken
  rest ← dedupe_files_from (file_slot (f.dir_id) name ∷ taken) fs
  some (with_name f name ∷ rest)

unfoldable pub dedupe_file_names : List FileEntry → Option (List FileEntry)
dedupe_file_names files = dedupe_files_from [] (sort_files files)

-- buildFiles: the files with their names, the segments, and how many files are broken.
unfoldable pub build_files :
    (Text → Text)
    → Text
    → List Row
    → List FileRecord
    → Option (List FileEntry × List SegmentEntry × ℕ)
build_files guess_mime account dirs found = do
  files ← dedupe_file_names ((file_entries guess_mime account dirs found).0)
  some (
    files,
    (file_entries guess_mime account dirs found).1,
    (file_entries guess_mime account dirs found).2,
  )
