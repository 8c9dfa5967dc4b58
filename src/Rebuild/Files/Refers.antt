-- ===== src/Rebuild/Files/Refers.antt =====
-- What the rows of buildFiles (internal/indexer/indexer.go) refer to is there.
use tdrive.Base.{
  ℕ, suc, ◌≡◌, refl, ap, ap₂, ◌∙◌, Bool, true, false, ◌||◌, Option, none, some, List, [], ◌∷◌, ◌++◌,
  arith, length, All, Bool-cases, inl, inr,
}
use tdrive.Names.Path.{Text, text_eq}
use tdrive.Names.Path.Equal.{text_eq_iff}
use tdrive.Rebuild.Ids.{Ulid, text_lt}
use tdrive.Rebuild.Resolve.{Row, is_resolved}
use tdrive.Rebuild.Scan.{SegmentRecord, FileRecord, named_parent}
use tdrive.Rebuild.Files.{
  FileEntry, SegmentEntry, kept_dir, file_entry, segment_entries, file_entries, insert_file,
  sort_files, build_files,
}
use tdrive.Rebuild.Files.Slots.{Separate, OnlyNames, dedupe_file_names-Separate}

-- A file is in the root or in a directory that is there.
abbrev pub dir_there : Option Ulid → List Row → Bool
dir_there none dirs = true
dir_there (some p) dirs = is_resolved p dirs

abbrev pub has_file : Ulid → List FileEntry → Bool
has_file id [] = false
has_file id (f ∷ fs) = text_eq (f.id) id || has_file id fs

abbrev pub AllHoused : List Row → List FileEntry → Type 0
AllHoused dirs files = All (λ f. dir_there (f.dir_id) dirs ≡ true) files

abbrev pub AllOwned : List FileEntry → List SegmentEntry → Type 0
AllOwned files segments = All (λ s. has_file (s.file_id) files ≡ true) segments

kept_dir-there : (o : Option Ulid) (dirs : List Row) → dir_there (kept_dir o dirs) dirs ≡ true
kept_dir-there none dirs = refl
kept_dir-there (some p) dirs = elim (Bool-cases (is_resolved p dirs)) [
  | inl t ↦ rw t t
  | inr t ↦ rw t refl
]

AllHoused-insert :
    (dirs : List Row) (f : FileEntry) (files : List FileEntry)
    → dir_there (f.dir_id) dirs ≡ true
    → AllHoused dirs files
    → AllHoused dirs (insert_file f files)
AllHoused-insert dirs f [] h a = (h, tt)
AllHoused-insert dirs f (g ∷ gs) h (k, a) = elim (Bool-cases (text_lt (g.id) (f.id))) [
  | inl t ↦ rw t (k, AllHoused-insert dirs f gs h a)
  | inr t ↦ rw t (h, (k, a))
]

AllHoused-sort :
    (dirs : List Row) (files : List FileEntry)
    → AllHoused dirs files
    → AllHoused dirs (sort_files files)
unfolding sort_files
AllHoused-sort dirs [] a = tt
AllHoused-sort dirs (f ∷ fs) (h, a) =
    AllHoused-insert dirs f (sort_files fs) h (AllHoused-sort dirs fs a)

AllHoused-OnlyNames :
    (dirs : List Row) (files out : List FileEntry)
    → OnlyNames files out
    → AllHoused dirs files
    → AllHoused dirs out
AllHoused-OnlyNames dirs [] [] o a = tt
AllHoused-OnlyNames dirs (f ∷ fs) (g ∷ gs) (e, o) (h, a) =
    (ap (λ (x : FileEntry). dir_there (x.dir_id) dirs) e ∙ h, AllHoused-OnlyNames dirs fs gs o a)
AllHoused-OnlyNames dirs [] (g ∷ gs) o a = absurd o
AllHoused-OnlyNames dirs (f ∷ fs) [] o a = absurd o

has_file-insert :
    (id : Ulid) (f : FileEntry) (files : List FileEntry)
    → has_file id (insert_file f files) ≡ (text_eq (f.id) id || has_file id files)
has_file-insert id f [] = refl
has_file-insert id f (g ∷ gs) = elim (Bool-cases (text_lt (g.id) (f.id))) [
  | inl t ↦ rw t (
      ap (λ b. text_eq (g.id) id || b) (has_file-insert id f gs)
      ∙ swap (text_eq (g.id) id) (text_eq (f.id) id) (has_file id gs))
  | inr t ↦ rw t refl
]
  where
    swap : (a b c : Bool) → (a || (b || c)) ≡ (b || (a || c))
    swap a b c = ground arith

has_file-sort :
    (id : Ulid) (files : List FileEntry) → has_file id (sort_files files) ≡ has_file id files
unfolding sort_files
has_file-sort id [] = refl
has_file-sort id (f ∷ fs) =
    has_file-insert id f (sort_files fs) ∙ ap (λ b. text_eq (f.id) id || b) (has_file-sort id fs)

has_file-OnlyNames :
    (id : Ulid) (files out : List FileEntry)
    → OnlyNames files out
    → has_file id out ≡ has_file id files
has_file-OnlyNames id [] [] o = refl
has_file-OnlyNames id (f ∷ fs) (g ∷ gs) (e, o) =
    ap₂ (λ (x : FileEntry) (b : Bool). text_eq (x.id) id || b) e (has_file-OnlyNames id fs gs o)
has_file-OnlyNames id [] (g ∷ gs) o = absurd o
has_file-OnlyNames id (f ∷ fs) [] o = absurd o

AllOwned-same :
    (files out : List FileEntry) (segments : List SegmentEntry)
    → ((id : Ulid) → has_file id files ≡ true → has_file id out ≡ true)
    → AllOwned files segments
    → AllOwned out segments
AllOwned-same files out [] e a = tt
AllOwned-same files out (s ∷ ss) e (h, a) = (e (s.file_id) h, AllOwned-same files out ss e a)

AllOwned-append :
    (files : List FileEntry) (front back : List SegmentEntry)
    → AllOwned files front
    → AllOwned files back
    → AllOwned files (front ++ back)
AllOwned-append files [] back a b = b
AllOwned-append files (s ∷ ss) back (h, a) b = (h, AllOwned-append files ss back a b)

module _ (guess_mime : Text → Text) (account : Text) (dirs : List Row) where
  abbrev pub entries : List FileRecord → List FileEntry × List SegmentEntry × ℕ
  entries found = file_entries guess_mime account dirs found

  segment_entries-Owned :
      (id : Ulid) (files : List FileEntry) (segments : List (ℕ × SegmentRecord))
      → has_file id files ≡ true
      → AllOwned files (segment_entries guess_mime account id segments)
  segment_entries-Owned id files [] h = tt
  segment_entries-Owned id files (s ∷ ss) h = (h, segment_entries-Owned id files ss h)

  entries_sound :
      (found : List FileRecord)
      → AllHoused dirs ((entries found).0) × AllOwned ((entries found).0) ((entries found).1)
  unfolding file_entries
  entries_sound [] = (tt, tt)
  entries_sound (f ∷ fs) =
      let (housed, owned) = entries_sound fs in
      let e = file_entry guess_mime account dirs f in
      let files = (entries fs).0 in
      let own : has_file (f.rec.id) (e ∷ files) ≡ true =
        ground (arith, (text_eq_iff (f.rec.id) (f.rec.id)).1 refl) in
      (
        (kept_dir-there (named_parent (f.rec.parent_id)) dirs, housed),
        AllOwned-append (e ∷ files) (segment_entries guess_mime account (f.rec.id) (f.segments))
            ((entries fs).1) (segment_entries-Owned (f.rec.id) (e ∷ files) (f.segments) own)
            (AllOwned-same files (e ∷ files) ((entries fs).1) (λ id h. ground (arith, h)) owned),
      )

  length-entries : (found : List FileRecord) → length ((entries found).0) ≡ length found
  unfolding file_entries
  length-entries [] = refl
  length-entries (f ∷ fs) = ap (λ (n : ℕ). suc n) (length-entries fs)

  -- buildFiles returns, with as many tries for a number as there are files before a file, and one
  -- more. It keeps as many files as were found; no two of them have one name in one directory, each is
  -- in the root or in a directory that has a row, and each segment belongs to one of the files.
  pub build_files-Sound :
      (found : List FileRecord)
      → (files : List FileEntry) × (build_files guess_mime account dirs found
          ≡ some (files, (entries found).1, (entries found).2))
        × Separate files
        × (length files ≡ length found)
        × AllHoused dirs files
        × AllOwned files ((entries found).1)
  unfolding build_files
  build_files-Sound found =
      let before = (entries found).0 in
      let (files, e, separate, only, same) = dedupe_file_names-Separate before in
      let (housed, owned) = entries_sound found in
      (
        files,
        rw e refl,
        separate,
        same ∙ length-entries found,
        AllHoused-OnlyNames dirs (sort_files before) files only (AllHoused-sort dirs before housed),
        AllOwned-same before files ((entries found).1)
            (λ id h.
              has_file-OnlyNames id (sort_files before) files only ∙ has_file-sort id before ∙ h)
            owned,
      )
