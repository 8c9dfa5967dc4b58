-- ===== src/Rebuild/Scan/Newest.antt =====
-- Of the records of a directory, and of those of a segment, the newest one counts
-- (internal/indexer/indexer.go).
use tdrive.Base.{
  ℕ, ◌≡◌, sym, ap, ◌∙◌, inl, inr, ◌&&◌, Option, none, some, List, [], ◌∷◌, ◌==◌, if◌then◌else◌,
  Bool-cases, Result, ok, err,
}
use tdrive.Names.Path.{text_eq}
use tdrive.Tags.Caption.{TagError}
use tdrive.Tags.Record.{Kind, dir_kind, file_kind, Record}
use tdrive.Tags.Decode.{decode_caption}
use tdrive.Rebuild.Ids.{Ulid}
use tdrive.Rebuild.Resolve.{DirRecord, is_found}
use tdrive.Rebuild.Resolve.Undamaged.{DistinctIds}
use tdrive.Rebuild.Scan.{
  Message, Scanned, dir_from, segment_from, absorb_dir, absorb_kind, absorb_decoded, absorb,
  nothing_found, scan_from, scan,
}
use tdrive.Rebuild.Scan.Said.{
  or_else, or_else_assoc, or_else-none, dir_with, dir_said, newest_dir, absorb_dir-said,
  segment_with, segment_said, newest_segment, absorb_file-said,
}

or_else-step {ℓ} :
    {A : Type ℓ} {now after : Option A} (before said rest : Option A)
    → now ≡ or_else before said
    → after ≡ or_else now rest
    → after ≡ or_else before (or_else said rest)
or_else-step before said rest e f = f ∙ ap (λ o. or_else o rest) e ∙ or_else_assoc before said rest

absorb-dir_said :
    (id : Ulid) (m : Message) (r : Result TagError Record) (out : Scanned)
    → dir_with id ((absorb_decoded r m out).dirs)
      ≡ or_else (dir_with id (out.dirs)) (dir_said id m r)
absorb-dir_said id m (err e) out = sym (or_else-none (dir_with id (out.dirs)))
absorb-dir_said id m (ok rec) out = of_kind (rec.kind)
  where
    of_kind :
        (k : Kind)
        → dir_with id ((absorb_kind k rec m out).dirs)
          ≡ or_else (dir_with id (out.dirs)) (elim k [
            | dir_kind ↦ if text_eq (rec.id) id then some (dir_from rec m) else none
            | file_kind ↦ none
          ])
    of_kind dir_kind = absorb_dir-said id rec m (out.dirs)
    of_kind file_kind = sym (or_else-none (dir_with id (out.dirs)))

absorb-segment_said :
    (id : Ulid) (i : ℕ) (m : Message) (r : Result TagError Record) (out : Scanned)
    → segment_with id i ((absorb_decoded r m out).files)
      ≡ or_else (segment_with id i (out.files)) (segment_said id i m r)
absorb-segment_said id i m (err e) out = sym (or_else-none (segment_with id i (out.files)))
absorb-segment_said id i m (ok rec) out = of_kind (rec.kind)
  where
    of_kind :
        (k : Kind)
        → segment_with id i ((absorb_kind k rec m out).files)
          ≡ or_else (segment_with id i (out.files)) (elim k [
            | dir_kind ↦ none
            | file_kind ↦
                if text_eq (rec.id) id && rec.seg_index == i then some (segment_from m) else none
          ])
    of_kind dir_kind = sym (or_else-none (segment_with id i (out.files)))
    of_kind file_kind = absorb_file-said id i rec m (out.files)

absorb_dir-DistinctIds :
    (rec : Record) (m : Message) (ds : List DirRecord)
    → DistinctIds ds
    → DistinctIds (absorb_dir rec m ds)
absorb_dir-DistinctIds rec m ds d = elim (Bool-cases (is_found (rec.id) ds)) [
  | inl t ↦ rw t d
  | inr t ↦ rw t (t, d)
]

absorb-DistinctIds :
    (r : Result TagError Record) (m : Message) (out : Scanned)
    → DistinctIds (out.dirs)
    → DistinctIds ((absorb_decoded r m out).dirs)
absorb-DistinctIds (err e) m out d = d
absorb-DistinctIds (ok rec) m out d = of_kind (rec.kind)
  where
    of_kind : (k : Kind) → DistinctIds ((absorb_kind k rec m out).dirs)
    of_kind dir_kind = absorb_dir-DistinctIds rec m (out.dirs) d
    of_kind file_kind = d

scan_from-newest_dir :
    (id : Ulid) (out : Scanned) (history : List Message)
    → dir_with id ((scan_from out history).dirs)
      ≡ or_else (dir_with id (out.dirs)) (newest_dir id history)
unfolding scan_from newest_dir absorb
scan_from-newest_dir id out [] = sym (or_else-none (dir_with id (out.dirs)))
scan_from-newest_dir id out (m ∷ ms) =
    or_else-step _ _ _ (absorb-dir_said id m (decode_caption (m.caption)) out)
      (scan_from-newest_dir id (absorb out m) ms)

scan_from-newest_segment :
    (id : Ulid) (i : ℕ) (out : Scanned) (history : List Message)
    → segment_with id i ((scan_from out history).files)
      ≡ or_else (segment_with id i (out.files)) (newest_segment id i history)
unfolding scan_from newest_segment absorb
scan_from-newest_segment id i out [] = sym (or_else-none (segment_with id i (out.files)))
scan_from-newest_segment id i out (m ∷ ms) =
    or_else-step _ _ _ (absorb-segment_said id i m (decode_caption (m.caption)) out)
      (scan_from-newest_segment id i (absorb out m) ms)

scan_from-DistinctIds :
    (out : Scanned) (history : List Message)
    → DistinctIds (out.dirs)
    → DistinctIds ((scan_from out history).dirs)
unfolding scan_from absorb
scan_from-DistinctIds out [] d = d
scan_from-DistinctIds out (m ∷ ms) d =
    scan_from-DistinctIds (absorb out m) ms
      (absorb-DistinctIds (decode_caption (m.caption)) m out d)

-- What a scan keeps of a directory is what the newest message about it says, and what it keeps of a
-- segment of a file is the newest message with the file's id and the segment's index: neither older
-- messages nor those that no record can be read from change it. No directory is kept twice.
pub scan-newest :
    (history : List Message)
    → ((id : Ulid) → dir_with id ((scan history).dirs) ≡ newest_dir id history)
      × ((id : Ulid) (i : ℕ)
          → segment_with id i ((scan history).files) ≡ newest_segment id i history)
      × DistinctIds ((scan history).dirs)
unfolding scan
scan-newest history = (
  λ id. scan_from-newest_dir id nothing_found history,
  λ id i. scan_from-newest_segment id i nothing_found history,
  scan_from-DistinctIds nothing_found history tt,
)
