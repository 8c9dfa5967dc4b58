-- ===== src/Rebuild/Scan.antt =====
-- The walk over a channel's history: Message, scanned, absorb and scan of internal/indexer/indexer.go.
-- Progress and logs are left out.
pub mod Said
pub mod Newest
pub mod Examples
use tdrive.Base.{
  ℕ, Bool, true, false, ◌||◌, Option, none, some, List, [], ◌∷◌, ◌==◌, if◌then◌else◌, Result, ok,
  err,
}
use tdrive.Base.Int.{ℤ, pos}
use tdrive.Names.Path.{Text, text_eq}
use tdrive.Tags.Caption.{TagError}
use tdrive.Tags.Record.{Kind, dir_kind, file_kind, Record}
use tdrive.Tags.Decode.{decode_caption}
use tdrive.Rebuild.Ids.{Ulid}
use tdrive.Rebuild.Resolve.{DirRecord, is_found}

pub record StoredDoc : Type 0 where
  pub doc_id : ℤ
  pub access_hash : ℤ
  pub dc_id : ℕ
  pub file_reference : List ℕ
  pub size : ℤ

pub record Message : Type 0 where
  pub id : ℕ
  pub caption : Text
  pub doc : Option StoredDoc

pub record SegmentRecord : Type 0 where
  pub msg_id : ℕ
  pub doc : Option StoredDoc
  pub size : ℤ

-- The map from the index of a segment is a list of pairs.
pub record FileRecord : Type 0 where
  pub rec : Record
  pub segments : List (ℕ × SegmentRecord)

pub record Scanned : Type 0 where
  pub dirs : List DirRecord
  pub files : List FileRecord

abbrev pub named_parent : Text → Option Ulid
named_parent [] = none
named_parent (c ∷ cs) = some (c ∷ cs)

-- What a directory record keeps of its caption.
abbrev pub dir_from : Record → Message → DirRecord
dir_from rec m = record {
  id = rec.id;
  parent_id = named_parent (rec.parent_id);
  name = rec.name;
  msg_id = m.id;
}

abbrev pub doc_size : Option StoredDoc → ℤ
doc_size none = pos 0
doc_size (some d) = d.size

abbrev pub segment_from : Message → SegmentRecord
segment_from m = record { msg_id = m.id; doc = m.doc; size = doc_size (m.doc) }

abbrev pub has_index : ℕ → List (ℕ × SegmentRecord) → Bool
has_index i [] = false
has_index i (s ∷ ss) = s.0 == i || has_index i ss

abbrev pub put_segment : ℕ → SegmentRecord → List (ℕ × SegmentRecord) → List (ℕ × SegmentRecord)
put_segment i s segments = if has_index i segments then segments else (i, s) ∷ segments

abbrev pub with_segment : Record → Message → FileRecord → FileRecord
with_segment rec m f = record f {
  segments = put_segment (rec.seg_index) (segment_from m) (f.segments);
}

unfoldable pub absorb_file : Record → Message → List FileRecord → List FileRecord
absorb_file rec m [] = record { rec = rec; segments = (rec.seg_index, segment_from m) ∷ [] } ∷ []
absorb_file rec m (f ∷ fs) =
    let rest = absorb_file rec m fs in
    if text_eq (f.rec.id) (rec.id) then with_segment rec m f ∷ fs else f ∷ rest

abbrev pub absorb_dir : Record → Message → List DirRecord → List DirRecord
absorb_dir rec m dirs = if is_found (rec.id) dirs then dirs else dir_from rec m ∷ dirs

abbrev pub absorb_kind : Kind → Record → Message → Scanned → Scanned
absorb_kind dir_kind rec m out = record out { dirs = absorb_dir rec m (out.dirs) }
absorb_kind file_kind rec m out = record out { files = absorb_file rec m (out.files) }

abbrev pub absorb_decoded : Result TagError Record → Message → Scanned → Scanned
absorb_decoded (err e) m out = out
absorb_decoded (ok rec) m out = absorb_kind (rec.kind) rec m out

unfoldable pub absorb : Scanned → Message → Scanned
absorb out m = absorb_decoded (decode_caption (m.caption)) m out

abbrev pub nothing_found : Scanned
nothing_found = record { dirs = []; files = [] }

-- The messages as ScanHistory visits them, the newest first.
unfoldable pub scan_from : Scanned → List Message → Scanned
scan_from out [] = out
scan_from out (m ∷ ms) = scan_from (absorb out m) ms

unfoldable pub scan : List Message → Scanned
scan history = scan_from nothing_found history
