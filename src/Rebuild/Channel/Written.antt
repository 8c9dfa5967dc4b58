-- ===== src/Rebuild/Channel/Written.antt =====
-- The records that the captions of a channel were made from are found again, also among messages that
-- no record can be read from.
use tdrive.Base.{
  ℕ, ◌≡◌, refl, ap, ◌∙◌, true, false, Option, none, some, List, [], ◌∷◌, ◌++◌, arith, All, ok,
  ==_iff,
}
use tdrive.Names.Path.{Text, text_eq, contains_rune}
use tdrive.Tags.Words.{line_feed}
use tdrive.Tags.Words.Block.{hash_free}
use tdrive.Tags.Record.{Record, Classes, encode_dir, encode_file, human_from, max_human_tags}
use tdrive.Tags.Utf8.{is_text}
use tdrive.Tags.Decode.{decode_caption}
use tdrive.Tags.Decode.Steps.{is_own}
use tdrive.Tags.RoundTrip.Dirs.{dir_record, decode_caption-encode_dir}
use tdrive.Tags.RoundTrip.Files.{IsInt64, decode_caption-encode_file}
use tdrive.Names.Path.Equal.{text_eq_iff}
use tdrive.Rebuild.Ids.{Ulid}
use tdrive.Rebuild.Resolve.{DirRecord}
use tdrive.Rebuild.Scan.{Message, SegmentRecord, named_parent, dir_from, segment_from, scan}
use tdrive.Rebuild.Scan.Said.{
  or_else, dir_with, newest_dir, dir_said, segment_with, newest_segment, segment_said,
}
use tdrive.Rebuild.Scan.Newest.{scan-newest}

same_id : (id : Ulid) → text_eq id id ≡ true
same_id id = (text_eq_iff id id).1 refl

or_else-passes {ℓ} :
    {A : Type ℓ} (o before after : Option A) (x : A)
    → (before ≡ none → after ≡ some x)
    → or_else o before ≡ none
    → or_else o after ≡ some x
or_else-passes none before after x f e = f e
or_else-passes (some a) before after x f e = ground arith

module _ (back : List Message) (m : Message) where
  newest_dir-behind :
      (id : Ulid) (front : List Message) (d : DirRecord)
      → newest_dir id front ≡ none
      → dir_said id m (decode_caption (m.caption)) ≡ some d
      → newest_dir id (front ++ m ∷ back) ≡ some d
  unfolding newest_dir
  newest_dir-behind id [] d n s = rw s refl
  newest_dir-behind id (f ∷ fs) d n s =
      or_else-passes (dir_said id f (decode_caption (f.caption))) (newest_dir id fs)
        (newest_dir id (fs ++ m ∷ back)) d (λ e. newest_dir-behind id fs d e s) n

  newest_segment-behind :
      (id : Ulid) (i : ℕ) (front : List Message) (d : SegmentRecord)
      → newest_segment id i front ≡ none
      → segment_said id i m (decode_caption (m.caption)) ≡ some d
      → newest_segment id i (front ++ m ∷ back) ≡ some d
  unfolding newest_segment
  newest_segment-behind id i [] d n s = rw s refl
  newest_segment-behind id i (f ∷ fs) d n s =
      or_else-passes (segment_said id i f (decode_caption (f.caption))) (newest_segment id i fs)
        (newest_segment id i (fs ++ m ∷ back)) d (λ e. newest_segment-behind id i fs d e s) n

  -- A message whose caption EncodeDir made of a directory, with a path that has no line feed in it, and
  -- above which the channel has none about the same directory, is what a scan keeps of it: its id,
  -- parent and name, and the message.
  pub scan-encode_dir :
      (front : List Message) (id parent name path : Text)
      → contains_rune line_feed path ≡ false
      → is_text name ≡ true
      → encode_dir id parent name path ≡ ok (m.caption)
      → newest_dir id front ≡ none
      → dir_with id ((scan (front ++ m ∷ back)).dirs)
        ≡ some (record { id = id; parent_id = named_parent parent; name = name; msg_id = m.id })
  scan-encode_dir front id parent name path l t h n =
      let read = decode_caption-encode_dir id parent name path (m.caption) l t h in
      let said : dir_said id m (decode_caption (m.caption))
          ≡ some (dir_from (dir_record id parent name) m) =
        ap (dir_said id m) read ∙ (rw (same_id id) refl) in
      (scan-newest (front ++ m ∷ back)).0 id
      ∙ newest_dir-behind id front (dir_from (dir_record id parent name) m) n said

  -- A message whose caption EncodeFile made of a segment, under the conditions of the round trip of its
  -- caption, and above which the channel has none about the same segment, is what a scan keeps of it:
  -- the message, and the document that it carries.
  pub scan-encode_file :
      (u : Classes) (front : List Message) (r : Record)
      → IsInt64 r
      → is_text (r.name) ≡ true
      → hash_free (r.name) ≡ true
      → All (λ t. is_own t ≡ false) (human_from u max_human_tags [] (r.human_tags))
      → encode_file u r ≡ ok (m.caption)
      → newest_segment (r.id) (r.seg_index) front ≡ none
      → segment_with (r.id) (r.seg_index) ((scan (front ++ m ∷ back)).files) ≡ some (segment_from m)
  scan-encode_file u front r b t f w h n =
      let (kept, cut, g, read) = decode_caption-encode_file u r (m.caption) b t f w h in
      let said : segment_said (r.id) (r.seg_index) m (decode_caption (m.caption))
          ≡ some (segment_from m) =
        ap (segment_said (r.id) (r.seg_index) m) read
        ∙ (rw (same_id (r.id), (==_iff (r.seg_index) (r.seg_index)).1 refl) refl) in
      (scan-newest (front ++ m ∷ back)).1 (r.id) (r.seg_index)
      ∙ newest_segment-behind (r.id) (r.seg_index) front (segment_from m) n said
