-- ===== src/Rebuild/Files/Examples.antt =====
-- A file in one segment, and a file of two that has lost one.
use mathlib.Core.List.{Memᴰ}
use tdrive.Base.{◌≡◌, refl, sym, subst, none, some, List, [], ◌∷◌, ok, length, arith, true}
use tdrive.Base.Int.{pos}
use tdrive.Index.Messages.{complete}
use tdrive.Names.Path.{Text}
use tdrive.Tags.Utf8.{utf8, runes_from}
use tdrive.Tags.Base32.{encode_bytes, pack, decode_bytes, digits_of, unpack}
use tdrive.Tags.Names.{encode_name, decode_name}
use tdrive.Tags.Words.{marker, join_words, tag_tokens, fields, split_lines}
use tdrive.Tags.Numbers.{decimal, decimal_onto}
use tdrive.Tags.Caption.{body}
use tdrive.Tags.Record.{file_kind, valid_id, Record, tag, map_tag, file_tags}
use tdrive.Tags.Decode.{decode_caption, step, parse_seg}
use tdrive.Api.Range.{parse_int}
use tdrive.Tags.RoundTrip.Examples.{zeros}
use tdrive.Rebuild.Scan.{
  Message, FileRecord, has_index, absorb_file, absorb, scan_from, scan, segment_from,
}
use tdrive.Rebuild.Files.{FileEntry, status_of, file_entries, build_files}
use tdrive.Rebuild.Files.Whole.{scan-complete}
use tdrive.Rebuild.Files.Slots.{Separate}
use tdrive.Rebuild.Files.Refers.{AllHoused, AllOwned, entries, build_files-Sound}

abbrev small_file : Record
small_file = record {
  kind = file_kind;
  version = 1;
  id = zeros;
  parent_id = zeros;
  name = 102 ∷ [];
  seg_index = 1;
  seg_count = 1;
  total_size = pos 3;
  segment_size = pos 4;
  owner_id = [];
  human_tags = [];
}

abbrev small_message : Message
small_message = record {
  id = 9;
  caption = body (102 ∷ []) (join_words (tag marker ∷ map_tag (file_tags small_file)));
  doc = none;
}

abbrev stored : FileRecord
stored = record { rec = small_file; segments = (1, segment_from small_message) ∷ [] }

small_read : decode_caption (small_message.caption) ≡ ok small_file
unfolding decode_caption tag_tokens fields split_lines decimal decimal_onto step parse_int parse_seg
    valid_id encode_name encode_bytes pack utf8 decode_name decode_bytes digits_of runes_from unpack
small_read = refl

small_found : (scan (small_message ∷ [])).files ≡ stored ∷ []
unfolding scan scan_from absorb absorb_file
small_found = rw small_read refl

small_complete : status_of stored ≡ complete
unfolding status_of
small_complete = refl

scan-complete_example : has_index 1 (stored.segments) ≡ true
scan-complete_example =
    scan-complete (small_message ∷ []) stored
      (subst (λ (fs : List FileRecord). Memᴰ stored fs) (sym small_found) (Memᴰ.head refl))
      ((omega arith, omega arith), tt) small_complete 1 (omega arith) (omega arith)

-- The same file, of which one of two segments is there, with another id, and of the same name.
abbrev halved : FileRecord
halved = record {
  rec = record small_file { id = 49 ∷ zeros; seg_count = 2 };
  segments = (2, segment_from small_message) ∷ [];
}

abbrev no_mime : Text → Text
no_mime name = []

build_files-Sound_example :
    (files : List FileEntry) × (build_files no_mime (116 ∷ []) [] (stored ∷ halved ∷ [])
      ≡ some (
        files,
        (entries no_mime (116 ∷ []) [] (stored ∷ halved ∷ [])).1,
        (entries no_mime (116 ∷ []) [] (stored ∷ halved ∷ [])).2,
      ))
    × Separate files
    × (length files ≡ length (stored ∷ halved ∷ []))
    × AllHoused [] files
    × AllOwned files ((entries no_mime (116 ∷ []) [] (stored ∷ halved ∷ [])).1)
build_files-Sound_example = build_files-Sound no_mime (116 ∷ []) [] (stored ∷ halved ∷ [])

-- One of the two is broken.
one_broken : (entries no_mime (116 ∷ []) [] (stored ∷ halved ∷ [])).2 ≡ 1
unfolding file_entries status_of
one_broken = refl
