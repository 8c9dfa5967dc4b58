-- ===== src/Rebuild/Channel/Examples.antt =====
-- A channel with one directory and one file.
use tdrive.Base.{◌≡◌, refl, none, some, List, [], ◌∷◌, ◌++◌, ok}
use tdrive.Names.Path.{Text, root, join}
use tdrive.Tags.Words.{tag_tokens, fields, split_lines}
use tdrive.Tags.Decode.{decode_caption}
use tdrive.Tags.RoundTrip.Dirs.{dir_record, decode_caption-encode_dir}
use tdrive.Tags.RoundTrip.Examples.{
  ascii, zeros, hash_dir, dir_caption, dir_encoded, in_folder, small_numbers, file_encoded,
}
use tdrive.Tags.Record.{sanitize_tag}
use tdrive.Rebuild.Resolve.{DirRecord, Row, row_of, build_tree, recovered_root_id}
use tdrive.Rebuild.Resolve.Growth.{Every}
use tdrive.Rebuild.Resolve.Undamaged.{row_at}
use tdrive.Rebuild.Resolve.Outcome.{Lies}
use tdrive.Rebuild.Scan.{Message, segment_from, scan}
use tdrive.Rebuild.Scan.Said.{segment_with, newest_dir, newest_segment}
use tdrive.Rebuild.Scan.Examples.{greeting, dir_message, file_message}
use tdrive.Rebuild.Collisions.{sort_rows, dedupe_paths}
use tdrive.Rebuild.Collisions.Paths.{Renamed}
use tdrive.Rebuild.Channel.{Described, Described.on_top}
use tdrive.Rebuild.Channel.Directories.{build_tree-Described}
use tdrive.Rebuild.Channel.Written.{scan-encode_file}

abbrev found_dir : DirRecord
found_dir = record { id = zeros; parent_id = none; name = hash_dir; msg_id = 6 }

greeting_said : newest_dir zeros (greeting ∷ []) ≡ none
unfolding newest_dir decode_caption tag_tokens split_lines fields
greeting_said = refl

greeting_silent : newest_segment zeros 2 (greeting ∷ []) ≡ none
unfolding newest_segment decode_caption tag_tokens split_lines fields
greeting_silent = refl

scan-encode_file_example :
    segment_with zeros 2 ((scan ((greeting ∷ []) ++ file_message ∷ [])).files)
    ≡ some (segment_from file_message)
unfolding sanitize_tag
scan-encode_file_example =
    scan-encode_file [] file_message ascii (greeting ∷ []) (in_folder (97 ∷ 98 ∷ []))
      (small_numbers (97 ∷ 98 ∷ [])) refl refl (refl, tt) file_encoded greeting_silent

abbrev small : List Message
small = dir_message ∷ []

dir_read : decode_caption dir_caption ≡ ok (dir_record zeros [] hash_dir)
dir_read =
    decode_caption-encode_dir zeros [] hash_dir (47 ∷ hash_dir) dir_caption refl refl dir_encoded

no_folder : newest_dir recovered_root_id small ≡ none
unfolding newest_dir
no_folder = rw dir_read refl

build_tree-Described_example :
    (rows : List Row) × (build_tree recovered_root_id ((scan small).dirs) ≡ some rows)
    × Every Lies rows
    × ((d : DirRecord) (path : Text)
        → Described small d path
        → row_of (d.id) rows ≡ some (row_at d path))
    × (out : List Row) × (dedupe_paths rows ≡ some out)
    × Renamed (sort_rows rows) out
build_tree-Described_example = build_tree-Described recovered_root_id small no_folder

-- The directory of the channel is described.
there : newest_dir zeros small ≡ some found_dir
unfolding newest_dir
there = rw dir_read refl

described : Described small found_dir (join root hash_dir)
described = on_top found_dir there refl
