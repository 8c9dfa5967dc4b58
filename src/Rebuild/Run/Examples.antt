-- ===== src/Rebuild/Run/Examples.antt =====
-- A rebuild from the messages of a small channel.
use tdrive.Base.{refl, sym, subst, none, ok, ◌≡◌, some, List, [], ◌∷◌, length}
use tdrive.Names.Path.{Text}
use tdrive.Rebuild.Resolve.{recovered_root_id}
use tdrive.Rebuild.Scan.{Message, scan}
use tdrive.Rebuild.Scan.Examples.{greeting, dir_message, file_message}
use tdrive.Rebuild.Run.{Rebuilt, rebuild}
use tdrive.Rebuild.Run.Sound.{IsIndex, rebuild-IsIndex}
use mathlib.Core.List.{Memᴰ}
use tdrive.Names.Path.Depth.{IsComponent}
use tdrive.Tags.Decode.{decode_caption}
use tdrive.Tags.RoundTrip.Dirs.{dir_record, decode_caption-encode_dir}
use tdrive.Tags.RoundTrip.Examples.{zeros, hash_dir, dir_caption, dir_encoded}
use tdrive.Rebuild.Scan.{scan_from, absorb}
use tdrive.Rebuild.Scan.Said.{newest_dir}
use tdrive.Rebuild.Resolve.{DirRecord}
use tdrive.Rebuild.Collisions.Followed.{Follows}
use tdrive.Rebuild.Run.Trees.{rebuild-Follows}

abbrev channel : List Message
channel = greeting ∷ file_message ∷ dir_message ∷ []

abbrev no_mime : Text → Text
no_mime name = []

rebuild-IsIndex_example :
    (r : Rebuilt) × (rebuild no_mime [] recovered_root_id channel ≡ some r)
    × IsIndex ((scan channel).dirs) (length ((scan channel).files)) r
rebuild-IsIndex_example = rebuild-IsIndex no_mime [] recovered_root_id channel

-- The directory alone.
abbrev only_dir : List Message
only_dir = dir_message ∷ []

abbrev found_dir : DirRecord
found_dir = record { id = zeros; parent_id = none; name = hash_dir; msg_id = 6 }

dir_read : decode_caption dir_caption ≡ ok (dir_record zeros [] hash_dir)
dir_read =
    decode_caption-encode_dir zeros [] hash_dir (47 ∷ hash_dir) dir_caption refl refl dir_encoded

no_folder : newest_dir recovered_root_id only_dir ≡ none
unfolding newest_dir
no_folder = rw dir_read refl

dirs_found : (scan only_dir).dirs ≡ found_dir ∷ []
unfolding scan scan_from absorb
dirs_found = rw dir_read refl

named_well : (d : DirRecord) → Memᴰ d ((scan only_dir).dirs) → IsComponent (d.name)
named_well d m = elim (subst (λ (ds : List DirRecord). Memᴰ d ds) dirs_found m) [
  | Memᴰ.head e ↦
      subst (λ (x : DirRecord). IsComponent (x.name)) (sym e)
        (record { nonempty = refl; no_slash = refl })
  | Memᴰ.tail k ↦ elim k [ ]
]

rebuild-Follows_example :
    (r : Rebuilt) × (rebuild no_mime [] recovered_root_id only_dir ≡ some r) × Follows [] (r.dirs)
rebuild-Follows_example = rebuild-Follows no_mime [] recovered_root_id only_dir no_folder named_well
