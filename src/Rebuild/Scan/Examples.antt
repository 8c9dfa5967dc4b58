-- ===== src/Rebuild/Scan/Examples.antt =====
-- A message of a human, the record of a directory, and a segment of a file.
use tdrive.Base.{ℕ, ◌≡◌, none, List, [], ◌∷◌}
use tdrive.Tags.RoundTrip.Examples.{dir_caption, caption_in}
use tdrive.Rebuild.Ids.{Ulid}
use tdrive.Rebuild.Scan.{Message, scan}
use tdrive.Rebuild.Scan.Said.{dir_with, newest_dir, segment_with, newest_segment}
use tdrive.Rebuild.Scan.Newest.{scan-newest}
use tdrive.Rebuild.Resolve.Undamaged.{DistinctIds}

abbrev pub greeting : Message
greeting = record { id = 7; caption = 104 ∷ 105 ∷ []; doc = none }

abbrev pub dir_message : Message
dir_message = record { id = 6; caption = dir_caption; doc = none }

abbrev pub file_message : Message
file_message = record { id = 5; caption = caption_in (97 ∷ 98 ∷ []); doc = none }

abbrev history : List Message
history = greeting ∷ dir_message ∷ file_message ∷ []

scan-newest_example :
    ((id : Ulid) → dir_with id ((scan history).dirs) ≡ newest_dir id history)
    × ((id : Ulid) (i : ℕ) → segment_with id i ((scan history).files) ≡ newest_segment id i history)
    × DistinctIds ((scan history).dirs)
scan-newest_example = scan-newest history
