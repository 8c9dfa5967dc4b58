-- ===== src/Index/Messages/Examples.antt =====
-- Deleting "/a" beside "/A/x".
use mathlib.Core.List.{Memᴰ}
use tdrive.Base.{◌≡◌, refl, none, some, List, [], ◌∷◌, inr, ok}
use tdrive.Index.Like.Examples.{documented}
use tdrive.Index.Tree.{Dir}
use tdrive.Index.Messages.{FileRow, Segment, TgMessage, FileStatus, message, subtree_messages}
use tdrive.Index.Messages.Listed.{subtree_messages-lists}

abbrev dir_a : Dir
dir_a = record {
  id = 1;
  parent_id = none;
  name = 97 ∷ [];
  path = 47 ∷ 97 ∷ [];
  channel_id = none;
  tg_msg_id = 7;
  updated_at = 5;
}

abbrev dir_x : Dir
dir_x = record {
  id = 4;
  parent_id = some 3;
  name = 120 ∷ [];
  path = 47 ∷ 65 ∷ 47 ∷ 120 ∷ [];
  channel_id = none;
  tg_msg_id = 8;
  updated_at = 5;
}

abbrev foreign_file : FileRow
foreign_file = record {
  id = 9;
  dir_id = some 4;
  name = 102 ∷ [];
  status = FileStatus.complete;
  channel_id = some 2;
}

abbrev only_segment : Segment
only_segment = record { file_id = 9; idx = 1; tg_msg_id = 33 }

subtree_messages-lists_example :
    (msgs : List TgMessage) × (subtree_messages documented 1
        (dir_a ∷ dir_x ∷ [])
        (foreign_file ∷ [])
        (only_segment ∷ [])
      ≡ ok msgs)
    × Memᴰ (message foreign_file only_segment) msgs
subtree_messages-lists_example =
    subtree_messages-lists documented 1 (dir_a ∷ dir_x ∷ []) (foreign_file ∷ []) (only_segment ∷ [])
      dir_a 4 dir_x foreign_file only_segment refl refl (inr refl) refl (Memᴰ.head refl)
      (Memᴰ.head refl) refl
