-- ===== src/Index/Messages.antt =====
-- The Telegram messages behind a part of the tree: the tables files and segments, SubtreeMessages
-- and FileMessages of internal/database/tree.go.
pub mod Listed
pub mod Examples
use tdrive.Base.{
  ℕ, Bool, true, false, ◌||◌, Option, none, some, List, [], ◌∷◌, ◌++◌, ltb, ◌==◌, if◌then◌else◌,
  Result, ok, err,
}
use tdrive.Names.Path.{Text}
use tdrive.Index.Like.{Like}
use tdrive.Index.Tree.{Dir, DbError, not_found, dir_by_id, has_id, below}

pub data FileStatus : Type 0 where
  pending complete broken : FileStatus

-- The columns of a file, its size, type and times left out.
pub record FileRow : Type 0 where
  pub id : ℕ
  pub dir_id : Option ℕ
  pub name : Text
  pub status : FileStatus
  pub channel_id : Option ℕ

pub record Segment : Type 0 where
  pub file_id : ℕ
  pub idx : ℕ
  pub tg_msg_id : ℕ

pub record TgMessage : Type 0 where
  pub channel_id : Option ℕ
  pub msg_id : ℕ

-- The rows of the table `subtree` in the query.
abbrev pub in_subtree : Like → ℕ → Text → Dir → Bool
in_subtree l id root r = r.id == id || below l root r

pub subtree : Like → ℕ → Text → List Dir → List Dir
subtree l id root [] = []
subtree l id root (r ∷ rs) =
    let rest = subtree l id root rs in if in_subtree l id root r then r ∷ rest else rest

pub dir_messages : List Dir → List TgMessage
dir_messages [] = []
dir_messages (r ∷ rs) =
    let rest = dir_messages rs in
    if ltb 0 (r.tg_msg_id)
    then record { channel_id = r.channel_id; msg_id = r.tg_msg_id } ∷ rest
    else rest

abbrev pub message : FileRow → Segment → TgMessage
message f s = record { channel_id = f.channel_id; msg_id = s.tg_msg_id }

-- FileMessages, less the order of the segments.
pub segment_messages : FileRow → List Segment → List TgMessage
segment_messages f [] = []
segment_messages f (s ∷ ss) =
    let rest = segment_messages f ss in if s.file_id == f.id then message f s ∷ rest else rest

abbrev pub dir_in : Option ℕ → List Dir → Bool
dir_in none dirs = false
dir_in (some p) dirs = has_id p dirs

pub file_messages : List Dir → List FileRow → List Segment → List TgMessage
file_messages dirs [] segments = []
file_messages dirs (f ∷ fs) segments =
    (if dir_in (f.dir_id) dirs then segment_messages f segments else [])
    ++ file_messages dirs fs segments

abbrev pub messages_below :
    Like → ℕ → List Dir → List FileRow → List Segment → Option Dir → Result DbError (List TgMessage)
messages_below l id rows files segments none = err not_found
messages_below l id rows files segments (some d) =
    let dirs = subtree l id (d.path) rows in
    ok (dir_messages dirs ++ file_messages dirs files segments)

unfoldable pub subtree_messages :
    Like → ℕ → List Dir → List FileRow → List Segment → Result DbError (List TgMessage)
subtree_messages l id rows files segments =
    messages_below l id rows files segments (dir_by_id id rows)
