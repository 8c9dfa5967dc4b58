-- ===== src/Tags/Record.antt =====
-- What a caption says: Record, EncodeDir and EncodeFile of internal/tagcodec/tagcodec.go. Which
-- characters Unicode calls letters and digits is an argument.
use tdrive.Base.{
  ℕ, ◌-◌, Bool, true, false, not, ◌&&◌, ◌||◌, List, [], ◌∷◌, ◌++◌, ◌==◌, ◌≡◌, leb, if◌then◌else◌,
  length, Result, ok, err, ◌>>=◌,
}
use tdrive.Base.Int.{ℤ, pos, pos_part, ltb_ℤ, leb_ℤ}
use tdrive.Access.Perms.{is_space}
use tdrive.Names.Path.{Text, text_eq, contains_rune, byte_len, max_name_bytes}
use tdrive.Tags.Words.{hash, marker}
use tdrive.Tags.Numbers.{decimal}
use tdrive.Tags.Names.{encode_name}
use tdrive.Tags.Caption.{TagError, malformed, assemble}

pub data Kind : Type 0 where
  dir_kind file_kind : Kind

pub record Record : Type 0 where
  pub kind : Kind
  pub version : ℕ
  pub id : Text
  pub parent_id : Text
  pub name : Text
  pub seg_index : ℕ
  pub seg_count : ℕ
  pub total_size : ℤ
  pub segment_size : ℤ
  pub owner_id : Text
  pub human_tags : List Text

-- unicode.IsLetter and unicode.IsDigit. No letter and no digit is white space.
pub record Classes : Type 0 where
  pub is_letter : ℕ → Bool
  pub is_number : ℕ → Bool
  pub letter-is_space : (c : ℕ) → is_letter c ≡ true → is_space c ≡ false
  pub number-is_space : (c : ℕ) → is_number c ≡ true → is_space c ≡ false

abbrev pub id_char : ℕ → Bool
id_char c =
    (leb 48 c && leb c 57)
    || (leb 65 c && leb c 72)
    || (leb 74 c && leb c 75)
    || (leb 77 c && leb c 78)
    || (leb 80 c && leb c 84)
    || (leb 86 c && leb c 90)

abbrev pub id_chars : Text → Bool
id_chars [] = true
id_chars (c ∷ cs) = id_char c && id_chars cs

-- ulidRe
unfoldable pub valid_id : Text → Bool
valid_id id = length id == 26 && id_chars id

unfoldable pub valid_name : Text → Bool
valid_name name =
    not (text_eq name [])
    && leb (byte_len name) max_name_bytes
    && not (contains_rune 10 name || contains_rune 13 name || contains_rune 47 name)

-- "root"
abbrev pub root_parent : Text
root_parent = b'r' ∷ b'o' ∷ b'o' ∷ b't' ∷ []

abbrev pub or_root : Text → Text
or_root [] = root_parent
or_root (c ∷ cs) = c ∷ cs

abbrev pub valid_or_empty : Text → Bool
valid_or_empty [] = true
valid_or_empty (c ∷ cs) = valid_id (c ∷ cs)

abbrev pub require : Bool → Result {0, 0} TagError Unit
require true = ok tt
require false = err malformed

abbrev pub v_word : Text
v_word = b'v' ∷ b'1' ∷ []

abbrev pub dir_word : Text
dir_word = b'd' ∷ b'i' ∷ b'r' ∷ []

abbrev pub file_word : Text
file_word = b'f' ∷ b'i' ∷ b'l' ∷ b'e' ∷ []

abbrev pub id_prefix : Text
id_prefix = b'i' ∷ b'd' ∷ b'_' ∷ []

abbrev pub pid_prefix : Text
pid_prefix = b'p' ∷ b'i' ∷ b'd' ∷ b'_' ∷ []

abbrev pub n_prefix : Text
n_prefix = b'n' ∷ b'_' ∷ []

abbrev pub seg_prefix : Text
seg_prefix = b's' ∷ b'e' ∷ b'g' ∷ b'_' ∷ []

abbrev pub sz_prefix : Text
sz_prefix = b's' ∷ b'z' ∷ b'_' ∷ []

abbrev pub ss_prefix : Text
ss_prefix = b's' ∷ b's' ∷ b'_' ∷ []

abbrev pub own_prefix : Text
own_prefix = b'o' ∷ b'w' ∷ b'n' ∷ b'_' ∷ []

-- "📁 "
abbrev pub dir_display : Text → Text
dir_display path = 128193 ∷ 32 ∷ path

abbrev pub tag : Text → Text
tag t = hash ∷ t

-- The tags that both kinds of records begin with, behind the marker.
abbrev pub common_tags : Text → Text → Text → Text → List Text
common_tags kind id parent name =
    v_word
    ∷ kind
    ∷ (id_prefix ++ id)
    ∷ (pid_prefix ++ or_root parent)
    ∷ (n_prefix ++ encode_name name)
    ∷ []

abbrev pub map_tag : List Text → List Text
map_tag [] = []
map_tag (t ∷ ts) = tag t ∷ map_tag ts

unfoldable pub encode_dir : Text → Text → Text → Text → Result TagError Text
encode_dir id parent name path = do
  a ← require (valid_id id)
  b ← require (valid_or_empty parent)
  c ← require (valid_name name)
  assemble (dir_display path) (tag marker ∷ map_tag (common_tags dir_word id parent name)) []

-- SanitizeTag
abbrev pub kept_chars : Classes → Text → Text
kept_chars u [] = []
kept_chars u (c ∷ cs) =
    let rest = kept_chars u cs in
    if u.is_letter c || u.is_number c || c == 95 then c ∷ rest else rest

abbrev pub digits_only : Classes → Text → Bool
digits_only u [] = true
digits_only u (c ∷ cs) = not (u.is_letter c) && not (c == 95) && digits_only u cs

unfoldable pub sanitize_tag : Classes → Text → Text
sanitize_tag u name =
    if text_eq (kept_chars u name) []
    then []
    else if digits_only u name
    then 95 ∷ kept_chars u name
    else kept_chars u name

abbrev pub max_human_tags : ℕ
max_human_tags = 5

abbrev pub among : Text → List Text → Bool
among t [] = false
among t (s ∷ ss) = text_eq s t || among t ss

-- The loop over the human tags; `seen` are the ones taken so far, `room` how many more may be.
abbrev pub human_from : Classes → ℕ → List Text → List Text → List Text
human_from u room seen [] = []
human_from u room seen (raw ∷ rest) =
    let t = sanitize_tag u raw in
    let skipped = human_from u room seen rest in
    let taken = human_from u (room - 1) (t ∷ seen) rest in
    if room == 0 then [] else if text_eq t [] || among t seen then skipped else t ∷ taken

abbrev pub segment_tags : Record → List Text
segment_tags r =
    (seg_prefix ++ decimal (r.seg_index) ++ 95 ∷ decimal (r.seg_count))
    ∷ (sz_prefix ++ decimal (pos_part (r.total_size)))
    ∷ (ss_prefix ++ decimal (pos_part (r.segment_size)))
    ∷ []

abbrev pub owner_tags : Text → List Text
owner_tags [] = []
owner_tags (c ∷ cs) = (own_prefix ++ c ∷ cs) ∷ []

-- The tags of a file behind the marker.
abbrev pub file_tags : Record → List Text
file_tags r =
    common_tags file_word (r.id) (r.parent_id) (r.name) ++ segment_tags r ++ owner_tags (r.owner_id)

unfoldable pub encode_file : Classes → Record → Result TagError Text
encode_file u r = do
  a ← require (valid_id (r.id))
  b ← require (valid_or_empty (r.parent_id))
  c ← require (valid_name (r.name))
  d ← require (leb 1 (r.seg_count) && leb 1 (r.seg_index) && leb (r.seg_index) (r.seg_count))
  e ← require (leb_ℤ (pos 0) (r.total_size) && ltb_ℤ (pos 0) (r.segment_size))
  f ← require (valid_or_empty (r.owner_id))
  assemble (r.name) (tag marker ∷ map_tag (file_tags r))
      (map_tag (human_from u max_human_tags [] (r.human_tags)))
