-- ===== src/Tags/Decode.antt =====
-- Decode of internal/tagcodec/tagcodec.go.
pub mod Steps
use tdrive.Base.{
  ℕ, ◌+◌, ◌-◌, Bool, true, false, not, ◌&&◌, ◌||◌, Option, none, some, List, [], ◌∷◌, ◌++◌, ◌==◌,
  ltb, leb, if◌then◌else◌, length, Result, ok, err, ◌>>=◌,
}
use tdrive.Base.Int.{ℤ, pos, negsuc, ltb_ℤ, leb_ℤ}
use tdrive.Access.Perms.{trim_space}
use tdrive.Api.Range.{up_to, after_first, parse_int, max_int64, digits}
use tdrive.Names.Path.{Text, text_eq, has_prefix, split_last}
use tdrive.Names.Scope.{trim_prefix}
use tdrive.Tags.Words.{hash, marker, tag_tokens, line_feed}
use tdrive.Tags.Numbers.{all_digits}
use tdrive.Tags.Caption.{TagError, not_tagged, unknown_version, malformed}
use tdrive.Tags.Record.{
  Kind, dir_kind, file_kind, Record, dir_word, file_word, id_prefix, pid_prefix, n_prefix,
  seg_prefix, sz_prefix, ss_prefix, own_prefix, root_parent, valid_id, valid_or_empty, require,
}
use tdrive.Tags.Names.{decode_name}

-- What the loop has gathered; `none` where its flag is not set.
pub record Parsed : Type 0 where
  pub kind : Option Kind
  pub version : Option ℕ
  pub id : Text
  pub parent_id : Text
  pub enc_name : Text
  pub owner_id : Text
  pub segment : Option (ℕ × ℕ)
  pub total_size : Option ℤ
  pub segment_size : Option ℤ
  pub human_tags : List Text

abbrev pub nothing : Parsed
nothing = record {
  kind = none;
  version = none;
  id = [];
  parent_id = [];
  enc_name = [];
  owner_id = [];
  segment = none;
  total_size = none;
  segment_size = none;
  human_tags = [];
}

abbrev pub parsed_or : {A : Type 0} → Option A → (A → Parsed) → Result TagError Parsed
parsed_or none f = err malformed
parsed_or (some a) f = ok (f a)

-- Atoi and ParseInt of a count, which is at least 1.
abbrev pub count_of : Option ℤ → Option ℕ
count_of none = none
count_of (some (negsuc n)) = none
count_of (some (pos n)) = if n == 0 then none else some n

abbrev pub ordered : Option ℕ → Option ℕ → Option (ℕ × ℕ)
ordered none count = none
ordered (some idx) none = none
ordered (some idx) (some count) = if ltb count idx then none else some (idx, count)

abbrev pub seg_at : Text → Option Text → Option (ℕ × ℕ)
seg_at idx none = none
seg_at idx (some count) = ordered (count_of (parse_int idx)) (count_of (parse_int count))

unfoldable pub parse_seg : Text → Option (ℕ × ℕ)
parse_seg s = seg_at (up_to 95 s) (after_first 95 s)

-- "v" and digits
abbrev pub is_version : Text → Bool
is_version [] = false
is_version (c ∷ []) = false
is_version (c ∷ d ∷ ds) = c == b'v' && all_digits (d ∷ ds)

abbrev pub natural : Option ℤ → Option ℕ
natural none = none
natural (some (negsuc n)) = none
natural (some (pos n)) = some n

abbrev pub kind_of : Text → Kind
kind_of tok = if text_eq tok dir_word then dir_kind else file_kind

abbrev pub parent_of_tag : Text → Text → Text
parent_of_tag p before = if text_eq p root_parent then before else p

-- The body of the loop.
unfoldable pub step : Text → Parsed → Result TagError Parsed
step tok s =
    if text_eq tok marker
    then ok s
    else if text_eq tok dir_word || text_eq tok file_word
    then ok (record s { kind = some (kind_of tok) })
    else if is_version tok
    then parsed_or (natural (parse_int (trim_prefix (b'v' ∷ []) tok)))
        (λ n. record s { version = some n })
    else if has_prefix id_prefix tok
    then ok (record s { id = trim_prefix id_prefix tok })
    else if has_prefix pid_prefix tok
    then ok (record s { parent_id = parent_of_tag (trim_prefix pid_prefix tok) (s.parent_id) })
    else if has_prefix n_prefix tok
    then ok (record s { enc_name = trim_prefix n_prefix tok })
    else if has_prefix own_prefix tok
    then ok (record s { owner_id = trim_prefix own_prefix tok })
    else if has_prefix seg_prefix tok
    then parsed_or (parse_seg (trim_prefix seg_prefix tok)) (λ p. record s { segment = some p })
    else if has_prefix sz_prefix tok
    then parsed_or (parse_int (trim_prefix sz_prefix tok)) (λ n. record s { total_size = some n })
    else if has_prefix ss_prefix tok
    then parsed_or (parse_int (trim_prefix ss_prefix tok)) (λ n. record s { segment_size = some n })
    else ok (record s { human_tags = s.human_tags ++ tok ∷ [] })

abbrev pub steps : List Text → Parsed → Result TagError Parsed
steps [] s = ok s
steps (t ∷ ts) s = do s' ← step t s; steps ts s'

abbrev pub after_slash : Text → Option (Text × Text) → Text
after_slash line none = line
after_slash line (some (dir, name)) = name

-- "📁"
abbrev pub folder : Text
folder = 128193 ∷ []

abbrev pub without_folder : Text → Text
without_folder line = if has_prefix folder line then trim_prefix folder line else line

abbrev pub display_name : Kind → Text → Text
display_name file_kind line = line
display_name dir_kind line =
    let rest = trim_space (without_folder line) in after_slash rest (split_last rest)

unfoldable pub fallback_name : Text → Kind → Text
fallback_name caption kind =
    let name = display_name kind (trim_space (up_to line_feed caption)) in
    if has_prefix (hash ∷ []) name then [] else name

abbrev pub name_or : Text → Text → Result TagError Text
name_or [] fallback = ok fallback
name_or (c ∷ cs) fallback = elim (decode_name (c ∷ cs)) [
  | none ↦ err malformed
  | some name ↦ ok name
]

abbrev pub some_name : Text → Result TagError Text
some_name [] = err malformed
some_name (c ∷ cs) = ok (c ∷ cs)

-- A value that may be missing, in a record that does not need it.
abbrev pub size_or_zero : Option ℤ → ℤ
size_or_zero none = pos 0
size_or_zero (some n) = n

abbrev pub seg_or_zero : Option (ℕ × ℕ) → ℕ × ℕ
seg_or_zero none = (0, 0)
seg_or_zero (some p) = p

abbrev pub known_owner : Text → Text
known_owner owner = if valid_or_empty owner then owner else []

abbrev pub record_of : Parsed → Kind → ℕ → Text → List Text → Record
record_of s kind version name human = record {
  kind = kind;
  version = version;
  id = s.id;
  parent_id = s.parent_id;
  name = name;
  seg_index = (seg_or_zero (s.segment)).0;
  seg_count = (seg_or_zero (s.segment)).1;
  total_size = size_or_zero (s.total_size);
  segment_size = size_or_zero (s.segment_size);
  owner_id = known_owner (s.owner_id);
  human_tags = human;
}

abbrev pub is_there : {A : Type 0} → Option A → Bool
is_there none = false
is_there (some a) = true

abbrev pub with_segments : Parsed → Kind → ℕ → Text → Result TagError Record
with_segments s dir_kind version name = ok (record_of s dir_kind version name [])
with_segments s file_kind version name = do
  a ← require (is_there (s.segment) && is_there (s.total_size) && is_there (s.segment_size))
  b ←
      require (
        ltb_ℤ (pos 0) (size_or_zero (s.segment_size))
        && leb_ℤ (pos 0) (size_or_zero (s.total_size)))
  ok (record_of s file_kind version name (s.human_tags))

abbrev pub of_kind : Text → Parsed → ℕ → Option Kind → Result TagError Record
of_kind caption s version none = err malformed
of_kind caption s version (some kind) = do
  a ← require (valid_id (s.id))
  b ← require (valid_or_empty (s.parent_id))
  read ← name_or (s.enc_name) (fallback_name caption kind)
  name ← some_name read
  with_segments s kind version name

abbrev pub of_version : Text → Parsed → Option ℕ → Result TagError Record
of_version caption s none = err malformed
of_version caption s (some v) =
    if ltb 1 v then err unknown_version else of_kind caption s v (s.kind)

abbrev pub decode_tokens : Text → List Text → Result TagError Record
decode_tokens caption [] = err not_tagged
decode_tokens caption (t ∷ ts) = do s ← steps (t ∷ ts) nothing; of_version caption s (s.version)

unfoldable pub decode_caption : Text → Result TagError Record
decode_caption caption = decode_tokens caption (tag_tokens caption)
