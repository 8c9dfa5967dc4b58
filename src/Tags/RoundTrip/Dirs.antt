-- ===== src/Tags/RoundTrip/Dirs.antt =====
-- The round trip of a directory's record.
use tdrive.Base.{
  ◌≡◌, refl, sym, ap, ◌∙◌, subst, Bool, true, false, some, List, [], ◌∷◌, ◌++◌, inl, inr, arith,
  Result, ok, err, ◌>>=◌,
}
use tdrive.Base.Int.{pos}
use tdrive.Names.Path.{Text, text_eq, contains_rune}
use tdrive.Tags.Words.{line_feed, marker, join_words}
use tdrive.Tags.Caption.{TagError, malformed, assemble}
use tdrive.Tags.Caption.Fitting.{Fitted, assemble-Fitted}
use tdrive.Tags.Record.{
  dir_kind, Record, dir_word, dir_display, tag, map_tag, common_tags, valid_id, valid_or_empty,
  valid_name, require, encode_dir,
}
use tdrive.Tags.Utf8.{is_text}
use tdrive.Tags.Names.{encode_name}
use tdrive.Tags.Decode.{Parsed, nothing, decode_tokens, decode_caption, of_version}
use tdrive.Tags.Decode.Steps.{steps-common_tags}
use tdrive.Tags.RoundTrip.Tokens.{tag_tokens-Fitted}
use tdrive.Tags.RoundTrip.Finish.{AreTags-common_tags, valid_name-nonempty, of_kind-passes}

pub require_inv :
    {A : Type 0} (b : Bool) (next : Result TagError A) (a : A)
    → (require b >>= λ u. next) ≡ ok a
    → (b ≡ true) × (next ≡ ok a)
require_inv true next a h = (refl, h)
require_inv false next a h = absurd (ground arith)

-- A caption that was assembled fits.
pub assembled :
    (display : Text) (machine human : List Text) (caption : Text)
    → assemble display machine human ≡ ok caption
    → Fitted display (join_words machine) human caption
assembled display machine human caption h = elim (assemble-Fitted display machine human) [
  | inl (s, out, e, f) ↦
      let g : ok out ≡ ok caption = sym e ∙ h in
      let k : out ≡ caption = ground arith in subst (Fitted display (join_words machine) human) k f
  | inr (s, e) ↦ let g : err malformed ≡ ok caption = sym e ∙ h in absurd (ground arith)
]

-- The record that a directory's caption holds.
abbrev pub dir_record : Text → Text → Text → Record
dir_record id parent name = record {
  kind = dir_kind;
  version = 1;
  id = id;
  parent_id = parent;
  name = name;
  seg_index = 0;
  seg_count = 0;
  total_size = pos 0;
  segment_size = pos 0;
  owner_id = [];
  human_tags = [];
}

module _ (id parent name path caption : Text) where
  abbrev after_tags : Parsed
  after_tags = record nothing {
    kind = some dir_kind;
    version = some 1;
    id = id;
    parent_id = parent;
    enc_name = encode_name name;
  }

  dir_tokens :
      valid_or_empty parent ≡ true
      → valid_id id ≡ true
      → text_eq name [] ≡ false
      → is_text name ≡ true
      → decode_tokens caption (marker ∷ common_tags dir_word id parent name ++ [])
        ≡ ok (dir_record id parent name)
  dir_tokens p i n t =
      ap (λ (r : Result TagError Parsed). r >>= λ s. of_version caption s (s.version))
        ((steps-common_tags id parent name [] p).0)
      ∙ of_kind-passes caption name after_tags dir_kind i p refl n t

  -- When EncodeDir makes a caption of a directory whose path has no line feed in it, and whose name is
  -- made of code points that UTF-8 encodes, then Decode of the caption gives back the directory: its
  -- id, its parent and its name, however much the line for display was cut.
  pub decode_caption-encode_dir :
      contains_rune line_feed path ≡ false
      → is_text name ≡ true
      → encode_dir id parent name path ≡ ok caption
      → decode_caption caption ≡ ok (dir_record id parent name)
  unfolding encode_dir decode_caption
  decode_caption-encode_dir l t h =
      let (i, h1) = require_inv (valid_id id) _ caption h in
      let (p, h2) = require_inv (valid_or_empty parent) _ caption h1 in
      let (v, h3) = require_inv (valid_name name) _ caption h2 in
      let n = valid_name-nonempty name v in
      let machine = common_tags dir_word id parent name in
      let (front, back, g, e) =
        tag_tokens-Fitted (dir_display path) machine [] caption (l, refl)
          (AreTags-common_tags dir_word id parent name refl i p n) tt
          (assembled (dir_display path) (tag marker ∷ map_tag machine) [] caption h3) in
      ap (decode_tokens caption)
        (e ∙ ap (λ (x : List Text). marker ∷ machine ++ x) (none_left front back g))
      ∙ dir_tokens p i n t
    where
      none_left : (front back : List Text) → [] ≡ front ++ back → front ≡ []
      none_left [] back e = refl
      none_left (f ∷ fs) back e = absurd (ground arith)
