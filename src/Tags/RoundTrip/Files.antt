-- ===== src/Tags/RoundTrip/Files.antt =====
-- The round trip of a segment's record.
use tdrive.Base.{
  ℕ, ◌≤◌, ◌≡◌, refl, ap, ◌∙◌, subst, Bool, true, false, ◌&&◌, some, List, [], ◌∷◌, ◌++◌, leb, arith,
  All, Result, ok, ◌>>=◌, choose_true,
}
use tdrive.Base.Int.{ℤ, pos, negsuc, pos_part, ltb_ℤ, leb_ℤ}
use tdrive.Api.Range.{max_int64}
use tdrive.Names.Path.{Text, text_eq, contains_rune}
use tdrive.Tags.Words.{line_feed, marker}
use tdrive.Tags.Words.Block.{hash_free}
use tdrive.Tags.Caption.{TagError}
use tdrive.Tags.Record.{
  Kind, file_kind, Record, Classes, file_word, tag, map_tag, common_tags, segment_tags, owner_tags,
  file_tags, valid_id, valid_or_empty, valid_name, require, encode_file, human_from, max_human_tags,
}
use tdrive.Tags.Utf8.{is_text}
use tdrive.Tags.Names.{encode_name}
use tdrive.Tags.Decode.{
  Parsed, nothing, steps, decode_tokens, decode_caption, of_version, with_segments, record_of,
}
use tdrive.Tags.Decode.Steps.{
  steps-common_tags, steps-segment, steps-owner_tags, steps-human, is_own,
}
use tdrive.Tags.RoundTrip.Tokens.{AreTags-append, tag_tokens-Fitted}
use tdrive.Tags.RoundTrip.Finish.{
  AreTags-common_tags, AreTags-segment, AreTags-owner, valid_name-nonempty, of_kind-passes,
}
use tdrive.Tags.RoundTrip.Dirs.{require_inv, assembled}
use tdrive.Tags.RoundTrip.Human.{AreTags-human_from}

-- The record as it is read back: a file, of this version, with these folders.
abbrev pub read_back : Record → List Text → Record
read_back r front = record r { kind = file_kind; version = 1; human_tags = front }

-- The numbers are of the type int64.
pub record IsInt64 (r : Record) : Type 0 where
  pub count_fits : r.seg_count ≤ max_int64
  pub size_fits : pos_part (r.total_size) ≤ max_int64
  pub segment_fits : pos_part (r.segment_size) ≤ max_int64

not_negative : (n : ℤ) → leb_ℤ (pos 0) n ≡ true → pos (pos_part n) ≡ n
not_negative (pos n) h = refl
not_negative (negsuc n) h = absurd (ground arith)

positive_too : (n : ℤ) → ltb_ℤ (pos 0) n ≡ true → pos (pos_part n) ≡ n
positive_too (pos n) h = refl
positive_too (negsuc n) h = absurd (ground arith)

pub index_pos : (k m : ℕ) → (leb 1 m && leb 1 k && leb k m) ≡ true → 1 ≤ k
index_pos k m w = ground arith

pub index-le-count : (k m : ℕ) → (leb 1 m && leb 1 k && leb k m) ≡ true → k ≤ m
index-le-count k m w = ground arith

sizes_pass :
    (t z : ℤ)
    → leb_ℤ (pos 0) t ≡ true
    → ltb_ℤ (pos 0) z ≡ true
    → require (ltb_ℤ (pos 0) (pos (pos_part z)) && leb_ℤ (pos 0) (pos (pos_part t))) ≡ ok tt
sizes_pass (pos n) (pos m) h k =
    let e : (ltb_ℤ (pos 0) (pos m) && leb_ℤ (pos 0) (pos n)) ≡ true = ground arith in ap require e
sizes_pass (pos n) (negsuc m) h k = absurd (ground arith)
sizes_pass (negsuc n) z h k = absurd (ground arith)

valid_name-line : (name : Text) → valid_name name ≡ true → contains_rune line_feed name ≡ false
unfolding valid_name
valid_name-line name h = ground arith

All-front :
    (xs ys : List Text) → All (λ t. is_own t ≡ false) (xs ++ ys) → All (λ t. is_own t ≡ false) xs
All-front [] ys h = tt
All-front (x ∷ xs) ys h = (h.0, All-front xs ys (h.1))

module _ (u : Classes) (r : Record) (caption : Text) where
  abbrev pub gathered : List Text → Parsed
  gathered front = record nothing {
    kind = some file_kind;
    version = some 1;
    id = r.id;
    parent_id = r.parent_id;
    enc_name = encode_name (r.name);
    owner_id = r.owner_id;
    segment = some (r.seg_index, r.seg_count);
    total_size = some (pos (pos_part (r.total_size)));
    segment_size = some (pos (pos_part (r.segment_size)));
    human_tags = front;
  }

  pub file_steps :
      (front : List Text)
      → IsInt64 r
      → valid_or_empty (r.parent_id) ≡ true
      → 1 ≤ r.seg_index
      → r.seg_index ≤ r.seg_count
      → steps (marker ∷ file_tags r ++ front) nothing ≡ steps front (gathered [])
  file_steps front b p i c =
      let one = record nothing {
        kind = some file_kind;
        version = some 1;
        id = r.id;
        parent_id = r.parent_id;
        enc_name = encode_name (r.name);
      } in
      let two = record one {
        segment = some (r.seg_index, r.seg_count);
        total_size = some (pos (pos_part (r.total_size)));
        segment_size = some (pos (pos_part (r.segment_size)));
      } in
      (steps-common_tags (r.id) (r.parent_id) (r.name)
        (segment_tags r ++ (owner_tags (r.owner_id) ++ front)) p).1
      ∙ steps-segment (r.seg_index) (r.seg_count) (pos_part (r.total_size))
          (pos_part (r.segment_size)) (owner_tags (r.owner_id) ++ front) one i c (b.count_fits)
          (b.size_fits) (b.segment_fits)
      ∙ steps-owner_tags (r.owner_id) front two refl

  pub record_of-gathered :
      (front : List Text) (kind : Kind) (human : List Text)
      → leb_ℤ (pos 0) (r.total_size) ≡ true
      → ltb_ℤ (pos 0) (r.segment_size) ≡ true
      → valid_or_empty (r.owner_id) ≡ true
      → record_of (gathered front) kind 1 (r.name) human
        ≡ record (read_back r human) { kind = kind }
  record_of-gathered front kind human a b o =
      let out = record (read_back r human) { kind = kind } in
      ap
        (λ (x : Text). (record out {
          total_size = pos (pos_part (r.total_size));
          segment_size = pos (pos_part (r.segment_size));
          owner_id = x;
        }))
        (choose_true _ _ o)
      ∙ ap
          (λ (x : ℤ). (record out {
            total_size = x;
            segment_size = pos (pos_part (r.segment_size));
          }))
          (not_negative (r.total_size) a)
      ∙ ap (λ (x : ℤ). (record out { segment_size = x })) (positive_too (r.segment_size) b)

  segments_pass :
      (front : List Text)
      → leb_ℤ (pos 0) (r.total_size) ≡ true
      → ltb_ℤ (pos 0) (r.segment_size) ≡ true
      → valid_or_empty (r.owner_id) ≡ true
      → with_segments (gathered front) file_kind 1 (r.name) ≡ ok (read_back r front)
  segments_pass front a b o =
      ap
        (λ (q : Result TagError Unit).
          q >>= λ u. ok (record_of (gathered front) file_kind 1 (r.name) front))
        (sizes_pass (r.total_size) (r.segment_size) a b)
      ∙ ap (λ (x : Record). ok x) (record_of-gathered front file_kind front a b o)

  tokens_read :
      (front : List Text)
      → IsInt64 r
      → valid_id (r.id) ≡ true
      → valid_or_empty (r.parent_id) ≡ true
      → text_eq (r.name) [] ≡ false
      → is_text (r.name) ≡ true
      → (leb 1 (r.seg_count) && leb 1 (r.seg_index) && leb (r.seg_index) (r.seg_count)) ≡ true
      → (leb_ℤ (pos 0) (r.total_size) && ltb_ℤ (pos 0) (r.segment_size)) ≡ true
      → valid_or_empty (r.owner_id) ≡ true
      → All (λ t. is_own t ≡ false) front
      → decode_tokens caption (marker ∷ file_tags r ++ front) ≡ ok (read_back r front)
  tokens_read front b i p n t c s o h =
      ap (λ (x : Result TagError Parsed). x >>= λ g. of_version caption g (g.version))
        (file_steps front b p (index_pos (r.seg_index) (r.seg_count) c)
            (index-le-count (r.seg_index) (r.seg_count) c)
          ∙ steps-human front (gathered []) h)
      ∙ of_kind-passes caption (r.name) (gathered front) file_kind i p refl n t
      ∙ segments_pass front (and_left _ _ s) (and_right _ _ s) o
    where
      and_left : (a d : Bool) → (a && d) ≡ true → a ≡ true
      and_left a d w = ground arith

      and_right : (a d : Bool) → (a && d) ≡ true → d ≡ true
      and_right a d w = ground arith

  pub decode_caption-encode_file :
      IsInt64 r
      → is_text (r.name) ≡ true
      → hash_free (r.name) ≡ true
      → All (λ t. is_own t ≡ false) (human_from u max_human_tags [] (r.human_tags))
      → encode_file u r ≡ ok caption
      → (front : List Text) × (back : List Text) × (human_from u max_human_tags [] (r.human_tags)
          ≡ front ++ back)
        × (decode_caption caption ≡ ok (read_back r front))
  unfolding encode_file decode_caption
  decode_caption-encode_file b t f w h =
      let (i, h1) = require_inv (valid_id (r.id)) _ caption h in
      let (p, h2) = require_inv (valid_or_empty (r.parent_id)) _ caption h1 in
      let (v, h3) = require_inv (valid_name (r.name)) _ caption h2 in
      let (c, h4) =
        require_inv (leb 1 (r.seg_count) && leb 1 (r.seg_index) && leb (r.seg_index) (r.seg_count))
          _ caption h3 in
      let (s, h5) =
        require_inv (leb_ℤ (pos 0) (r.total_size) && ltb_ℤ (pos 0) (r.segment_size)) _ caption h4 in
      let (o, h6) = require_inv (valid_or_empty (r.owner_id)) _ caption h5 in
      let n = valid_name-nonempty (r.name) v in
      let human = human_from u max_human_tags [] (r.human_tags) in
      let words =
        AreTags-append (common_tags file_word (r.id) (r.parent_id) (r.name) ++ segment_tags r)
          (owner_tags (r.owner_id))
          (AreTags-append (common_tags file_word (r.id) (r.parent_id) (r.name)) (segment_tags r)
            (AreTags-common_tags file_word (r.id) (r.parent_id) (r.name) refl i p n)
            (AreTags-segment r))
          (AreTags-owner (r.owner_id) o) in
      let (front, back, g, e) =
        tag_tokens-Fitted (r.name) (file_tags r) human caption (valid_name-line (r.name) v, f) words
          (AreTags-human_from u max_human_tags [] (r.human_tags))
          (assembled (r.name) (tag marker ∷ map_tag (file_tags r)) (map_tag human) caption h6) in
      (
        front,
        back,
        g,
        ap (decode_tokens caption) e
            ∙ tokens_read front b i p n t c s o
                (All-front front back (subst (All (λ x. is_own x ≡ false)) g w)),
      )
