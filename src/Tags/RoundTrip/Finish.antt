-- ===== src/Tags/RoundTrip/Finish.antt =====
-- The tags of a record are words, and what Decode makes of them when all are read.
use tdrive.Base.{
  ℕ, ◌≡◌, refl, sym, ap, ◌∙◌, Bool, true, false, not, ◌&&◌, Option, none, some, [], ◌∷◌, ◌++◌, ◌==◌,
  leb, arith, length, Result, ok, err,
}
use tdrive.Access.Perms.{is_space}
use tdrive.Names.Path.{Text, text_eq}
use tdrive.Tags.Words.Joined.{no_space, is_word}
use tdrive.Tags.Numbers.{decimal, is_digit, all_digits, all_digits-decimal}
use tdrive.Tags.Caption.{TagError, malformed}
use tdrive.Tags.Record.{
  Kind, Record, or_root, valid_id, valid_name, valid_or_empty, common_tags, segment_tags,
  owner_tags, id_char, id_chars,
}
use tdrive.Tags.Utf8.{is_text}
use tdrive.Tags.Names.Reading.{is_word-encode_name, decode_name-encode_name}
use tdrive.Tags.Names.{encode_name}
use tdrive.Tags.Names.{decode_name}
use tdrive.Tags.Decode.{Parsed, of_kind, name_or, some_name, with_segments, fallback_name}
use tdrive.Tags.RoundTrip.Tokens.{AreTags}

printable : (c : ℕ) → leb 48 c ≡ true → leb c 90 ≡ true → is_space c ≡ false
printable c h k = ground arith

and_first : (a b : Bool) → (a && b) ≡ true → a ≡ true
and_first a b h = ground arith

and_second : (a b : Bool) → (a && b) ≡ true → b ≡ true
and_second a b h = ground arith

pub and_true : (a b : Bool) → a ≡ false → b ≡ true → (not a && b) ≡ true
and_true a b h k = ground arith

id_char_range : (c : ℕ) → id_char c ≡ true → (leb 48 c ≡ true) × (leb c 90 ≡ true)
id_char_range c h = (ground arith, ground arith)

id_chars-no_space : (s : Text) → id_chars s ≡ true → no_space s ≡ true
id_chars-no_space [] h = refl
id_chars-no_space (c ∷ cs) h =
    let (a, b) = id_char_range c (and_first (id_char c) (id_chars cs) h) in
    and_true (is_space c) (no_space cs) (printable c a b)
      (id_chars-no_space cs (and_second (id_char c) (id_chars cs) h))

digit_range : (c : ℕ) → is_digit c ≡ true → (leb 48 c ≡ true) × (leb c 90 ≡ true)
digit_range c h = (ground arith, ground arith)

all_digits-no_space : (s : Text) → all_digits s ≡ true → no_space s ≡ true
all_digits-no_space [] h = refl
all_digits-no_space (c ∷ cs) h =
    let (a, b) = digit_range c (and_first (is_digit c) (all_digits cs) h) in
    and_true (is_space c) (no_space cs) (printable c a b)
      (all_digits-no_space cs (and_second (is_digit c) (all_digits cs) h))

decimal-no_space : (n : ℕ) → no_space (decimal n) ≡ true
decimal-no_space n = all_digits-no_space (decimal n) (all_digits-decimal n)

no_space-append : (s t : Text) → no_space s ≡ true → no_space t ≡ true → no_space (s ++ t) ≡ true
no_space-append [] t h k = k
no_space-append (c ∷ cs) t h k =
    and_true (is_space c) (no_space (cs ++ t))
      (first (and_first (not (is_space c)) (no_space cs) h))
      (no_space-append cs t (and_second (not (is_space c)) (no_space cs) h) k)
  where
    first : not (is_space c) ≡ true → is_space c ≡ false
    first w = flipped (is_space c) w
      where
        flipped : (b : Bool) → not b ≡ true → b ≡ false
        flipped true e = sym e
        flipped false e = refl

valid_id-no_space : (id : Text) → valid_id id ≡ true → no_space id ≡ true
unfolding valid_id
valid_id-no_space id h = id_chars-no_space id (and_second (length id == 26) (id_chars id) h)

valid_or_empty-no_space : (id : Text) → valid_or_empty id ≡ true → no_space id ≡ true
valid_or_empty-no_space [] h = refl
valid_or_empty-no_space (c ∷ cs) h = valid_id-no_space (c ∷ cs) h

or_root-no_space : (id : Text) → valid_or_empty id ≡ true → no_space (or_root id) ≡ true
or_root-no_space [] h = refl
or_root-no_space (c ∷ cs) h = valid_id-no_space (c ∷ cs) h

word-no_space : (w : Text) → is_word w ≡ true → no_space w ≡ true
word-no_space [] h = refl
word-no_space (c ∷ cs) h = h

pub valid_name-nonempty : (name : Text) → valid_name name ≡ true → text_eq name [] ≡ false
unfolding valid_name
valid_name-nonempty [] h = sym h
valid_name-nonempty (c ∷ cs) h = refl

encoded_word : (name : Text) → text_eq name [] ≡ false → is_word (encode_name name) ≡ true
encoded_word [] h = absurd (ground arith)
encoded_word (c ∷ cs) h = is_word-encode_name c cs

pub AreTags-common_tags :
    (kind id parent name : Text)
    → is_word kind ≡ true
    → valid_id id ≡ true
    → valid_or_empty parent ≡ true
    → text_eq name [] ≡ false
    → AreTags (common_tags kind id parent name)
AreTags-common_tags kind id parent name k h p n = (
  refl,
  (
    k,
    (
      valid_id-no_space id h,
      (or_root-no_space parent p, (word-no_space (encode_name name) (encoded_word name n), tt)),
    ),
  ),
)

pub AreTags-segment : (r : Record) → AreTags (segment_tags r)
AreTags-segment r = (
  no_space-append (decimal (r.seg_index)) (95 ∷ decimal (r.seg_count))
      (decimal-no_space (r.seg_index)) (decimal-no_space (r.seg_count)),
  (decimal-no_space _, (decimal-no_space _, tt)),
)

pub AreTags-owner : (owner : Text) → valid_or_empty owner ≡ true → AreTags (owner_tags owner)
AreTags-owner [] h = tt
AreTags-owner (c ∷ cs) h = (valid_id-no_space (c ∷ cs) h, tt)

encoded_name :
    (name fallback : Text)
    → text_eq name [] ≡ false
    → is_text name ≡ true
    → name_or (encode_name name) fallback ≡ ok name
encoded_name [] fallback n t = absurd (ground arith)
encoded_name (c ∷ cs) fallback n t =
    nonempty (encode_name (c ∷ cs)) (is_word-encode_name c cs) (decode_name-encode_name (c ∷ cs) t)
  where
    read :
        (o : Option Text)
        → o ≡ some (c ∷ cs)
        → (elim o as (λ (x : Option Text). Result TagError Text) [
          | none ↦ err malformed
          | some name ↦ ok name
        ])
          ≡ ok (c ∷ cs)
    read none e = absurd (ground arith)
    read (some x) e = let f : x ≡ c ∷ cs = ground arith in ap (λ (y : Text). ok y) f

    nonempty :
        (enc : Text)
        → is_word enc ≡ true
        → decode_name enc ≡ some (c ∷ cs)
        → name_or enc fallback ≡ ok (c ∷ cs)
    nonempty [] w e = absurd (ground arith)
    nonempty (d ∷ ds) w e = read (decode_name (d ∷ ds)) e

some_ok : (name : Text) → text_eq name [] ≡ false → some_name name ≡ ok name
some_ok [] n = absurd (ground arith)
some_ok (c ∷ cs) n = refl

-- All checks of Decode pass on what was gathered from a record's tags.
pub of_kind-passes :
    (caption name : Text) (s : Parsed) (kind : Kind)
    → valid_id (s.id) ≡ true
    → valid_or_empty (s.parent_id) ≡ true
    → s.enc_name ≡ encode_name name
    → text_eq name [] ≡ false
    → is_text name ≡ true
    → of_kind caption s 1 (some kind) ≡ with_segments s kind 1 name
of_kind-passes caption name s kind h p e n t =
    let read =
      ap (λ (x : Text). name_or x (fallback_name caption kind)) e
      ∙ encoded_name name (fallback_name caption kind) n t in
    rw (h, p, read, some_ok name n) refl
