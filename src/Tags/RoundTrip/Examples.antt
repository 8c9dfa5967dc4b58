-- ===== src/Tags/RoundTrip/Examples.antt =====
-- Captions, with names encoded by a shift of the code points in place of base32.
use tdrive.Base.{ℕ, ◌≡◌, refl, true, false, ◌&&◌, [], ◌∷◌, leb, arith, ok}
use tdrive.Base.Int.{pos}
use tdrive.Access.Perms.{is_space}
use tdrive.Names.Path.{Text}
use tdrive.Tags.Utf8.{utf8}
use tdrive.Tags.Base32.{encode_bytes, pack}
use tdrive.Tags.Names.{encode_name}
use tdrive.Tags.Words.{marker, join_words}
use tdrive.Tags.Numbers.{decimal, decimal_onto}
use tdrive.Tags.Caption.{assemble, fit, utf16_len, body, with_human}
use tdrive.Tags.Record.{
  file_kind, Record, Classes, dir_word, dir_display, tag, map_tag, common_tags, file_tags,
  encode_dir, encode_file, valid_id, valid_name, human_from, sanitize_tag, max_human_tags,
}
use tdrive.Tags.Decode.{decode_caption}
use tdrive.Tags.RoundTrip.Dirs.{dir_record, decode_caption-encode_dir}
use tdrive.Tags.RoundTrip.Files.{IsInt64}

pub ascii_letter : (c : ℕ) → (leb 97 c && leb c 122) ≡ true → is_space c ≡ false
ascii_letter c h = ground arith

pub ascii_digit : (c : ℕ) → (leb 48 c && leb c 57) ≡ true → is_space c ≡ false
ascii_digit c h = ground arith

abbrev pub ascii : Classes
ascii = record {
  is_letter = λ c. leb 97 c && leb c 122;
  is_number = λ c. leb 48 c && leb c 57;
  letter-is_space = ascii_letter;
  number-is_space = ascii_digit;
}

-- "00000000000000000000000000"
abbrev pub zeros : Text
zeros =
    48 ∷ 48 ∷ 48 ∷ 48 ∷ 48 ∷ 48 ∷ 48 ∷ 48 ∷ 48 ∷ 48 ∷ 48 ∷ 48 ∷ 48 ∷ 48 ∷ 48 ∷ 48 ∷ 48 ∷ 48 ∷ 48
    ∷ 48 ∷ 48 ∷ 48 ∷ 48 ∷ 48 ∷ 48 ∷ 48 ∷ []

-- The directory "/#a".
abbrev pub hash_dir : Text
hash_dir = 35 ∷ 97 ∷ []

abbrev pub dir_caption : Text
dir_caption =
    body (dir_display (47 ∷ hash_dir))
      (join_words (tag marker ∷ map_tag (common_tags dir_word zeros [] hash_dir)))

pub dir_encoded : encode_dir zeros [] hash_dir (47 ∷ hash_dir) ≡ ok dir_caption
unfolding encode_dir assemble fit utf16_len valid_id valid_name encode_name encode_bytes pack utf8
dir_encoded = refl

decode_caption-encode_dir_example : decode_caption dir_caption ≡ ok (dir_record zeros [] hash_dir)
decode_caption-encode_dir_example =
    decode_caption-encode_dir zeros [] hash_dir (47 ∷ hash_dir) dir_caption refl refl dir_encoded

-- The second of three segments of a file "f", in a folder.
abbrev pub in_folder : Text → Record
in_folder folder = record {
  kind = file_kind;
  version = 1;
  id = zeros;
  parent_id = zeros;
  name = 102 ∷ [];
  seg_index = 2;
  seg_count = 3;
  total_size = pos 10;
  segment_size = pos 4;
  owner_id = [];
  human_tags = folder ∷ [];
}

abbrev pub caption_in : Text → Text
caption_in folder = body (102 ∷ []) (
    with_human (join_words (tag marker ∷ map_tag (file_tags (in_folder folder)))) (tag folder ∷ []))

pub small_numbers : (folder : Text) → IsInt64 (in_folder folder)
small_numbers folder = record {
  count_fits = omega arith;
  size_fits = omega arith;
  segment_fits = omega arith;
}

-- The folder "ab"
pub file_encoded : encode_file ascii (in_folder (97 ∷ 98 ∷ [])) ≡ ok (caption_in (97 ∷ 98 ∷ []))
unfolding encode_file assemble fit utf16_len valid_id valid_name sanitize_tag decimal decimal_onto
    encode_name encode_bytes pack utf8
file_encoded = refl

file_human : human_from ascii max_human_tags [] ((97 ∷ 98 ∷ []) ∷ []) ≡ (97 ∷ 98 ∷ []) ∷ []
unfolding sanitize_tag
file_human = refl
