-- ===== src/Tags/Names/Reading.antt =====
-- An encoded name is a word, and reads back.
use tdrive.Base.{ℕ, ◌≡◌, ap, ◌∙◌, subst, true, some, List, ◌∷◌, All, ◌<◌}
use tdrive.Names.Path.{Text}
use tdrive.Tags.Words.Joined.{is_word}
use tdrive.Tags.Utf8.{is_text, utf8}
use tdrive.Tags.Utf8.Decoding.{runes-utf8, utf8-Bytes, nonempty-utf8}
use tdrive.Tags.Base32.{encode_bytes}
use tdrive.Tags.Base32.Packing.{decode_bytes-encode_bytes, is_word-encode_bytes}
use tdrive.Tags.Names.{encode_name, decode_name, text_of}

pub is_word-encode_name : (c : ℕ) (cs : Text) → is_word (encode_name (c ∷ cs)) ≡ true
unfolding encode_name
is_word-encode_name c cs =
    let (b, bs, e) = nonempty-utf8 c cs in
    let bytes = subst (λ (x : List ℕ). All (λ n. n < 256) x) e (utf8-Bytes (c ∷ cs)) in
    ap (λ (x : List ℕ). is_word (encode_bytes x)) e ∙ is_word-encode_bytes b bs bytes

pub decode_name-encode_name :
    (name : Text) → is_text name ≡ true → decode_name (encode_name name) ≡ some name
unfolding encode_name decode_name
decode_name-encode_name name h =
    ap text_of (decode_bytes-encode_bytes (utf8 name) (utf8-Bytes name))
    ∙ ap (λ (x : Text). some x) (runes-utf8 name h)
