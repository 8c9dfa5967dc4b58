-- ===== src/Tags/Names.antt =====
-- The names of records as the tag n_ spells them (internal/tagcodec/tagcodec.go).
pub mod Reading
use tdrive.Base.{ℕ, Option, none, some, List}
use tdrive.Names.Path.{Text}
use tdrive.Tags.Utf8.{utf8, runes}
use tdrive.Tags.Base32.{encode_bytes, decode_bytes}

-- nameEnc.EncodeToString of the name's bytes.
unfoldable pub encode_name : Text → Text
encode_name name = encode_bytes (utf8 name)

abbrev pub text_of : Option (List ℕ) → Option Text
text_of none = none
text_of (some bytes) = some (runes bytes)

-- The string of what nameEnc.DecodeString returns.
unfoldable pub decode_name : Text → Option Text
decode_name t = text_of (decode_bytes t)
