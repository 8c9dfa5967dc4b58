-- ===== src/Tags/Caption.antt =====
-- assemble of internal/tagcodec/tagcodec.go: a caption of at most 1024 UTF-16 units.
pub mod Units
pub mod Fitting
pub mod Examples
use tdrive.Base.{
  ℕ, zero, suc, ◌+◌, ◌-◌, List, [], ◌∷◌, ◌++◌, ltb, leb, if◌then◌else◌, length, Result, ok, err,
}
use tdrive.Names.Path.{Text}
use tdrive.Tags.Words.{line_feed, blank, join_words}

abbrev pub max_caption_units : ℕ
max_caption_units = 1024

abbrev pub units : ℕ → ℕ
units r = if ltb 65535 r then 2 else 1

unfoldable pub utf16_len : Text → ℕ
utf16_len [] = 0
utf16_len (r ∷ rs) = units r + utf16_len rs

-- The characters that fit in what is left of the limit.
unfoldable pub cut_utf16 : ℕ → Text → Text
cut_utf16 limit [] = []
cut_utf16 limit (r ∷ rs) =
    let rest = cut_utf16 (limit - units r) rs in if ltb limit (units r) then [] else r ∷ rest

unfoldable pub truncate_utf16 : Text → ℕ → Text
truncate_utf16 s limit = if leb (utf16_len s) limit then s else cut_utf16 limit s

pub data TagError : Type 0 where
  not_tagged unknown_version malformed : TagError
  -- The loop of assemble has not ended; it never comes to this.
  rounds_over : TagError

abbrev pub with_human : Text → List Text → Text
with_human base [] = base
with_human base (t ∷ ts) = base ++ blank ∷ join_words (t ∷ ts)

abbrev pub drop_last : List Text → List Text
drop_last [] = []
drop_last (t ∷ []) = []
drop_last (t ∷ u ∷ us) = t ∷ drop_last (u ∷ us)

abbrev pub body : Text → Text → Text
body display tags = display ++ line_feed ∷ line_feed ∷ tags

-- The loop of assemble, by the rounds left.
unfoldable pub fit : ℕ → Text → Text → List Text → Result TagError Text
fit zero display base human = err rounds_over
fit (suc rounds) display base [] =
    let shorter =
      fit rounds (truncate_utf16 display (max_caption_units - utf16_len base - 2)) base [] in
    if leb (utf16_len (body display base)) max_caption_units
    then ok (body display base)
    else if leb max_caption_units (utf16_len base + 2)
    then ok base
    else shorter
fit (suc rounds) display base (t ∷ ts) =
    let fewer = fit rounds display base (drop_last (t ∷ ts)) in
    if leb (utf16_len (body display (with_human base (t ∷ ts)))) max_caption_units
    then ok (body display (with_human base (t ∷ ts)))
    else fewer

unfoldable pub assemble : Text → List Text → List Text → Result TagError Text
assemble display machine human =
    if ltb max_caption_units (utf16_len (join_words machine))
    then err malformed
    else fit (length human + 2) display (join_words machine) human
