-- ===== src/Tags/Caption/Examples.antt =====
-- A short caption.
use tdrive.Base.{◌≤◌, ◌<◌, ◌≡◌, refl, ◌⊎◌, List, [], ◌∷◌, ok, err}
use tdrive.Names.Path.{Text}
use tdrive.Tags.Words.{join_words}
use tdrive.Tags.Caption.{max_caption_units, utf16_len, assemble, fit, malformed, cut_utf16}
use tdrive.Tags.Caption.Fitting.{Fitted, assemble-Fitted}

-- "f", below it "#t" and "#a"
abbrev line : Text
line = 102 ∷ []

abbrev machine_tags : List Text
machine_tags = (35 ∷ 116 ∷ []) ∷ []

abbrev folder_tags : List Text
folder_tags = (35 ∷ 97 ∷ []) ∷ []

short_caption :
    assemble line machine_tags folder_tags ≡ ok (102 ∷ 10 ∷ 10 ∷ 35 ∷ 116 ∷ 32 ∷ 35 ∷ 97 ∷ [])
unfolding assemble fit utf16_len
short_caption = refl

-- "f" and U+1F4C1 need three units.
cut_whole : cut_utf16 2 (102 ∷ 128193 ∷ []) ≡ 102 ∷ []
unfolding cut_utf16
cut_whole = refl

assemble-Fitted_example :
    ((utf16_len (join_words machine_tags) ≤ max_caption_units)
      × (out : Text) × (assemble line machine_tags folder_tags ≡ ok out)
      × Fitted line (join_words machine_tags) folder_tags out)
    ⊎ ((max_caption_units < utf16_len (join_words machine_tags))
        × (assemble line machine_tags folder_tags ≡ err malformed))
assemble-Fitted_example = assemble-Fitted line machine_tags folder_tags
