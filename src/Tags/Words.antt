-- ===== src/Tags/Words.antt =====
-- Words and lines of a caption: strings.Fields, strings.Split at line feeds, strings.Join with
-- blanks, and tagTokens of internal/tagcodec/tagcodec.go.
pub mod Joined
pub mod Block
use tdrive.Base.{
  ℕ, Bool, true, false, not, ◌&&◌, Option, none, some, List, [], ◌∷◌, ◌++◌, ◌==◌, if◌then◌else◌,
}
use tdrive.Access.Perms.{is_space}
use tdrive.Names.Path.{Text, text_eq, put_front}

abbrev pub line_feed : ℕ
line_feed = 10

abbrev pub blank : ℕ
blank = 32

abbrev pub hash : ℕ
hash = 35

-- "tdrive"
abbrev pub marker : Text
marker = b't' ∷ b'd' ∷ b'r' ∷ b'i' ∷ b'v' ∷ b'e' ∷ []

abbrev pub starts_word : Text → Bool
starts_word [] = false
starts_word (c ∷ cs) = not (is_space c)

-- strings.Fields
unfoldable pub fields : Text → List Text
fields [] = []
fields (c ∷ cs) =
    let rest = fields cs in
    if is_space c then rest else if starts_word cs then put_front c rest else (c ∷ []) ∷ rest

-- strings.Split at line feeds
unfoldable pub split_lines : Text → List Text
split_lines [] = [] ∷ []
split_lines (c ∷ cs) =
    let rest = split_lines cs in if c == line_feed then [] ∷ rest else put_front c rest

-- strings.Join with blanks
abbrev pub behind : Text → List Text → Text
behind w [] = w
behind w (v ∷ vs) = w ++ blank ∷ behind v vs

abbrev pub join_words : List Text → Text
join_words [] = []
join_words (w ∷ ws) = behind w ws

abbrev pub is_marked : List Text → Bool
is_marked [] = false
is_marked (f ∷ fs) = text_eq f (hash ∷ marker)

abbrev pub tag_lines : List Text → List Text
tag_lines [] = []
tag_lines (l ∷ ls) = if is_marked (fields l) then l ∷ ls else tag_lines ls

-- What stands behind the '#' of a word, for words of two characters or more.
abbrev pub tag_of : Text → List Text
tag_of [] = []
tag_of (c ∷ []) = []
tag_of (c ∷ d ∷ ds) = if c == hash then (d ∷ ds) ∷ [] else []

abbrev pub tags_of : List Text → List Text
tags_of [] = []
tags_of (w ∷ ws) = tag_of w ++ tags_of ws

abbrev pub tags_of_lines : List Text → List Text
tags_of_lines [] = []
tags_of_lines (l ∷ ls) = tags_of (fields l) ++ tags_of_lines ls

-- tagTokens; an empty list for "no tag block".
unfoldable pub tag_tokens : Text → List Text
tag_tokens caption = tags_of_lines (tag_lines (split_lines caption))
