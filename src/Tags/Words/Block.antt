-- ===== src/Tags/Words/Block.antt =====
-- Where the tag block of a caption is found.
use mathlib.Core.Bool.{false≢true}
use tdrive.Base.{
  ℕ, ◌≡◌, refl, sym, ap, ◌∙◌, Bool, true, false, not, ◌||◌, List, [], ◌∷◌, ◌++◌, append-nil, arith,
  ◌==◌, Bool-cases, inl, inr, if◌then◌else◌, All, choose_true, choose_false,
}
use tdrive.Access.Perms.{is_space}
use tdrive.Names.Path.{Text, put_front, contains_rune}
use tdrive.Tags.Words.{
  line_feed, blank, hash, marker, starts_word, fields, split_lines, behind, is_marked, tag_lines,
  tags_of, tags_of_lines, tag_tokens,
}
use tdrive.Tags.Words.Joined.{no_space, is_word, fields-behind, and_left, and_right}

-- The first character that is not white space is no '#'.
abbrev pub hash_free : Text → Bool
hash_free [] = true
hash_free (c ∷ cs) = if is_space c then hash_free cs else not (c == hash)

put_front-marked :
    (c : ℕ) (ws : List Text) → (c == hash) ≡ false → is_marked (put_front c ws) ≡ false
put_front-marked c [] h = rw h refl
put_front-marked c (w ∷ ws) h = rw h refl

hash_free-fields : (s : Text) → hash_free s ≡ true → is_marked (fields s) ≡ false
unfolding fields
hash_free-fields [] h = refl
hash_free-fields (c ∷ cs) h = elim (Bool-cases (is_space c)) [
  | inl e ↦ ap is_marked (choose_true _ _ e) ∙ hash_free-fields cs (sym (choose_true _ _ e) ∙ h)
  | inr e ↦
      let k : (c == hash) ≡ false = no_hash (sym (choose_false _ _ e) ∙ h) in
      ap is_marked (choose_false _ _ e) ∙ either k
]
  where
    no_hash : not (c == hash) ≡ true → (c == hash) ≡ false
    no_hash k = ground arith

    either :
        (c == hash) ≡ false
        → is_marked (if starts_word cs then put_front c (fields cs) else (c ∷ []) ∷ fields cs)
          ≡ false
    either k = elim (Bool-cases (starts_word cs)) [
      | inl f ↦ ap is_marked (choose_true _ _ f) ∙ put_front-marked c (fields cs) k
      | inr f ↦ ap is_marked (choose_false _ _ f) ∙ rw k refl
    ]

pub or_left : (a b : Bool) → (a || b) ≡ false → a ≡ false
or_left a b h = ground arith

pub or_right : (a b : Bool) → (a || b) ≡ false → b ≡ false
or_right a b h = ground arith

or_false : (a b : Bool) → a ≡ false → b ≡ false → (a || b) ≡ false
or_false a b h k = ground arith

equal : (c d : ℕ) → (c == d) ≡ true → c ≡ d
equal c d h = ground arith

space_line : (c : ℕ) → is_space c ≡ false → (c == line_feed) ≡ false
space_line c h = elim (Bool-cases (c == line_feed)) [
  | inl e ↦ absurd (false≢true (sym h ∙ ap is_space (equal c line_feed e)))
  | inr e ↦ e
]

split_lines-line :
    (s t : Text)
    → contains_rune line_feed s ≡ false
    → split_lines (s ++ line_feed ∷ t) ≡ s ∷ split_lines t
unfolding split_lines
split_lines-line [] t h = refl
split_lines-line (c ∷ cs) t h =
    choose_false _ _ (or_left (c == line_feed) (contains_rune line_feed cs) h)
    ∙ ap (put_front c)
        (split_lines-line cs t (or_right (c == line_feed) (contains_rune line_feed cs) h))

split_lines-last : (s : Text) → contains_rune line_feed s ≡ false → split_lines s ≡ s ∷ []
unfolding split_lines
split_lines-last [] h = refl
split_lines-last (c ∷ cs) h =
    choose_false _ _ (or_left (c == line_feed) (contains_rune line_feed cs) h)
    ∙ ap (put_front c)
        (split_lines-last cs (or_right (c == line_feed) (contains_rune line_feed cs) h))

no_space-line : (s : Text) → no_space s ≡ true → contains_rune line_feed s ≡ false
no_space-line [] h = refl
no_space-line (c ∷ cs) h =
    or_false (c == line_feed) (contains_rune line_feed cs)
      (space_line c (and_left (is_space c) (no_space cs) h))
      (no_space-line cs (and_right (is_space c) (no_space cs) h))

one_line-append :
    (s t : Text)
    → contains_rune line_feed s ≡ false
    → contains_rune line_feed t ≡ false
    → contains_rune line_feed (s ++ t) ≡ false
one_line-append [] t h k = k
one_line-append (c ∷ cs) t h k =
    or_false (c == line_feed) (contains_rune line_feed (cs ++ t))
      (or_left (c == line_feed) (contains_rune line_feed cs) h)
      (one_line-append cs t (or_right (c == line_feed) (contains_rune line_feed cs) h) k)

word_line : (w : Text) → is_word w ≡ true → contains_rune line_feed w ≡ false
word_line [] h = refl
word_line (c ∷ cs) h = no_space-line (c ∷ cs) h

one_line-behind :
    (w : Text) (ws : List Text)
    → is_word w ≡ true
    → All (λ v. is_word v ≡ true) ws
    → contains_rune line_feed (behind w ws) ≡ false
one_line-behind w [] h k = word_line w h
one_line-behind w (v ∷ vs) h k =
    one_line-append w (blank ∷ behind v vs) (word_line w h) (one_line-behind v vs (k.0) (k.1))

module _ (ws : List Text) (words : All (λ v. is_word v ≡ true) ws) where
  abbrev block : Text
  block = behind (hash ∷ marker) ws

  block_line : tags_of_lines (tag_lines (block ∷ [])) ≡ tags_of ((hash ∷ marker) ∷ ws)
  block_line =
      ap tags_of_lines (choose_true (block ∷ []) [] (ap is_marked found))
      ∙ append-nil (tags_of (fields block))
      ∙ ap tags_of found
    where
      found : fields block ≡ (hash ∷ marker) ∷ ws
      found = fields-behind (hash ∷ marker) ws refl words

  skip_empty : tag_lines ([] ∷ block ∷ []) ≡ tag_lines (block ∷ [])
  unfolding fields
  skip_empty = refl

  -- The tags alone.
  pub tag_tokens-bare : tag_tokens block ≡ tags_of ((hash ∷ marker) ∷ ws)
  unfolding tag_tokens
  tag_tokens-bare =
      ap (λ (t : List Text). tags_of_lines (tag_lines t))
        (split_lines-last block (one_line-behind (hash ∷ marker) ws refl words))
      ∙ block_line

  -- The tags below a line for display.
  pub tag_tokens-below :
      (display : Text)
      → contains_rune line_feed display ≡ false
      → hash_free display ≡ true
      → tag_tokens (display ++ line_feed ∷ line_feed ∷ block) ≡ tags_of ((hash ∷ marker) ∷ ws)
  unfolding tag_tokens
  tag_tokens-below display h k =
      ap (λ (t : List Text). tags_of_lines (tag_lines t))
        (split_lines-line display (line_feed ∷ block) h
          ∙ ap (λ (t : List Text). display ∷ t)
              (split_lines-line [] block refl
                ∙ ap (λ (t : List Text). [] ∷ t)
                    (split_lines-last block (one_line-behind (hash ∷ marker) ws refl words))))
      ∙ ap tags_of_lines (choose_false _ _ (hash_free-fields display k) ∙ skip_empty)
      ∙ block_line
