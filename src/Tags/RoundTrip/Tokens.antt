-- ===== src/Tags/RoundTrip/Tokens.antt =====
-- The tags that are read from an assembled caption.
use tdrive.Base.{
  ℕ, ◌-◌, ◌≡◌, refl, sym, ap, ◌∙◌, subst, true, false, List, [], ◌∷◌, ◌++◌, append-nil,
  append_assoc, ◌==◌, ltb, leb, inl, inr, Bool-cases, choose_true, choose_false, arith, All,
}
use tdrive.Access.Perms.{is_space}
use tdrive.Names.Path.{Text, contains_rune}
use tdrive.Tags.Words.{
  line_feed, blank, hash, marker, behind, join_words, tag_of, tags_of, tag_tokens,
}
use tdrive.Tags.Words.Joined.{is_word}
use tdrive.Tags.Words.Block.{hash_free, or_left, or_right, tag_tokens-bare, tag_tokens-below}
use tdrive.Tags.Caption.{units, utf16_len, cut_utf16, truncate_utf16, with_human, body}
use tdrive.Tags.Caption.Fitting.{Shown, Fitted}
use tdrive.Tags.Record.{tag, map_tag}

abbrev pub Plain : Text → Type 0
Plain s = (contains_rune line_feed s ≡ false) × (hash_free s ≡ true)

cut_line :
    (n : ℕ) (s : Text)
    → contains_rune line_feed s ≡ false
    → contains_rune line_feed (cut_utf16 n s) ≡ false
unfolding cut_utf16
cut_line n [] h = refl
cut_line n (c ∷ cs) h = elim (Bool-cases (ltb n (units c))) [
  | inl e ↦ ap (contains_rune line_feed) (choose_true _ _ e)
  | inr e ↦
      let ih = cut_line (n - units c) cs (or_right (c == line_feed) _ h) in
      let k = or_left (c == line_feed) (contains_rune line_feed cs) h in
      ap (contains_rune line_feed) (choose_false _ _ e) ∙ rw (k, ih) refl
]

cut_hash_free : (n : ℕ) (s : Text) → hash_free s ≡ true → hash_free (cut_utf16 n s) ≡ true
unfolding cut_utf16
cut_hash_free n [] h = refl
cut_hash_free n (c ∷ cs) h = elim (Bool-cases (ltb n (units c))) [
  | inl e ↦ ap hash_free (choose_true _ _ e)
  | inr e ↦ ap hash_free (choose_false _ _ e) ∙ elim (Bool-cases (is_space c)) [
    | inl f ↦ choose_true _ _ f ∙ cut_hash_free (n - units c) cs (sym (choose_true _ _ f) ∙ h)
    | inr f ↦ choose_false _ _ f ∙ sym (choose_false _ _ f) ∙ h
  ]
]

Shown-Plain : (display shown : Text) → Plain display → Shown display shown → Plain shown
unfolding truncate_utf16
Shown-Plain display shown p (inl e) = subst Plain (sym e) p
Shown-Plain display shown p (inr (n, e)) = elim (Bool-cases (leb (utf16_len display) n)) [
  | inl f ↦ subst Plain (sym (e ∙ choose_true _ _ f)) p
  | inr f ↦
      subst Plain (sym (e ∙ choose_false _ _ f))
        (cut_line n display (p.0), cut_hash_free n display (p.1))
]

-- A tag without its '#': not empty, and no white space in it.
abbrev pub AreTags : List Text → Type 0
AreTags = All (λ t. is_word t ≡ true)

tag_word : (t : Text) → is_word t ≡ true → is_word (tag t) ≡ true
tag_word [] h = absurd (ground arith)
tag_word (c ∷ cs) h = h

pub words-map_tag : (ts : List Text) → AreTags ts → All (λ w. is_word w ≡ true) (map_tag ts)
words-map_tag [] h = tt
words-map_tag (t ∷ ts) h = (tag_word t (h.0), words-map_tag ts (h.1))

tag_of-tag : (t : Text) → is_word t ≡ true → tag_of (tag t) ≡ t ∷ []
tag_of-tag [] h = absurd (ground arith)
tag_of-tag (c ∷ cs) h = refl

pub tags_of-map_tag : (ts : List Text) → AreTags ts → tags_of (map_tag ts) ≡ ts
tags_of-map_tag [] h = refl
tags_of-map_tag (t ∷ ts) h =
    ap (λ (x : List Text). x ++ tags_of (map_tag ts)) (tag_of-tag t (h.0))
    ∙ ap (λ (x : List Text). t ∷ x) (tags_of-map_tag ts (h.1))

behind-append :
    (w : Text) (ws : List Text) (t : Text) (ts : List Text)
    → behind w ws ++ blank ∷ behind t ts ≡ behind w (ws ++ t ∷ ts)
behind-append w [] t ts = refl
behind-append w (v ∷ vs) t ts =
    append_assoc w (blank ∷ behind v vs) (blank ∷ behind t ts)
    ∙ ap (λ (x : Text). w ++ blank ∷ x) (behind-append v vs t ts)

with_human-join :
    (ws ts : List Text)
    → with_human (join_words (tag marker ∷ ws)) ts ≡ behind (hash ∷ marker) (ws ++ ts)
with_human-join ws [] = ap (behind (hash ∷ marker)) (sym (append-nil ws))
with_human-join ws (t ∷ ts) = behind-append (hash ∷ marker) ws t ts

map_tag-append : (ts us : List Text) → map_tag (ts ++ us) ≡ map_tag ts ++ map_tag us
map_tag-append [] us = refl
map_tag-append (a ∷ ts) us = ap (λ (x : List Text). tag a ∷ x) (map_tag-append ts us)

tag_inj : (a b : Text) → tag a ≡ tag b → a ≡ b
tag_inj a b e = ground arith

-- A front part of tagged words is one of the words.
map_tag-front :
    (ts kept rest : List Text)
    → map_tag ts ≡ kept ++ rest
    → (front : List Text) × (back : List Text) × (kept ≡ map_tag front) × (ts ≡ front ++ back)
map_tag-front ts [] rest e = ([], ts, refl, refl)
map_tag-front [] (k ∷ ks) rest e = absurd (ground arith)
map_tag-front (a ∷ ts) (k ∷ ks) rest e =
    let (front, back, f, g) = map_tag-front ts ks rest (ground arith) in
    let h : tag a ≡ k = ground arith in
    (
      a ∷ front,
      back,
      ap (λ (x : List Text). k ∷ x) f ∙ ap (λ (x : Text). x ∷ map_tag front) (sym h),
      ap (λ (x : List Text). a ∷ x) g,
    )

pub AreTags-append : (ts us : List Text) → AreTags ts → AreTags us → AreTags (ts ++ us)
AreTags-append [] us h k = k
AreTags-append (a ∷ ts) us h k = (h.0, AreTags-append ts us (h.1) k)

AreTags-front : (ts us : List Text) → AreTags (ts ++ us) → AreTags ts
AreTags-front [] us h = tt
AreTags-front (a ∷ ts) us h = (h.0, AreTags-front ts us (h.1))

-- The tags of a caption that assemble has made: the marker, the machine tags, and a front part of
-- the others.
pub tag_tokens-Fitted :
    (display : Text) (machine human : List Text) (out : Text)
    → Plain display
    → AreTags machine
    → AreTags human
    → Fitted display (join_words (tag marker ∷ map_tag machine)) (map_tag human) out
    → (front : List Text) × (back : List Text) × (human ≡ front ++ back)
      × (tag_tokens out ≡ marker ∷ machine ++ front)
tag_tokens-Fitted display machine human out p m h f =
    let (front, back, e, g) = map_tag-front human (f.kept) (f.rest) (f.front) in
    let all = AreTags-append machine front m (AreTags-front front back (subst AreTags g h)) in
    let found = tags_of-map_tag (machine ++ front) all in
    let words = words-map_tag (machine ++ front) all in
    let text : with_human (join_words (tag marker ∷ map_tag machine)) (f.kept)
        ≡ behind (hash ∷ marker) (map_tag (machine ++ front)) =
      ap (with_human (join_words (tag marker ∷ map_tag machine))) e
      ∙ with_human-join (map_tag machine) (map_tag front)
      ∙ ap (behind (hash ∷ marker)) (sym (map_tag-append machine front)) in
    (
      front,
      back,
      g,
      elim (f.form) [
        | inl k ↦
            ap (λ (x : Text). tag_tokens x) (k ∙ text)
            ∙ tag_tokens-bare (map_tag (machine ++ front)) words
            ∙ ap (λ (x : List Text). marker ∷ x) found
        | inr (shown, s, k) ↦
            let (a, b) = Shown-Plain display shown p s in
            ap (λ (x : Text). tag_tokens x) (k ∙ ap (body shown) text)
            ∙ tag_tokens-below (map_tag (machine ++ front)) words shown a b
            ∙ ap (λ (x : List Text). marker ∷ x) found
      ],
    )
