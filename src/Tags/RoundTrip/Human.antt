-- ===== src/Tags/RoundTrip/Human.antt =====
-- The tags of folders, as SanitizeTag makes them, are words.
use tdrive.Base.{
  ℕ, ◌-◌, ◌≡◌, refl, sym, ap, ◌∙◌, subst, Bool, true, false, ◌||◌, List, [], ◌∷◌, ◌==◌, inl, inr,
  Bool-cases, choose_true, choose_false, arith,
}
use tdrive.Access.Perms.{is_space}
use tdrive.Names.Path.{Text, text_eq}
use tdrive.Tags.Words.Joined.{no_space, is_word}
use tdrive.Tags.Words.Block.{or_left}
use tdrive.Tags.Record.{Classes, kept_chars, digits_only, sanitize_tag, among, human_from}
use tdrive.Tags.RoundTrip.Tokens.{AreTags}
use tdrive.Tags.RoundTrip.Finish.{and_true}

module _ (u : Classes) where
  kept_char : (c : ℕ) → (u.is_letter c || u.is_number c || c == 95) ≡ true → is_space c ≡ false
  kept_char c h = elim (Bool-cases (u.is_letter c)) [
    | inl e ↦ u.letter-is_space c e
    | inr e ↦ elim (Bool-cases (u.is_number c)) [
      | inl f ↦ u.number-is_space c f
      | inr f ↦ ap is_space (line c (last (u.is_letter c) (u.is_number c) (c == 95) e f h))
    ]
  ]
    where
      last : (a b d : Bool) → a ≡ false → b ≡ false → (a || b || d) ≡ true → d ≡ true
      last a b d v w x = ground arith

      line : (c : ℕ) → (c == 95) ≡ true → c ≡ 95
      line c v = ground arith

  kept_chars-no_space : (s : Text) → no_space (kept_chars u s) ≡ true
  kept_chars-no_space [] = refl
  kept_chars-no_space (c ∷ cs) = elim (Bool-cases (u.is_letter c || u.is_number c || c == 95)) [
    | inl e ↦
        ap no_space (choose_true _ _ e)
        ∙ and_true (is_space c) (no_space (kept_chars u cs)) (kept_char c e)
            (kept_chars-no_space cs)
    | inr e ↦ ap no_space (choose_false _ _ e) ∙ kept_chars-no_space cs
  ]

  sanitize_tag-no_space : (s : Text) → no_space (sanitize_tag u s) ≡ true
  unfolding sanitize_tag
  sanitize_tag-no_space s = elim (Bool-cases (text_eq (kept_chars u s) [])) [
    | inl e ↦ ap no_space (choose_true _ _ e)
    | inr e ↦ ap no_space (choose_false _ _ e) ∙ elim (Bool-cases (digits_only u s)) [
      | inl f ↦ ap no_space (choose_true _ _ f) ∙ kept_chars-no_space s
      | inr f ↦ ap no_space (choose_false _ _ f) ∙ kept_chars-no_space s
    ]
  ]

  word_of : (t : Text) → text_eq t [] ≡ false → no_space t ≡ true → is_word t ≡ true
  word_of [] h k = sym h
  word_of (c ∷ cs) h k = k

  pub AreTags-human_from :
      (room : ℕ) (seen names : List Text) → AreTags (human_from u room seen names)
  AreTags-human_from room seen [] = tt
  AreTags-human_from room seen (raw ∷ rest) =
      let skipped = AreTags-human_from room seen rest in
      let taken = AreTags-human_from (room - 1) (sanitize_tag u raw ∷ seen) rest in
      let t = sanitize_tag u raw in
      elim (Bool-cases (room == 0)) [
        | inl e ↦ subst AreTags (sym (choose_true _ _ e)) tt
        | inr e ↦ elim (Bool-cases (text_eq t [] || among t seen)) [
          | inl f ↦ subst AreTags (sym (choose_false _ _ e ∙ choose_true _ _ f)) skipped
          | inr f ↦ subst AreTags (sym (choose_false _ _ e ∙ choose_false _ _ f)) (
            word_of t (or_left (text_eq t []) (among t seen) f) (sanitize_tag-no_space raw),
            taken,
          )
        ]
      ]
