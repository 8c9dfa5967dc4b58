-- ===== src/Tags/Caption/Fitting.antt =====
-- assemble ends, with a caption that Telegram takes.
use tdrive.Base.{
  ℕ, zero, suc, ◌+◌, ◌-◌, ◌≤◌, ◌<◌, ◌≡◌, refl, sym, ap, ◌∙◌, ◌⊎◌, true, false, inl, inr, Bool-cases,
  List, [], ◌∷◌, ◌++◌, append-nil, append_assoc, ltb, leb, leb→le, choose_true, choose_false, arith,
  length, ok, err,
}
use tdrive.Names.Path.{Text}
use tdrive.Tags.Words.{line_feed, join_words}
use tdrive.Tags.Caption.{
  max_caption_units, utf16_len, truncate_utf16, malformed, with_human, drop_last, body, fit,
  assemble,
}
use tdrive.Tags.Caption.Units.{utf16_len-append, truncate_utf16-le}

-- The line for display, whole or cut.
abbrev pub Shown : Text → Text → Type 0
Shown display shown = (shown ≡ display) ⊎ ((n : ℕ) × (shown ≡ truncate_utf16 display n))

-- The machine tags are whole; of the others the first ones are there; the line for display is
-- there, whole or cut, or is not.
pub record Fitted (display base : Text) (human : List Text) (out : Text) : Type 0 where
  pub kept : List Text
  pub rest : List Text
  pub front : human ≡ kept ++ rest
  pub form :
      (out ≡ with_human base kept)
      ⊎ ((shown : Text) × Shown display shown × (out ≡ body shown (with_human base kept)))
  pub short : utf16_len out ≤ max_caption_units

length-drop_last : (t : Text) (ts : List Text) → length (drop_last (t ∷ ts)) ≡ length ts
length-drop_last t [] = refl
length-drop_last t (u ∷ us) = ap suc (length-drop_last u us)

drop_last-front : (t : Text) (ts : List Text) → (l : List Text) × (t ∷ ts ≡ drop_last (t ∷ ts) ++ l)
drop_last-front t [] = (t ∷ [], refl)
drop_last-front t (u ∷ us) =
    let (l, e) = drop_last-front u us in (l, ap (λ (x : List Text). t ∷ x) e)

utf16_len-body : (d tags : Text) → utf16_len (body d tags) ≡ utf16_len d + (2 + utf16_len tags)
unfolding utf16_len
utf16_len-body d tags = omega (arith, utf16_len-append d (line_feed ∷ line_feed ∷ tags))

fits_now :
    (rounds : ℕ) (d base : Text)
    → leb (utf16_len (body d base)) max_caption_units ≡ true
    → fit (suc rounds) d base [] ≡ ok (body d base)
unfolding fit
fits_now rounds d base h = choose_true _ _ h

module _ (display base : Text) where
  cut_fits :
      leb max_caption_units (utf16_len base + 2) ≡ false
      → leb
          (utf16_len (body (truncate_utf16 display (max_caption_units - utf16_len base - 2)) base))
          max_caption_units
        ≡ true
  cut_fits h =
      let k = truncate_utf16-le display (max_caption_units - utf16_len base - 2) in
      let e =
        utf16_len-body (truncate_utf16 display (max_caption_units - utf16_len base - 2)) base in
      ground arith

  fit-nil :
      (rounds : ℕ)
      → 1 < rounds
      → utf16_len base ≤ max_caption_units
      → (out : Text) × (fit rounds display base [] ≡ ok out) × Fitted display base [] out
  unfolding fit
  fit-nil zero h k = absurd (omega arith)
  fit-nil (suc zero) h k = absurd (omega arith)
  fit-nil (suc (suc rounds)) h k =
      elim (Bool-cases (leb (utf16_len (body display base)) max_caption_units)) [
        | inl e ↦ (
          body display base,
          choose_true _ _ e,
          record {
            kept = [];
            rest = [];
            front = refl;
            form = inr (display, inl refl, refl);
            short = leb→le _ _ e;
          },
        )
        | inr e ↦ elim (Bool-cases (leb max_caption_units (utf16_len base + 2))) [
          | inl f ↦ (
            base,
            choose_false _ _ e ∙ choose_true _ _ f,
            record { kept = []; rest = []; front = refl; form = inl refl; short = k },
          )
          | inr f ↦
              let d = truncate_utf16 display (max_caption_units - utf16_len base - 2) in
              (
                body d base,
                choose_false _ _ e ∙ choose_false _ _ f ∙ fits_now rounds d base (cut_fits f),
                record {
                  kept = [];
                  rest = [];
                  front = refl;
                  form = inr (d, inr (max_caption_units - utf16_len base - 2, refl), refl);
                  short = leb→le _ _ (cut_fits f);
                },
              )
        ]
      ]

  more_rest :
      (human : List Text) (t : Text) (ts : List Text) (out : Text)
      → human ≡ drop_last (t ∷ ts)
      → Fitted display base human out
      → Fitted display base (t ∷ ts) out
  more_rest human t ts out e f =
      let (l, g) = drop_last-front t ts in
      record {
        kept = f.kept;
        rest = f.rest ++ l;
        front =
            g ∙ ap (λ (x : List Text). x ++ l) (sym e ∙ f.front) ∙ append_assoc (f.kept) (f.rest) l;
        form = f.form;
        short = f.short;
      }

  pub fit-Fitted :
      (rounds : ℕ) (human : List Text)
      → length human + 1 < rounds
      → utf16_len base ≤ max_caption_units
      → (out : Text) × (fit rounds display base human ≡ ok out) × Fitted display base human out
  unfolding fit
  fit-Fitted rounds [] h k = fit-nil rounds (omega arith) k
  fit-Fitted zero (t ∷ ts) h k = absurd (omega arith)
  fit-Fitted (suc rounds) (t ∷ ts) h k =
      elim (Bool-cases
        (leb (utf16_len (body display (with_human base (t ∷ ts)))) max_caption_units)) [
          | inl e ↦ (
            body display (with_human base (t ∷ ts)),
            choose_true _ _ e,
            record {
              kept = t ∷ ts;
              rest = [];
              front = sym (append-nil (t ∷ ts));
              form = inr (display, inl refl, refl);
              short = leb→le _ _ e;
            },
          )
          | inr e ↦
              let (out, f, g) =
                fit-Fitted rounds (drop_last (t ∷ ts)) (omega (arith, length-drop_last t ts)) k in
              (out, choose_false _ _ e ∙ f, more_rest (drop_last (t ∷ ts)) t ts out refl g)
        ]

-- When the machine tags fit in 1024 UTF-16 units, the loop of assemble ends, and the caption that it
-- returns fits in 1024 units, has the machine tags whole, the first ones of the human tags behind
-- them, and before them the line for display, whole or cut, or nothing. When they do not fit, it
-- is refused.
pub assemble-Fitted :
    (display : Text) (machine human : List Text)
    → ((utf16_len (join_words machine) ≤ max_caption_units)
        × (out : Text) × (assemble display machine human ≡ ok out)
        × Fitted display (join_words machine) human out)
      ⊎ ((max_caption_units < utf16_len (join_words machine))
          × (assemble display machine human ≡ err malformed))
unfolding assemble
assemble-Fitted display machine human =
    elim (Bool-cases (ltb max_caption_units (utf16_len (join_words machine)))) [
      | inl e ↦ inr (ground arith, choose_true _ _ e)
      | inr e ↦
          let short : utf16_len (join_words machine) ≤ max_caption_units = ground arith in
          let (out, f, g) =
            fit-Fitted display (join_words machine) (length human + 2) human (omega arith) short in
          inl (short, out, choose_false _ _ e ∙ f, g)
    ]
