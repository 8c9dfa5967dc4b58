-- ===== src/Tags/Decode/Steps.antt =====
-- What Decode makes of each tag that EncodeDir and EncodeFile write.
use mathlib.Core.Bool.{false≢true}
use tdrive.Base.{
  ℕ, ◌≤◌, ◌≡◌, refl, sym, ap, ◌∙◌, Bool, true, false, ◌||◌, Option, some, List, [], ◌∷◌, ◌++◌,
  append-nil, append_assoc, ◌==◌, inl, inr, Bool-cases, choose_false, arith, All, Result, ok, ◌>>=◌,
}
use tdrive.Base.Int.{ℤ, pos}
use tdrive.Api.Range.{up_to, after_first, parse_int, max_int64}
use tdrive.Names.Path.{Text, text_eq, has_prefix}
use tdrive.Names.Path.Equal.{text_eq_sound}
use tdrive.Tags.Words.{marker}
use tdrive.Tags.Words.Block.{or_left, or_right}
use tdrive.Tags.Numbers.{decimal, all_digits, all_digits-decimal, parse_int-decimal}
use tdrive.Tags.Caption.{TagError}
use tdrive.Tags.Record.{
  Kind, dir_kind, file_kind, dir_word, file_word, id_prefix, pid_prefix, n_prefix, seg_prefix,
  sz_prefix, ss_prefix, own_prefix, root_parent, or_root, valid_id, valid_or_empty, common_tags,
  owner_tags,
}
use tdrive.Tags.Names.{encode_name}
use tdrive.Tags.Decode.{
  Parsed, nothing, step, steps, parse_seg, seg_at, is_version, ordered, count_of, parsed_or,
}

root_invalid : valid_id root_parent ≡ false
unfolding valid_id
root_invalid = refl

not_root : (id : Text) → valid_id id ≡ true → text_eq id root_parent ≡ false
not_root id h = elim (Bool-cases (text_eq id root_parent)) [
  | inl e ↦ absurd (
      false≢true (
        sym root_invalid
        ∙ sym (ap (λ (t : Text). valid_id t) (text_eq_sound id root_parent e))
        ∙ h))
  | inr e ↦ e
]

step-pid :
    (parent : Text) (s : Parsed)
    → valid_or_empty parent ≡ true
    → s.parent_id ≡ []
    → step (pid_prefix ++ or_root parent) s ≡ ok (record s { parent_id = parent })
unfolding step
step-pid [] s h e = ap (λ (t : Text). ok (record s { parent_id = t })) e
step-pid (c ∷ cs) s h e =
    ap (λ (t : Text). ok (record s { parent_id = t })) (choose_false _ _ (not_root (c ∷ cs) h))

-- The tags that both kinds of records begin with.
pub steps-common_tags :
    (id parent name : Text) (rest : List Text)
    → valid_or_empty parent ≡ true
    → (steps (marker ∷ common_tags dir_word id parent name ++ rest) nothing
        ≡ steps rest (record nothing {
          kind = some dir_kind;
          version = some 1;
          id = id;
          parent_id = parent;
          enc_name = encode_name name;
        }))
      × (steps (marker ∷ common_tags file_word id parent name ++ rest) nothing
          ≡ steps rest (record nothing {
            kind = some file_kind;
            version = some 1;
            id = id;
            parent_id = parent;
            enc_name = encode_name name;
          }))
unfolding step parse_int
steps-common_tags id parent name rest h =
    let after = λ (k : Kind). record nothing { kind = some k; version = some 1; id = id } in
    let more =
      λ (r : Result TagError Parsed). r >>= λ s. steps ((n_prefix ++ encode_name name) ∷ rest) s in
    (
      ap more (step-pid parent (after dir_kind) h refl),
      ap more (step-pid parent (after file_kind) h refl),
    )

digits-up_to :
    (d t : Text)
    → all_digits d ≡ true
    → (up_to 95 (d ++ 95 ∷ t) ≡ d) × (after_first 95 (d ++ 95 ∷ t) ≡ some t)
digits-up_to [] t h = (refl, refl)
digits-up_to (c ∷ cs) t h =
    let (a, b) = digits-up_to cs t (tail_digits h) in
    (choose_false _ _ (no_line h) ∙ ap (λ (x : Text). c ∷ x) a, choose_false _ _ (no_line h) ∙ b)
  where
    tail_digits : all_digits (c ∷ cs) ≡ true → all_digits cs ≡ true
    tail_digits w = ground arith

    no_line : all_digits (c ∷ cs) ≡ true → (c == 95) ≡ false
    no_line w = ground arith

pub parse_seg-decimal :
    (idx count : ℕ)
    → 1 ≤ idx
    → idx ≤ count
    → count ≤ max_int64
    → parse_seg (decimal idx ++ 95 ∷ decimal count) ≡ some (idx, count)
unfolding parse_seg
parse_seg-decimal idx count h k m =
    let (a, b) = digits-up_to (decimal idx) (decimal count) (all_digits-decimal idx) in
    ap (λ (x : Text). seg_at x (after_first 95 (decimal idx ++ 95 ∷ decimal count))) a
    ∙ ap (seg_at (decimal idx)) b
    ∙ ap (λ (x : Option ℤ). ordered (count_of x) (count_of (parse_int (decimal count))))
        (parse_int-decimal idx (omega arith))
    ∙ ap (λ (x : Option ℤ). ordered (count_of (some (pos idx))) (count_of x))
        (parse_int-decimal count m)
    ∙ ground arith

step-seg :
    (i c : ℕ) (s : Parsed)
    → 1 ≤ i
    → i ≤ c
    → c ≤ max_int64
    → step (seg_prefix ++ decimal i ++ 95 ∷ decimal c) s ≡ ok (record s { segment = some (i, c) })
unfolding step
step-seg i c s h k m =
    ap (λ (x : Option (ℕ × ℕ)). parsed_or x (λ p. record s { segment = some p }))
      (parse_seg-decimal i c h k m)

step-sz :
    (n : ℕ) (s : Parsed)
    → n ≤ max_int64
    → step (sz_prefix ++ decimal n) s ≡ ok (record s { total_size = some (pos n) })
unfolding step
step-sz n s h =
    ap (λ (x : Option ℤ). parsed_or x (λ v. record s { total_size = some v }))
      (parse_int-decimal n h)

step-ss :
    (n : ℕ) (s : Parsed)
    → n ≤ max_int64
    → step (ss_prefix ++ decimal n) s ≡ ok (record s { segment_size = some (pos n) })
unfolding step
step-ss n s h =
    ap (λ (x : Option ℤ). parsed_or x (λ v. record s { segment_size = some v }))
      (parse_int-decimal n h)

-- The tags of a segment.
pub steps-segment :
    (i c size seg : ℕ) (rest : List Text) (s : Parsed)
    → 1 ≤ i
    → i ≤ c
    → c ≤ max_int64
    → size ≤ max_int64
    → seg ≤ max_int64
    → steps
        ((seg_prefix ++ decimal i ++ 95 ∷ decimal c)
          ∷ (sz_prefix ++ decimal size)
          ∷ (ss_prefix ++ decimal seg)
          ∷ rest)
        s
      ≡ steps rest (record s {
        segment = some (i, c);
        total_size = some (pos size);
        segment_size = some (pos seg);
      })
steps-segment i c size seg rest s h k m n o =
    let first = record s { segment = some (i, c) } in
    let second = record first { total_size = some (pos size) } in
    ap
      (λ (r : Result TagError Parsed).
        r >>= λ t. steps ((sz_prefix ++ decimal size) ∷ (ss_prefix ++ decimal seg) ∷ rest) t)
      (step-seg i c s h k m)
    ∙ ap (λ (r : Result TagError Parsed). r >>= λ t. steps ((ss_prefix ++ decimal seg) ∷ rest) t)
        (step-sz size first n)
    ∙ ap (λ (r : Result TagError Parsed). r >>= λ t. steps rest t) (step-ss seg second o)

pub steps-owner_tags :
    (owner : Text) (rest : List Text) (s : Parsed)
    → s.owner_id ≡ []
    → steps (owner_tags owner ++ rest) s ≡ steps rest (record s { owner_id = owner })
unfolding step
steps-owner_tags [] rest s e = ap (λ (o : Text). steps rest (record s { owner_id = o })) e
steps-owner_tags (c ∷ cs) rest s e = refl

-- A tag that Decode takes for one of its own.
abbrev pub is_own : Text → Bool
is_own tok =
    text_eq tok marker
    || ((text_eq tok dir_word || text_eq tok file_word)
        || (is_version tok
            || (has_prefix id_prefix tok
                || (has_prefix pid_prefix tok
                    || (has_prefix n_prefix tok
                        || (has_prefix own_prefix tok
                            || (has_prefix seg_prefix tok
                                || (has_prefix sz_prefix tok || has_prefix ss_prefix tok))))))))

step-human :
    (tok : Text) (s : Parsed)
    → is_own tok ≡ false
    → step tok s ≡ ok (record s { human_tags = s.human_tags ++ tok ∷ [] })
unfolding step
step-human tok s a =
    let b = or_right (text_eq tok marker) _ a in
    let c = or_right (text_eq tok dir_word || text_eq tok file_word) _ b in
    let d = or_right (is_version tok) _ c in
    let e = or_right (has_prefix id_prefix tok) _ d in
    let f = or_right (has_prefix pid_prefix tok) _ e in
    let g = or_right (has_prefix n_prefix tok) _ f in
    let h = or_right (has_prefix own_prefix tok) _ g in
    let i = or_right (has_prefix seg_prefix tok) _ h in
    choose_false _ _ (or_left (text_eq tok marker) _ a)
    ∙ choose_false _ _ (or_left (text_eq tok dir_word || text_eq tok file_word) _ b)
    ∙ choose_false _ _ (or_left (is_version tok) _ c)
    ∙ choose_false _ _ (or_left (has_prefix id_prefix tok) _ d)
    ∙ choose_false _ _ (or_left (has_prefix pid_prefix tok) _ e)
    ∙ choose_false _ _ (or_left (has_prefix n_prefix tok) _ f)
    ∙ choose_false _ _ (or_left (has_prefix own_prefix tok) _ g)
    ∙ choose_false _ _ (or_left (has_prefix seg_prefix tok) _ h)
    ∙ choose_false _ _ (or_left (has_prefix sz_prefix tok) _ i)
    ∙ choose_false _ _ (or_right (has_prefix sz_prefix tok) _ i)

-- Tags of folders that Decode does not take for its own are all kept, in their order.
pub steps-human :
    (tags : List Text) (s : Parsed)
    → All (λ t. is_own t ≡ false) tags
    → steps tags s ≡ ok (record s { human_tags = s.human_tags ++ tags })
steps-human [] s h =
    ap (λ (l : List Text). ok (record s { human_tags = l })) (sym (append-nil (s.human_tags)))
steps-human (t ∷ ts) s h =
    ap (λ (r : Result TagError Parsed). r >>= λ x. steps ts x) (step-human t s (h.0))
    ∙ steps-human ts (record s { human_tags = s.human_tags ++ t ∷ [] }) (h.1)
    ∙ ap (λ (l : List Text). ok (record s { human_tags = l }))
        (append_assoc (s.human_tags) (t ∷ []) ts)
