-- ===== src/Rebuild/Scan/Said.antt =====
-- What a message says of a directory or of a segment, and that one step of absorb
-- (internal/indexer/indexer.go) takes it where nothing newer was there.
use tdrive.Base.{
  ℕ, ◌≡◌, refl, sym, ◌∙◌, subst, inl, inr, Bool, true, false, ◌&&◌, Option, none, some, List, [],
  ◌∷◌, arith, ◌==◌, ==_iff, if◌then◌else◌, Bool-cases, Result, ok, err,
}
use tdrive.Names.Path.{text_eq}
use tdrive.Tags.Caption.{TagError}
use tdrive.Tags.Record.{dir_kind, file_kind, Record}
use tdrive.Tags.Decode.{decode_caption}
use tdrive.Names.Path.Equal.{text_eq_iff}
use tdrive.Rebuild.Ids.{Ulid}
use tdrive.Rebuild.Resolve.{DirRecord, is_found}
use tdrive.Rebuild.Scan.{
  Message, SegmentRecord, FileRecord, dir_from, segment_from, has_index, put_segment, absorb_file,
  absorb_dir,
}

abbrev pub or_else {ℓ} : {A : Type ℓ} → Option A → Option A → Option A
or_else none o = o
or_else (some a) o = some a

pub or_else_assoc {ℓ} :
    {A : Type ℓ} (a b c : Option A) → or_else (or_else a b) c ≡ or_else a (or_else b c)
or_else_assoc none b c = refl
or_else_assoc (some a) b c = refl

pub or_else-none {ℓ} : {A : Type ℓ} (a : Option A) → or_else a none ≡ a
or_else-none none = refl
or_else-none (some a) = refl

abbrev pub dir_with : Ulid → List DirRecord → Option DirRecord
dir_with id [] = none
dir_with id (d ∷ ds) = if text_eq (d.id) id then some d else dir_with id ds

-- What one message says of a directory.
abbrev pub dir_said : Ulid → Message → Result TagError Record → Option DirRecord
dir_said id m (err e) = none
dir_said id m (ok rec) = elim (rec.kind) [
  | dir_kind ↦ if text_eq (rec.id) id then some (dir_from rec m) else none
  | file_kind ↦ none
]

-- The newest message about a directory.
unfoldable pub newest_dir : Ulid → List Message → Option DirRecord
newest_dir id [] = none
newest_dir id (m ∷ ms) = or_else (dir_said id m (decode_caption (m.caption))) (newest_dir id ms)

dir_with-absent : (id : Ulid) (ds : List DirRecord) → is_found id ds ≡ false → dir_with id ds ≡ none
dir_with-absent id [] a = refl
dir_with-absent id (d ∷ ds) a = elim (Bool-cases (text_eq (d.id) id)) [
  | inl e ↦ ground (arith, e, a)
  | inr e ↦ ground (arith, e, a, dir_with-absent id ds)
]

dir_with-found :
    (id : Ulid) (ds : List DirRecord) (o : Option DirRecord)
    → is_found id ds ≡ true
    → or_else (dir_with id ds) o ≡ dir_with id ds
dir_with-found id [] o f = ground arith
dir_with-found id (d ∷ ds) o f = elim (Bool-cases (text_eq (d.id) id)) [
  | inl e ↦ rw e refl
  | inr e ↦ rw e (dir_with-found id ds o (ground (arith, e, f)))
]

pub absorb_dir-said :
    (id : Ulid) (rec : Record) (m : Message) (ds : List DirRecord)
    → dir_with id (absorb_dir rec m ds)
      ≡ or_else (dir_with id ds) (if text_eq (rec.id) id then some (dir_from rec m) else none)
absorb_dir-said id rec m ds = elim (Bool-cases (text_eq (rec.id) id)) [
  | inl e ↦
      let same : rec.id ≡ id = (text_eq_iff (rec.id) id).0 e in
      elim (Bool-cases (is_found (rec.id) ds)) [
        | inl f ↦
            let found : is_found id ds ≡ true = subst (λ (x : Ulid). is_found x ds ≡ true) same f in
            rw (e, f) (sym (dir_with-found id ds (some (dir_from rec m)) found))
        | inr f ↦
            let absent : is_found id ds ≡ false =
              subst (λ (x : Ulid). is_found x ds ≡ false) same f in
            rw (e, f, dir_with-absent id ds absent) (ground (arith, e))
      ]
  | inr e ↦ elim (Bool-cases (is_found (rec.id) ds)) [
    | inl f ↦ rw (e, f) (sym (or_else-none (dir_with id ds)))
    | inr f ↦ rw (e, f) (rw e (sym (or_else-none (dir_with id ds))))
  ]
]

abbrev pub segment_at : ℕ → List (ℕ × SegmentRecord) → Option SegmentRecord
segment_at i [] = none
segment_at i (s ∷ ss) = if s.0 == i then some (s.1) else segment_at i ss

abbrev pub segment_with : Ulid → ℕ → List FileRecord → Option SegmentRecord
segment_with id i [] = none
segment_with id i (f ∷ fs) =
    if text_eq (f.rec.id) id then segment_at i (f.segments) else segment_with id i fs

abbrev kept_when : Bool → Message → Option SegmentRecord
kept_when b m = if b then some (segment_from m) else none

-- What one message says of a segment of a file.
abbrev pub segment_said : Ulid → ℕ → Message → Result TagError Record → Option SegmentRecord
segment_said id i m (err e) = none
segment_said id i m (ok rec) = elim (rec.kind) [
  | dir_kind ↦ none
  | file_kind ↦ if text_eq (rec.id) id && rec.seg_index == i then some (segment_from m) else none
]

-- The newest message about a segment.
unfoldable pub newest_segment : Ulid → ℕ → List Message → Option SegmentRecord
newest_segment id i [] = none
newest_segment id i (m ∷ ms) =
    or_else (segment_said id i m (decode_caption (m.caption))) (newest_segment id i ms)

segment_at-absent :
    (i : ℕ) (ss : List (ℕ × SegmentRecord)) → has_index i ss ≡ false → segment_at i ss ≡ none
segment_at-absent i [] a = refl
segment_at-absent i (s ∷ ss) a = elim (Bool-cases (s.0 == i)) [
  | inl e ↦ ground (arith, e, a)
  | inr e ↦ ground (arith, e, a, segment_at-absent i ss)
]

segment_at-found :
    (i : ℕ) (ss : List (ℕ × SegmentRecord)) (o : Option SegmentRecord)
    → has_index i ss ≡ true
    → or_else (segment_at i ss) o ≡ segment_at i ss
segment_at-found i [] o f = ground arith
segment_at-found i (s ∷ ss) o f = elim (Bool-cases (s.0 == i)) [
  | inl e ↦ rw e refl
  | inr e ↦ rw e (segment_at-found i ss o (ground (arith, e, f)))
]

put_segment-said :
    (i k : ℕ) (m : Message) (ss : List (ℕ × SegmentRecord))
    → segment_at i (put_segment k (segment_from m) ss)
      ≡ or_else (segment_at i ss) (kept_when (k == i) m)
put_segment-said i k m ss = elim (Bool-cases (k == i)) [
  | inl e ↦
      let same : k ≡ i = (==_iff k i).0 e in
      elim (Bool-cases (has_index k ss)) [
        | inl f ↦
            let found : has_index i ss ≡ true = subst (λ (x : ℕ). has_index x ss ≡ true) same f in
            rw (e, f) (sym (segment_at-found i ss (some (segment_from m)) found))
        | inr f ↦
            let absent : has_index i ss ≡ false =
              subst (λ (x : ℕ). has_index x ss ≡ false) same f in
            rw (e, f, segment_at-absent i ss absent) (ground (arith, e))
      ]
  | inr e ↦ elim (Bool-cases (has_index k ss)) [
    | inl f ↦ rw (e, f) (sym (or_else-none (segment_at i ss)))
    | inr f ↦ rw (e, f) (rw e (sym (or_else-none (segment_at i ss))))
  ]
]

pub absorb_file-said :
    (id : Ulid) (i : ℕ) (rec : Record) (m : Message) (fs : List FileRecord)
    → segment_with id i (absorb_file rec m fs)
      ≡ or_else (segment_with id i fs) (kept_when (text_eq (rec.id) id && rec.seg_index == i) m)
unfolding absorb_file
absorb_file-said id i rec m [] = elim (Bool-cases (text_eq (rec.id) id)) [
  | inl e ↦ rw e refl
  | inr e ↦ rw e refl
]
absorb_file-said id i rec m (f ∷ fs) = elim (Bool-cases (text_eq (f.rec.id) (rec.id))) [
  | inl e ↦
      let same : f.rec.id ≡ rec.id = (text_eq_iff (f.rec.id) (rec.id)).0 e in
      elim (Bool-cases (text_eq (rec.id) id)) [
        | inl g ↦
            let h : text_eq (f.rec.id) id ≡ true =
              subst (λ (x : Ulid). text_eq x id ≡ true) (sym same) g in
            rw (e, g, h) (put_segment-said i (rec.seg_index) m (f.segments))
        | inr g ↦
            let h : text_eq (f.rec.id) id ≡ false =
              subst (λ (x : Ulid). text_eq x id ≡ false) (sym same) g in
            rw (e, g, h) (sym (or_else-none (segment_with id i fs)))
      ]
  | inr e ↦ elim (Bool-cases (text_eq (f.rec.id) id)) [
    | inl h ↦
        let g : text_eq (rec.id) id ≡ false = elim (Bool-cases (text_eq (rec.id) id)) [
          | inl t ↦
              let meet : f.rec.id ≡ rec.id =
                (text_eq_iff (f.rec.id) id).0 h ∙ sym ((text_eq_iff (rec.id) id).0 t) in
              ground (arith, e, (text_eq_iff (f.rec.id) (rec.id)).1 meet)
          | inr t ↦ t
        ] in
        rw (e, g, h) (sym (or_else-none (segment_at i (f.segments))))
    | inr h ↦ rw (e, h) (absorb_file-said id i rec m fs)
  ]
]
