-- ===== src/Rebuild/Files/Whole.antt =====
-- A file that buildFiles (internal/indexer/indexer.go) calls complete has all its segments.
use mathlib.Core.List.{Memᴰ}
use tdrive.Base.{
  ℕ, zero, suc, ◌≤◌, ◌<◌, ◌≡◌, refl, sym, subst, inl, inr, true, false, List, [], ◌∷◌, arith, ◌==◌,
  ==_iff, if◌then◌else◌, length, Bool-cases, All, Result, ok, err,
}
use tdrive.Index.Messages.{complete}
use tdrive.Names.Path.{text_eq}
use tdrive.Tags.Caption.{TagError}
use tdrive.Tags.Record.{Kind, dir_kind, file_kind, Record}
use tdrive.Tags.Decode.{decode_caption}
use tdrive.Rebuild.Scan.{
  Message, SegmentRecord, FileRecord, Scanned, has_index, segment_from, put_segment, absorb_file,
  absorb_kind, absorb_decoded, absorb, nothing_found, scan_from, scan,
}
use tdrive.Rebuild.Files.{status_of}

-- No index stands twice.
abbrev pub Once : List (ℕ × SegmentRecord) → Type 0
Once [] = Unit
Once (s ∷ ss) = (has_index (s.0) ss ≡ false) × Once ss

-- How many of the numbers from 1 to `n` are indexes.
abbrev hits : ℕ → List (ℕ × SegmentRecord) → ℕ
hits zero ss = 0
hits (suc n) ss = let rest = hits n ss in if has_index (suc n) ss then suc rest else rest

hits-bound : (n : ℕ) (ss : List (ℕ × SegmentRecord)) → hits n ss ≤ n
hits-bound zero ss = ground arith
hits-bound (suc n) ss = elim (Bool-cases (has_index (suc n) ss)) [
  | inl t ↦ ground (arith, t, hits-bound n ss)
  | inr t ↦ ground (arith, t, hits-bound n ss)
]

hits-full :
    (n i : ℕ) (ss : List (ℕ × SegmentRecord))
    → n ≤ hits n ss
    → 1 ≤ i
    → i ≤ n
    → has_index i ss ≡ true
hits-full zero i ss f l h = absurd (omega arith)
hits-full (suc n) i ss f l h = elim (Bool-cases (has_index (suc n) ss)) [
  | inl t ↦ elim (Bool-cases (i == suc n)) [
    | inl e ↦ subst (λ (k : ℕ). has_index k ss ≡ true) (sym ((==_iff i (suc n)).0 e)) t
    | inr e ↦ hits-full n i ss (ground (arith, t, f)) l (ground (arith, e, h))
  ]
  | inr t ↦
      let fewer : hits (suc n) ss ≤ n = ground (arith, t, hits-bound n ss) in absurd (omega arith)
]

hits-more :
    (n : ℕ) (s : ℕ × SegmentRecord) (ss : List (ℕ × SegmentRecord)) → hits n ss ≤ hits n (s ∷ ss)
hits-more zero s ss = ground arith
hits-more (suc n) s ss = elim (Bool-cases (has_index (suc n) ss)) [
  | inl t ↦
      let u : has_index (suc n) (s ∷ ss) ≡ true = ground (arith, t) in
      ground (arith, t, u, hits-more n s ss)
  | inr t ↦ elim (Bool-cases (has_index (suc n) (s ∷ ss))) [
    | inl u ↦ ground (arith, t, u, hits-more n s ss)
    | inr u ↦ ground (arith, t, u, hits-more n s ss)
  ]
]

hits-new :
    (n : ℕ) (s : ℕ × SegmentRecord) (ss : List (ℕ × SegmentRecord))
    → has_index (s.0) ss ≡ false
    → 1 ≤ s.0
    → s.0 ≤ n
    → hits n ss < hits n (s ∷ ss)
hits-new zero s ss a l h = absurd (omega arith)
hits-new (suc n) s ss a l h = elim (Bool-cases (s.0 == suc n)) [
  | inl e ↦
      let same : s.0 ≡ suc n = (==_iff (s.0) (suc n)).0 e in
      let absent : has_index (suc n) ss ≡ false =
        subst (λ (k : ℕ). has_index k ss ≡ false) same a in
      ground (arith, e, absent, hits-more n s ss)
  | inr e ↦
      let ih : hits n ss < hits n (s ∷ ss) = hits-new n s ss a l (ground (arith, e, h)) in
      elim (Bool-cases (has_index (suc n) ss)) [
        | inl t ↦ ground (arith, e, t, ih)
        | inr t ↦ ground (arith, e, t, ih)
      ]
]

-- The indexes are numbers from 1 to the count.
abbrev pub Within : ℕ → List (ℕ × SegmentRecord) → Type 0
Within n ss = All (λ s. (1 ≤ s.0) × (s.0 ≤ n)) ss

length-hits :
    (n : ℕ) (ss : List (ℕ × SegmentRecord)) → Once ss → Within n ss → length ss ≤ hits n ss
length-hits n [] o w = ground arith
length-hits n (s ∷ ss) (a, o) ((l, h), w) =
    ground (arith, length-hits n ss o w, hits-new n s ss a l h)

-- Each file has each of its segments once.
abbrev AllOnce : List FileRecord → Type 0
AllOnce files = All (λ f. Once (f.segments)) files

put_segment-Once :
    (i : ℕ) (s : SegmentRecord) (ss : List (ℕ × SegmentRecord))
    → Once ss
    → Once (put_segment i s ss)
put_segment-Once i s ss o = elim (Bool-cases (has_index i ss)) [
  | inl t ↦ rw t o
  | inr t ↦ rw t (t, o)
]

absorb_file-AllOnce :
    (rec : Record) (m : Message) (fs : List FileRecord)
    → AllOnce fs
    → AllOnce (absorb_file rec m fs)
unfolding absorb_file
absorb_file-AllOnce rec m [] o = ((refl, tt), tt)
absorb_file-AllOnce rec m (f ∷ fs) (o, os) = elim (Bool-cases (text_eq (f.rec.id) (rec.id))) [
  | inl t ↦ rw t (put_segment-Once (rec.seg_index) (segment_from m) (f.segments) o, os)
  | inr t ↦ rw t (o, absorb_file-AllOnce rec m fs os)
]

absorb-AllOnce :
    (r : Result TagError Record) (m : Message) (out : Scanned)
    → AllOnce (out.files)
    → AllOnce ((absorb_decoded r m out).files)
absorb-AllOnce (err e) m out o = o
absorb-AllOnce (ok rec) m out o = of_kind (rec.kind)
  where
    of_kind : (k : Kind) → AllOnce ((absorb_kind k rec m out).files)
    of_kind dir_kind = o
    of_kind file_kind = absorb_file-AllOnce rec m (out.files) o

scan_from-AllOnce :
    (out : Scanned) (history : List Message)
    → AllOnce (out.files)
    → AllOnce ((scan_from out history).files)
unfolding scan_from absorb
scan_from-AllOnce out [] o = o
scan_from-AllOnce out (m ∷ ms) o =
    scan_from-AllOnce (absorb out m) ms (absorb-AllOnce (decode_caption (m.caption)) m out o)

of_member : (f : FileRecord) (fs : List FileRecord) → Memᴰ f fs → AllOnce fs → Once (f.segments)
of_member f [] m o = elim m [ ]
of_member f (g ∷ gs) m (o, os) = elim m [
  | Memᴰ.head e ↦ subst (λ (x : FileRecord). Once (x.segments)) (sym e) o
  | Memᴰ.tail k ↦ of_member f gs k os
]

complete_length : (f : FileRecord) → status_of f ≡ complete → length (f.segments) ≡ f.rec.seg_count
unfolding status_of
complete_length f c = ground arith

-- A file that a scan finds, whose segments have indexes from 1 to its count, and that is complete, has
-- a segment for each number from 1 to the count: none is missing.
pub scan-complete :
    (history : List Message) (f : FileRecord)
    → Memᴰ f ((scan history).files)
    → Within (f.rec.seg_count) (f.segments)
    → status_of f ≡ complete
    → (i : ℕ) → 1 ≤ i
    → i ≤ f.rec.seg_count
    → has_index i (f.segments) ≡ true
unfolding scan
scan-complete history f m w c i l h =
    let once : Once (f.segments) =
      of_member f ((scan_from nothing_found history).files) m
        (scan_from-AllOnce nothing_found history tt) in
    let enough = length-hits (f.rec.seg_count) (f.segments) once w in
    let all = complete_length f c in hits-full (f.rec.seg_count) i (f.segments) (omega arith) l h
