-- ===== src/Rebuild/Resolve/Pending.antt =====
-- What a round of recovery takes up (buildTree, internal/indexer/indexer.go): records without a row,
-- and some where there are any.
use tdrive.Names.Path.Equal.{text_eq_iff}
use tdrive.Rebuild.Ids.{Ulid, text_lt}
use tdrive.Names.Path.{text_eq}
use tdrive.Base.{
  ◌≡◌, refl, subst, inl, inr, ◌⊎◌, true, false, Option, none, some, List, [], ◌∷◌, arith,
  Bool-cases,
}
use tdrive.Rebuild.Resolve.{
  DirRecord, Row, is_resolved, is_found, parent_found, tops_of, lower, lowest, or_lowest,
}

-- The records of `ts` are among `ds` and have no row.
abbrev pub Pending : List DirRecord → List DirRecord → List Row → Type 0
Pending ts ds rows =
    (id : Ulid) → is_found id ts ≡ true → (is_found id ds ≡ true) × (is_resolved id rows ≡ false)

-- Each record has a row.
abbrev pub AllResolved : List DirRecord → List Row → Type 0
AllResolved dirs rows = (id : Ulid) → is_found id dirs ≡ true → is_resolved id rows ≡ true

pub found_or :
    (id : Ulid) (d : DirRecord) (ds : List DirRecord)
    → is_found id (d ∷ ds) ≡ true
    → (d.id ≡ id) ⊎ (is_found id ds ≡ true)
found_or id d ds f = elim (Bool-cases (text_eq (d.id) id)) [
  | inl e ↦ inl ((text_eq_iff (d.id) id).0 e)
  | inr e ↦ inr (ground (arith, e, f))
]

pub found_head : (d : DirRecord) (ds : List DirRecord) → is_found (d.id) (d ∷ ds) ≡ true
found_head d ds =
    let e : (text_eq (d.id) (d.id)) ≡ true = (text_eq_iff (d.id) (d.id)).1 refl in ground (arith, e)

pub found_tail :
    (id : Ulid) (d : DirRecord) (ds : List DirRecord)
    → is_found id ds ≡ true
    → is_found id (d ∷ ds) ≡ true
found_tail id d ds f = ground (arith, f)

Pending-cons :
    (d : DirRecord) (ts ds : List DirRecord) (rows : List Row)
    → is_resolved (d.id) rows ≡ false
    → Pending ts ds rows
    → Pending (d ∷ ts) (d ∷ ds) rows
Pending-cons d ts ds rows u h id f = elim (found_or id d ts f) [
  | inl e ↦
      subst (λ (n : Ulid). (is_found n (d ∷ ds) ≡ true) × (is_resolved n rows ≡ false)) e
        (found_head d ds, u)
  | inr g ↦ (found_tail id d ds ((h id g).0), (h id g).1)
]

Pending-tail :
    (d : DirRecord) (ts ds : List DirRecord) (rows : List Row)
    → Pending ts ds rows
    → Pending ts (d ∷ ds) rows
Pending-tail d ts ds rows h id f = (found_tail id d ds ((h id f).0), (h id f).1)

pub tops_of-Pending :
    (dirs ds : List DirRecord) (rows : List Row) → Pending (tops_of dirs ds rows) ds rows
unfolding tops_of
tops_of-Pending dirs [] rows = λ id f. ground arith
tops_of-Pending dirs (d ∷ ds) rows =
    let rest = tops_of-Pending dirs ds rows in
    elim (Bool-cases (is_resolved (d.id) rows)) [
      | inl t ↦ rw t (Pending-tail d (tops_of dirs ds rows) ds rows rest)
      | inr t ↦ elim (Bool-cases (parent_found (d.parent_id) dirs)) [
        | inl p ↦ rw (t, p) (Pending-tail d (tops_of dirs ds rows) ds rows rest)
        | inr p ↦ rw (t, p) (Pending-cons d (tops_of dirs ds rows) ds rows t rest)
      ]
    ]

-- What `lowest` finds: nothing where each record has a row, else one that has none.
abbrev Chosen : Option DirRecord → List DirRecord → List Row → Type 0
Chosen none ds rows = AllResolved ds rows
Chosen (some e) ds rows = Pending (e ∷ []) ds rows

Chosen-resolved :
    (o : Option DirRecord) (d : DirRecord) (ds : List DirRecord) (rows : List Row)
    → is_resolved (d.id) rows ≡ true
    → Chosen o ds rows
    → Chosen o (d ∷ ds) rows
Chosen-resolved none d ds rows t c = λ id f. elim (found_or id d ds f) [
  | inl e ↦ subst (λ (n : Ulid). is_resolved n rows ≡ true) e t
  | inr g ↦ c id g
]
Chosen-resolved (some e) d ds rows t c = Pending-tail d (e ∷ []) ds rows c

Pending-one :
    (d : DirRecord) (ds : List DirRecord) (rows : List Row)
    → is_resolved (d.id) rows ≡ false
    → Pending (d ∷ []) (d ∷ ds) rows
Pending-one d ds rows u id f = elim (found_or id d [] f) [
  | inl e ↦
      subst (λ (n : Ulid). (is_found n (d ∷ ds) ≡ true) × (is_resolved n rows ≡ false)) e
        (found_head d ds, u)
  | inr g ↦ ground arith
]

lower-Pending :
    (o : Option DirRecord) (d : DirRecord) (ds : List DirRecord) (rows : List Row)
    → is_resolved (d.id) rows ≡ false
    → Chosen o ds rows
    → Pending (lower d o ∷ []) (d ∷ ds) rows
lower-Pending none d ds rows u c = Pending-one d ds rows u
lower-Pending (some e) d ds rows u c = elim (Bool-cases (text_lt (e.id) (d.id))) [
  | inl t ↦ rw t (Pending-tail d (e ∷ []) ds rows c)
  | inr t ↦ rw t (Pending-one d ds rows u)
]

lowest-Chosen : (ds : List DirRecord) (rows : List Row) → Chosen (lowest ds rows) ds rows
unfolding lowest
lowest-Chosen [] rows = λ id f. ground arith
lowest-Chosen (d ∷ ds) rows =
    let rest = lowest-Chosen ds rows in
    elim (Bool-cases (is_resolved (d.id) rows)) [
      | inl t ↦ rw t (Chosen-resolved (lowest ds rows) d ds rows t rest)
      | inr t ↦ rw t (lower-Pending (lowest ds rows) d ds rows t rest)
    ]

-- A round has work exactly while a record has no row.
abbrev pub Work : List DirRecord → List DirRecord → List Row → Type 0
Work [] ds rows = AllResolved ds rows
Work (t ∷ ts) ds rows = Pending (t ∷ ts) ds rows

or_lowest-Work :
    (ts : List DirRecord) (o : Option DirRecord) (ds : List DirRecord) (rows : List Row)
    → Pending ts ds rows
    → Chosen o ds rows
    → Work (or_lowest ts o) ds rows
or_lowest-Work [] none ds rows p c = c
or_lowest-Work [] (some e) ds rows p c = c
or_lowest-Work (t ∷ ts) o ds rows p c = p

pub round-Work :
    (dirs : List DirRecord) (rows : List Row)
    → Work (or_lowest (tops_of dirs dirs rows) (lowest dirs rows)) dirs rows
round-Work dirs rows =
    or_lowest-Work (tops_of dirs dirs rows) (lowest dirs rows) dirs rows
      (tops_of-Pending dirs dirs rows) (lowest-Chosen dirs rows)
