-- ===== src/Rebuild/Resolve/Resolution.antt =====
-- Progress of the loops of buildTree (internal/indexer/indexer.go), by the records without a path.
use tdrive.Names.Path.Equal.{text_eq_iff}
use tdrive.Rebuild.Ids.{Ulid}
use tdrive.Names.Path.{Text, text_eq}
use tdrive.Base.{
  ℕ, suc, ◌≤◌, ◌<◌, ◌≡◌, refl, sym, ap, ◌∙◌, subst, choose_true, choose_false, inl, inr, true,
  false, List, [], ◌∷◌, arith, Bool-cases, if◌then◌else◌, length,
}
use tdrive.Rebuild.Resolve.{DirRecord, Row, is_resolved, is_found, without_row, put_row}

-- A record counts while it has no row.
abbrev pub waiting : List DirRecord → List Row → ℕ
waiting [] rows = 0
waiting (d ∷ ds) rows =
    let rest = waiting ds rows in if is_resolved (d.id) rows then rest else suc rest

-- No id loses its row.
abbrev pub Keeps : List Row → List Row → Type 0
Keeps rows after = (id : Ulid) → is_resolved id rows ≡ true → is_resolved id after ≡ true

-- One of the records gets its row.
abbrev pub Gains : List DirRecord → List Row → List Row → Type 0
Gains dirs rows after =
    (id : Ulid) × (is_found id dirs ≡ true)
    × (is_resolved id rows ≡ false)
    × (is_resolved id after ≡ true)

pub waiting-length : (dirs : List DirRecord) (rows : List Row) → waiting dirs rows ≤ length dirs
waiting-length [] rows = ground arith
waiting-length (d ∷ ds) rows = elim (Bool-cases (is_resolved (d.id) rows)) [
  | inl t ↦ ground (arith, t, waiting-length ds rows)
  | inr t ↦ ground (arith, t, waiting-length ds rows)
]

pub waiting-Keeps :
    (dirs : List DirRecord) (rows after : List Row)
    → Keeps rows after
    → waiting dirs after ≤ waiting dirs rows
waiting-Keeps [] rows after k = ground arith
waiting-Keeps (d ∷ ds) rows after k = elim (Bool-cases (is_resolved (d.id) rows)) [
  | inl t ↦ ground (arith, t, k (d.id) t, waiting-Keeps ds rows after k)
  | inr t ↦ elim (Bool-cases (is_resolved (d.id) after)) [
    | inl u ↦ ground (arith, t, u, waiting-Keeps ds rows after k)
    | inr u ↦ ground (arith, t, u, waiting-Keeps ds rows after k)
  ]
]

waiting-at :
    (id : Ulid) (dirs : List DirRecord) (rows after : List Row)
    → Keeps rows after
    → is_found id dirs ≡ true
    → is_resolved id rows ≡ false
    → is_resolved id after ≡ true
    → waiting dirs after < waiting dirs rows
waiting-at id [] rows after k f u r = ground arith
waiting-at id (d ∷ ds) rows after k f u r = elim (Bool-cases (text_eq (d.id) id)) [
  | inl e ↦
      let same : d.id ≡ id = (text_eq_iff (d.id) id).0 e in
      let before : is_resolved (d.id) rows ≡ false = rw same u in
      let now : is_resolved (d.id) after ≡ true = rw same r in
      ground (arith, before, now, waiting-Keeps ds rows after k)
  | inr e ↦
      let found : is_found id ds ≡ true = ground (arith, e, f) in
      let less : waiting ds after < waiting ds rows = waiting-at id ds rows after k found u r in
      elim (Bool-cases (is_resolved (d.id) rows)) [
        | inl t ↦ ground (arith, t, k (d.id) t, less)
        | inr t ↦ elim (Bool-cases (is_resolved (d.id) after)) [
          | inl w ↦ ground (arith, t, w, less)
          | inr w ↦ ground (arith, t, w, less)
        ]
      ]
]

pub waiting-Gains :
    (dirs : List DirRecord) (rows after : List Row)
    → Keeps rows after
    → Gains dirs rows after
    → waiting dirs after < waiting dirs rows
waiting-Gains dirs rows after k (id, f, u, r) = waiting-at id dirs rows after k f u r

pub not_resolved :
    (rows after : List Row) (id : Ulid)
    → Keeps rows after
    → is_resolved id after ≡ false
    → is_resolved id rows ≡ false
not_resolved rows after id k u = elim (Bool-cases (is_resolved id rows)) [
  | inl t ↦ ground (arith, k id t)
  | inr t ↦ t
]

pub resolved_head : (r : Row) (rows : List Row) → is_resolved (r.id) (r ∷ rows) ≡ true
resolved_head r rows =
    let e : (text_eq (r.id) (r.id)) ≡ true = (text_eq_iff (r.id) (r.id)).1 refl in ground (arith, e)

pub Keeps-cons : (r : Row) (rows : List Row) → Keeps rows (r ∷ rows)
Keeps-cons r rows id t = ground (arith, t)

-- A row that takes the place of another of its id loses no id.
without_row-resolved :
    (id gone : Ulid) (rows : List Row)
    → text_eq gone id ≡ false
    → is_resolved id rows ≡ true
    → is_resolved id (without_row gone rows) ≡ true
without_row-resolved id gone [] n t = t
without_row-resolved id gone (r ∷ rs) n t = elim (Bool-cases (text_eq (r.id) gone)) [
  | inl e ↦
      let other : text_eq (r.id) id ≡ false =
        subst (λ (x : Text). text_eq x id ≡ false) (sym ((text_eq_iff (r.id) gone).0 e)) n in
      ap (is_resolved id) (choose_true _ _ e)
      ∙ without_row-resolved id gone rs n (ground (arith, other, t))
  | inr e ↦ ap (is_resolved id) (choose_false _ _ e) ∙ elim (Bool-cases (text_eq (r.id) id)) [
    | inl f ↦ ground (arith, f)
    | inr f ↦ ground (arith, f, without_row-resolved id gone rs n (ground (arith, f, t)))
  ]
]

pub Keeps-put_row : (r : Row) (rows : List Row) → Keeps rows (put_row r rows)
Keeps-put_row r rows id t = elim (Bool-cases (text_eq (r.id) id)) [
  | inl e ↦ ground (arith, e)
  | inr e ↦ ground (arith, e, without_row-resolved id (r.id) rows e t)
]

-- An id without a row takes nobody's place.
without_row-absent :
    (id : Ulid) (rows : List Row) → is_resolved id rows ≡ false → without_row id rows ≡ rows
without_row-absent id [] u = refl
without_row-absent id (r ∷ rs) u = elim (Bool-cases (text_eq (r.id) id)) [
  | inl e ↦ ground (arith, e, u)
  | inr e ↦ choose_false _ _ e ∙ ap (λ xs. r ∷ xs) (without_row-absent id rs (ground (arith, e, u)))
]

pub put_row-new :
    (r : Row) (rows : List Row) → is_resolved (r.id) rows ≡ false → put_row r rows ≡ r ∷ rows
put_row-new r rows u = ap (λ xs. r ∷ xs) (without_row-absent (r.id) rows u)
