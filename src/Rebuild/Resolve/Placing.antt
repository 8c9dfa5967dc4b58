-- ===== src/Rebuild/Resolve/Placing.antt =====
-- `place` of buildTree (internal/indexer/indexer.go) settles, and ends in as many passes as records
-- wait, and one.
use tdrive.Names.Path.Equal.{text_eq_iff}
use tdrive.Rebuild.Ids.{Ulid}
use tdrive.Base.{
  ℕ, zero, suc, ◌<◌, ◌≡◌, refl, ◌∙◌, inl, inr, Bool, true, false, Option, none, some, List, [], ◌∷◌,
  arith, Bool-cases, choose_true, choose_false,
}
use tdrive.Names.Path.{Text, root}
use tdrive.Rebuild.Resolve.{
  DirRecord, Row, row_of, is_resolved, row_below, below_row, settle, place_one, place_pass, place,
}
use tdrive.Rebuild.Resolve.Resolution.{
  Keeps, Gains, waiting, waiting-Gains, not_resolved, resolved_head, Keeps-cons,
}

-- One record keeps the rows as they are, or gets a row of its own.
pub data Settled (d : DirRecord) (rows : List Row) : List Row × Bool → Type 0 where
  waits : Settled d rows (rows, false)
  gets :
      (parent : Option Ulid) (path : Text)
      → is_resolved (d.id) rows ≡ false
      → Settled d rows (row_below d parent path ∷ rows, true)

below_row-Settled :
    (d : DirRecord) (o : Option Row) (rows : List Row)
    → is_resolved (d.id) rows ≡ false
    → Settled d rows (below_row d o rows)
below_row-Settled d none rows u = waits
below_row-Settled d (some q) rows u = gets (d.parent_id) (q.path) u

settle-Settled :
    (d : DirRecord) (o : Option Ulid) (rows : List Row)
    → is_resolved (d.id) rows ≡ false
    → Settled d rows (settle d o rows)
settle-Settled d none rows u = gets (d.parent_id) root u
settle-Settled d (some p) rows u = below_row-Settled d (row_of p rows) rows u

pub place_one-Settled : (d : DirRecord) (rows : List Row) → Settled d rows (place_one d rows)
unfolding place_one
place_one-Settled d rows = elim (Bool-cases (is_resolved (d.id) rows)) [
  | inl t ↦ rw t waits
  | inr t ↦ rw t (settle-Settled d (d.parent_id) rows t)
]

Settled-Keeps :
    (d : DirRecord) (rows : List Row) (s : List Row × Bool) → Settled d rows s → Keeps rows (s.0)
Settled-Keeps d rows _ waits = λ id t. t
Settled-Keeps d rows _ (gets parent path u) = Keeps-cons (row_below d parent path) rows

Settled-gains :
    (d : DirRecord) (rows : List Row) (s : List Row × Bool)
    → Settled d rows s
    → s.1 ≡ true
    → (is_resolved (d.id) rows ≡ false) × (is_resolved (d.id) (s.0) ≡ true)
Settled-gains d rows _ waits e = ground arith
Settled-gains d rows _ (gets parent path u) e = (u, resolved_head (row_below d parent path) rows)

pub place_pass-Keeps :
    (dirs : List DirRecord) (rows : List Row) → Keeps rows ((place_pass dirs rows).0)
unfolding place_pass
place_pass-Keeps [] rows id t = t
place_pass-Keeps (d ∷ ds) rows id t =
    place_pass-Keeps ds ((place_one d rows).0) id
      (Settled-Keeps d rows (place_one d rows) (place_one-Settled d rows) id t)

place_pass-Gains :
    (dirs : List DirRecord) (rows : List Row)
    → (place_pass dirs rows).1 ≡ true
    → Gains dirs rows ((place_pass dirs rows).0)
unfolding place_pass
place_pass-Gains [] rows e = ground arith
place_pass-Gains (d ∷ ds) rows e =
    let one : Settled d rows (place_one d rows) = place_one-Settled d rows in
    elim (Bool-cases ((place_one d rows).1)) [
      | inl t ↦
          let both = Settled-gains d rows (place_one d rows) one t in
          (
            d.id,
            ground (arith, (text_eq_iff (d.id) (d.id)).1 refl),
            both.0,
            place_pass-Keeps ds ((place_one d rows).0) (d.id) (both.1),
          )
      | inr t ↦
          let later : (place_pass ds ((place_one d rows).0)).1 ≡ true = ground (arith, t, e) in
          let (id, f, u, r) = place_pass-Gains ds ((place_one d rows).0) later in
          let first = Settled-Keeps d rows (place_one d rows) one in
          (id, ground (arith, f), not_resolved rows ((place_one d rows).0) id first u, r)
    ]

pub place-total :
    (passes : ℕ) (dirs : List DirRecord) (rows : List Row)
    → waiting dirs rows < passes
    → (after : List Row) × (place passes dirs rows ≡ some after) × Keeps rows after
unfolding place
place-total zero dirs rows l = ground arith
place-total (suc passes) dirs rows l =
    let next : List Row = (place_pass dirs rows).0 in
    let kept : Keeps rows next = place_pass-Keeps dirs rows in
    elim (Bool-cases ((place_pass dirs rows).1)) [
      | inl t ↦
          let less : waiting dirs next < waiting dirs rows =
            waiting-Gains dirs rows next kept (place_pass-Gains dirs rows t) in
          let (after, e, k) = place-total passes dirs next (ground (arith, l, less)) in
          (after, choose_true (place passes dirs next) (some next) t ∙ e, λ id u. k id (kept id u))
      | inr t ↦ (next, choose_false (place passes dirs next) (some next) t, kept)
    ]
