-- ===== src/Rebuild/Resolve/Parents.antt =====
-- `place` of buildTree (internal/indexer/indexer.go) puts each record below its own parent, and leaves
-- none whose parent has a row.
use mathlib.Core.List.{Memᴰ}
use tdrive.Rebuild.Ids.{Ulid}
use tdrive.Base.{
  ℕ, zero, suc, ◌≡◌, refl, sym, ◌∙◌, subst, inl, inr, ◌⊎◌, Bool, true, false, Option, none, some,
  List, [], ◌∷◌, arith, Bool-cases, choose_true, choose_false,
}
use tdrive.Names.Path.{Text, root}
use tdrive.Rebuild.Resolve.{
  DirRecord, Row, row_of, is_resolved, row_below, below_row, settle, place_one, place_pass, place,
}
use tdrive.Rebuild.Resolve.Growth.{Grows, Grows.same, Grows.grown, Grows-trans}

-- The path that the rows give to a parent.
abbrev pub Base : List Row → Option Ulid → Text → Type 0
Base rows none path = path ≡ root
Base rows (some p) path = (q : Row) × (row_of p rows ≡ some q) × (q.path ≡ path)

-- The row is that of a record of the channel, below the record's own parent.
abbrev pub Own : List DirRecord → Row → List Row → Type 0
Own dirs r rows =
    (d : DirRecord) × Memᴰ d dirs
    × (base : Text) × Base rows (d.parent_id) base
    × (r ≡ row_below d (d.parent_id) base)

-- What one record does to the rows.
data Settled (d : DirRecord) (rows : List Row) : List Row × Bool → Type 0 where
  waits :
      ((is_resolved (d.id) rows ≡ true)
        ⊎ ((p : Ulid) × (d.parent_id ≡ some p) × (row_of p rows ≡ none)))
      → Settled d rows (rows, false)
  gets :
      (base : Text)
      → Base rows (d.parent_id) base
      → is_resolved (d.id) rows ≡ false
      → Settled d rows (row_below d (d.parent_id) base ∷ rows, true)

below_row-Settled :
    (d : DirRecord) (p : Ulid) (o : Option Row) (rows : List Row)
    → is_resolved (d.id) rows ≡ false
    → d.parent_id ≡ some p
    → row_of p rows ≡ o
    → Settled d rows (below_row d o rows)
below_row-Settled d p none rows u e f = waits (inr (p, e, f))
below_row-Settled d p (some q) rows u e f =
    let base : Base rows (d.parent_id) (q.path) =
      subst (λ (o : Option Ulid). Base rows o (q.path)) (sym e) (q, f, refl) in
    gets (q.path) base u

settle-Settled :
    (d : DirRecord) (o : Option Ulid) (rows : List Row)
    → is_resolved (d.id) rows ≡ false
    → d.parent_id ≡ o
    → Settled d rows (settle d o rows)
settle-Settled d none rows u e =
    gets root (subst (λ (o : Option Ulid). Base rows o root) (sym e) refl) u
settle-Settled d (some p) rows u e = below_row-Settled d p (row_of p rows) rows u e refl

place_one-Settled : (d : DirRecord) (rows : List Row) → Settled d rows (place_one d rows)
unfolding place_one
place_one-Settled d rows = elim (Bool-cases (is_resolved (d.id) rows)) [
  | inl t ↦ rw t (waits (inl t))
  | inr t ↦ rw t (settle-Settled d (d.parent_id) rows t refl)
]

Settled-Grows :
    (dirs : List DirRecord) (d : DirRecord) (rows : List Row) (s : List Row × Bool)
    → Memᴰ d dirs
    → Settled d rows s
    → Grows (Own dirs) rows (s.0)
Settled-Grows dirs d rows _ m (waits w) = same
Settled-Grows dirs d rows _ m (gets base b u) =
    grown (row_below d (d.parent_id) base) rows same u (d, m, base, b, refl)

-- The record has a row, or its parent has none.
abbrev pub Quiet : DirRecord → List Row → Type 0
Quiet d rows =
    (is_resolved (d.id) rows ≡ true)
    ⊎ ((p : Ulid) × (d.parent_id ≡ some p) × (row_of p rows ≡ none))

Settled-Quiet :
    (d : DirRecord) (rows : List Row) (s : List Row × Bool)
    → Settled d rows s
    → s.1 ≡ false
    → (s.0 ≡ rows) × Quiet d rows
Settled-Quiet d rows _ (waits w) e = (refl, w)
Settled-Quiet d rows _ (gets base b u) e = ground arith

place_pass-Grows :
    (dirs ds : List DirRecord) (rows : List Row)
    → ((d : DirRecord) → Memᴰ d ds → Memᴰ d dirs)
    → Grows (Own dirs) rows ((place_pass ds rows).0)
unfolding place_pass
place_pass-Grows dirs [] rows within = same
place_pass-Grows dirs (d ∷ ds) rows within =
    let next = (place_one d rows).0 in
    Grows-trans rows next ((place_pass ds next).0)
      (Settled-Grows dirs d rows (place_one d rows) (within d (Memᴰ.head refl))
        (place_one-Settled d rows))
      (place_pass-Grows dirs ds next (λ e m. within e (Memᴰ.tail m)))

place_pass-Quiet :
    (ds : List DirRecord) (rows : List Row)
    → (place_pass ds rows).1 ≡ false
    → ((place_pass ds rows).0 ≡ rows) × ((d : DirRecord) → Memᴰ d ds → Quiet d rows)
unfolding place_pass
place_pass-Quiet [] rows e = (refl, λ d m. elim m [ ])
place_pass-Quiet (d ∷ ds) rows e =
    let next = (place_one d rows).0 in
    let first : (place_one d rows).1 ≡ false = ground (arith, e) in
    let rest : (place_pass ds next).1 ≡ false = ground (arith, first, e) in
    let (kept, quiet) = Settled-Quiet d rows (place_one d rows) (place_one-Settled d rows) first in
    let (later, quiets) = place_pass-Quiet ds next rest in
    (
      later ∙ kept,
      λ c m. elim m [
        | Memᴰ.head f ↦ subst (λ (x : DirRecord). Quiet x rows) (sym f) quiet
        | Memᴰ.tail k ↦ subst (λ (t : List Row). Quiet c t) kept (quiets c k)
      ],
    )

pub place-Grows :
    (passes : ℕ) (dirs : List DirRecord) (rows after : List Row)
    → place passes dirs rows ≡ some after
    → Grows (Own dirs) rows after × ((d : DirRecord) → Memᴰ d dirs → Quiet d after)
unfolding place
place-Grows zero dirs rows after e = ground arith
place-Grows (suc passes) dirs rows after e =
    let next = (place_pass dirs rows).0 in
    let step : Grows (Own dirs) rows next = place_pass-Grows dirs dirs rows (λ d m. m) in
    elim (Bool-cases ((place_pass dirs rows).1)) [
      | inl t ↦
          let go = sym (choose_true (place passes dirs next) (some next) t) ∙ e in
          let (grows, quiet) = place-Grows passes dirs next after go in
          (Grows-trans rows next after step grows, quiet)
      | inr t ↦
          let stop : some next ≡ some after =
            sym (choose_false (place passes dirs next) (some next) t) ∙ e in
          let (kept, quiet) = place_pass-Quiet dirs rows t in
          let last : next ≡ after = ground arith in
          (
            subst (λ (x : List Row). Grows (Own dirs) rows x) last step,
            λ d m. subst (λ (x : List Row). Quiet d x) (sym kept ∙ last) (quiet d m),
          )
    ]
