-- ===== src/Rebuild/Resolve/OneEach.antt =====
-- The map `resolved` of buildTree (internal/indexer/indexer.go) has one row for an id.
use tdrive.Rebuild.Ids.{Ulid}
use tdrive.Names.Path.{text_eq}
use tdrive.Base.{
  ℕ, zero, suc, ◌≡◌, refl, ap, ◌∙◌, subst, inl, inr, Bool, true, false, Option, some, List, [], ◌∷◌,
  arith, Bool-cases, Option-cases, choose_true, choose_false, length,
}
use tdrive.Rebuild.Resolve.{
  DirRecord, Row, is_resolved, without_row, put_row, row_below, place_one, place_pass, place,
  tops_of, lowest, or_lowest, no_tops, recovered_root, recovery_row, rescue, with_folder, recover,
  build_tree,
}
use tdrive.Rebuild.Resolve.Placing.{Settled, Settled.waits, Settled.gets, place_one-Settled}

abbrev pub OneEach : List Row → Type 0
OneEach [] = Unit
OneEach (r ∷ rs) = (is_resolved (r.id) rs ≡ false) × OneEach rs

without_row-gone : (id : Ulid) (rows : List Row) → is_resolved id (without_row id rows) ≡ false
without_row-gone id [] = refl
without_row-gone id (r ∷ rs) = elim (Bool-cases (text_eq (r.id) id)) [
  | inl e ↦ ap (is_resolved id) (choose_true _ _ e) ∙ without_row-gone id rs
  | inr e ↦ ap (is_resolved id) (choose_false _ _ e) ∙ ground (arith, e, without_row-gone id rs)
]

without_row-absent_still :
    (id gone : Ulid) (rows : List Row)
    → is_resolved id rows ≡ false
    → is_resolved id (without_row gone rows) ≡ false
without_row-absent_still id gone [] u = refl
without_row-absent_still id gone (r ∷ rs) u = elim (Bool-cases (text_eq (r.id) gone)) [
  | inl e ↦
      ap (is_resolved id) (choose_true _ _ e)
      ∙ without_row-absent_still id gone rs (ground (arith, u))
  | inr e ↦
      ap (is_resolved id) (choose_false _ _ e)
      ∙ ground (arith, u, without_row-absent_still id gone rs (ground (arith, u)))
]

OneEach-without_row : (id : Ulid) (rows : List Row) → OneEach rows → OneEach (without_row id rows)
OneEach-without_row id [] h = tt
OneEach-without_row id (r ∷ rs) (u, h) = elim (Bool-cases (text_eq (r.id) id)) [
  | inl e ↦ rw e (OneEach-without_row id rs h)
  | inr e ↦ rw e (without_row-absent_still (r.id) id rs u, OneEach-without_row id rs h)
]

OneEach-put_row : (r : Row) (rows : List Row) → OneEach rows → OneEach (put_row r rows)
OneEach-put_row r rows h = (without_row-gone (r.id) rows, OneEach-without_row (r.id) rows h)

OneEach-Settled :
    (d : DirRecord) (rows : List Row) (s : List Row × Bool)
    → Settled d rows s
    → OneEach rows
    → OneEach (s.0)
OneEach-Settled d rows _ waits h = h
OneEach-Settled d rows _ (gets parent path u) h = (u, h)

place_pass-OneEach :
    (dirs : List DirRecord) (rows : List Row) → OneEach rows → OneEach ((place_pass dirs rows).0)
unfolding place_pass
place_pass-OneEach [] rows h = h
place_pass-OneEach (d ∷ ds) rows h =
    place_pass-OneEach ds ((place_one d rows).0)
      (OneEach-Settled d rows (place_one d rows) (place_one-Settled d rows) h)

some_injective : (a b : List Row) → ◌≡◌ {A = Option (List Row)} (some a) (some b) → a ≡ b
some_injective a b h = cc

place-OneEach :
    (passes : ℕ) (dirs : List DirRecord) (rows after : List Row)
    → place passes dirs rows ≡ some after
    → OneEach rows
    → OneEach after
unfolding place
place-OneEach zero dirs rows after e h = ground (arith, e)
place-OneEach (suc passes) dirs rows after e h =
    let next = place_pass-OneEach dirs rows h in
    elim (Bool-cases ((place_pass dirs rows).1)) [
      | inl t ↦
          place-OneEach passes dirs ((place_pass dirs rows).0) after (ground (arith, t, e)) next
      | inr t ↦
          let same : (place_pass dirs rows).0 ≡ after = ground (arith, t, e) in
          subst OneEach same next
    ]

module _ (rid : Ulid) where
  rescue-OneEach :
      (ts : List DirRecord) (rows : List Row) → OneEach rows → OneEach (rescue rid ts rows)
  rescue-OneEach [] rows h = h
  rescue-OneEach (t ∷ ts) rows h =
      let r = row_below t (some rid) (recovered_root rid) in
      rescue-OneEach ts (put_row r rows) (OneEach-put_row r rows h)

  with_folder-OneEach :
      (rescued : Bool) (rows : List Row) → OneEach rows → OneEach (with_folder rid rescued rows)
  with_folder-OneEach true rows h = h
  with_folder-OneEach false rows h = OneEach-put_row (recovery_row rid) rows h

  recover-OneEach :
      (rounds : ℕ) (dirs : List DirRecord) (rescued : Bool) (rows after : List Row)
      → recover rid rounds dirs rescued rows ≡ some after
      → OneEach rows
      → OneEach after
  unfolding recover
  recover-OneEach zero dirs rescued rows after e h = ground (arith, e)
  recover-OneEach (suc rounds) dirs rescued rows after e h =
      let ts = or_lowest (tops_of dirs dirs rows) (lowest dirs rows) in
      let start = rescue rid ts (with_folder rid rescued rows) in
      let one =
        rescue-OneEach ts (with_folder rid rescued rows) (with_folder-OneEach rescued rows h) in
      elim (Bool-cases (no_tops ts)) [
        | inl t ↦ let same : rows ≡ after = ground (arith, t, e) in subst OneEach same h
        | inr t ↦ elim (Option-cases (place (suc (length dirs)) dirs start)) [
          | inl n ↦ ground (arith, t, n, e)
          | inr (next, n) ↦
              let go : recover rid rounds dirs true next ≡ some after = ground (arith, t, n, e) in
              recover-OneEach rounds dirs true next after go
                (place-OneEach (suc (length dirs)) dirs start next n one)
        ]
      ]

  -- Whatever records were found, buildTree keeps one row for each id.
  pub build_tree-OneEach :
      (dirs : List DirRecord) (rows : List Row) → build_tree rid dirs ≡ some rows → OneEach rows
  unfolding build_tree
  build_tree-OneEach dirs rows e = elim (Option-cases (place (suc (length dirs)) dirs [])) [
    | inl n ↦ ground (arith, n, e)
    | inr (first, n) ↦
        let go : recover rid (suc (length dirs)) dirs false first ≡ some rows =
          ground (arith, n, e) in
        recover-OneEach (suc (length dirs)) dirs false first rows go
          (place-OneEach (suc (length dirs)) dirs [] first n tt)
  ]
