-- ===== src/Rebuild/Resolve/Rescues.antt =====
-- The rounds of recovery of buildTree (internal/indexer/indexer.go) write rows for records of the
-- channel, and keep those there are.
use mathlib.Core.List.{Memᴰ}
use tdrive.Names.Path.Equal.{text_eq_iff, text_eq_sym}
use tdrive.Rebuild.Ids.{Ulid, text_lt}
use tdrive.Names.Path.{text_eq}
use tdrive.Base.{
  ℕ, zero, suc, ◌≡◌, refl, sym, ◌∙◌, subst, inl, inr, ◌⊎◌, Bool, true, false, Option, none, some,
  List, [], ◌∷◌, arith, Bool-cases, Option-cases, length,
}
use tdrive.Rebuild.Resolve.{
  DirRecord, Row, row_of, is_resolved, is_found, row_below, place, parent_found, tops_of, lower,
  lowest, just, or_lowest, no_tops, recovered_root, recovery_row, rescue, with_folder, recover,
}
use tdrive.Rebuild.Resolve.Growth.{
  Grows, Grows.same, Grows.grown, Grows-trans, Grows-map, Grows-Stable, row_of-head, cons-Stable,
}
use tdrive.Rebuild.Resolve.Resolution.{put_row-new}
use tdrive.Rebuild.Resolve.Pending.{tops_of-Pending}
use tdrive.Rebuild.Resolve.Parents.{Own, place-Grows}
use tdrive.Rebuild.Resolve.Undamaged.{DistinctIds, Memᴰ-is_found}

-- Different records of `dirs`, all without a row.
abbrev pub Fit : List DirRecord → List DirRecord → List Row → Type 0
Fit dirs [] rows = Unit
Fit dirs (t ∷ ts) rows =
    Memᴰ t dirs
    × (is_resolved (t.id) rows ≡ false)
    × (is_found (t.id) ts ≡ false)
    × Fit dirs ts rows

Fit-cons :
    (dirs ts : List DirRecord) (r : Row) (rows : List Row)
    → is_found (r.id) ts ≡ false
    → Fit dirs ts rows
    → Fit dirs ts (r ∷ rows)
Fit-cons dirs [] r rows a f = tt
Fit-cons dirs (t ∷ ts) r rows a (m, u, d, f) = elim (Bool-cases (text_eq (t.id) (r.id))) [
  | inl e ↦ ground (arith, e, a)
  | inr e ↦
      let other : text_eq (r.id) (t.id) ≡ false = text_eq_sym (r.id) (t.id) ∙ e in
      let later : is_found (r.id) ts ≡ false = ground (arith, e, a) in
      (m, ground (arith, other, u), d, Fit-cons dirs ts r rows later f)
]

Fit-absent :
    (id : Ulid) (dirs ts : List DirRecord) (rows : List Row)
    → is_found id dirs ≡ false
    → Fit dirs ts rows
    → is_found id ts ≡ false
Fit-absent id dirs [] rows a f = refl
Fit-absent id dirs (t ∷ ts) rows a (m, u, d, f) = elim (Bool-cases (text_eq (t.id) id)) [
  | inl e ↦
      let found : is_found id dirs ≡ true =
        subst (λ (n : Ulid). is_found n dirs ≡ true) ((text_eq_iff (t.id) id).0 e)
          (Memᴰ-is_found t dirs m) in
      ground (arith, found, a)
  | inr e ↦ ground (arith, e, Fit-absent id dirs ts rows a f)
]

tops_of-Fit :
    (dirs ds : List DirRecord) (rows : List Row)
    → ((d : DirRecord) → Memᴰ d ds → Memᴰ d dirs)
    → DistinctIds ds
    → Fit dirs (tops_of dirs ds rows) rows
unfolding tops_of
tops_of-Fit dirs [] rows within u = tt
tops_of-Fit dirs (d ∷ ds) rows within u =
    let rest = tops_of-Fit dirs ds rows (λ e m. within e (Memᴰ.tail m)) (u.1) in
    elim (Bool-cases (is_resolved (d.id) rows)) [
      | inl t ↦ rw t rest
      | inr t ↦ elim (Bool-cases (parent_found (d.parent_id) dirs)) [
        | inl p ↦ rw (t, p) rest
        | inr p ↦
            let absent : is_found (d.id) (tops_of dirs ds rows) ≡ false =
              elim (Bool-cases (is_found (d.id) (tops_of dirs ds rows))) [
                | inl f ↦ ground (arith, (tops_of-Pending dirs ds rows (d.id) f).0, u.0)
                | inr f ↦ f
              ] in
            rw (t, p) (within d (Memᴰ.head refl), t, absent, rest)
      ]
    ]

lower-Fit :
    (dirs : List DirRecord) (o : Option DirRecord) (d : DirRecord) (rows : List Row)
    → Memᴰ d dirs
    → is_resolved (d.id) rows ≡ false
    → Fit dirs (just o) rows
    → Fit dirs (lower d o ∷ []) rows
lower-Fit dirs none d rows m u f = (m, u, refl, tt)
lower-Fit dirs (some e) d rows m u f = elim (Bool-cases (text_lt (e.id) (d.id))) [
  | inl t ↦ rw t f
  | inr t ↦ rw t (m, u, refl, tt)
]

lowest-Fit :
    (dirs ds : List DirRecord) (rows : List Row)
    → ((d : DirRecord) → Memᴰ d ds → Memᴰ d dirs)
    → Fit dirs (just (lowest ds rows)) rows
unfolding lowest
lowest-Fit dirs [] rows within = tt
lowest-Fit dirs (d ∷ ds) rows within =
    let rest = lowest-Fit dirs ds rows (λ e m. within e (Memᴰ.tail m)) in
    elim (Bool-cases (is_resolved (d.id) rows)) [
      | inl t ↦ rw t rest
      | inr t ↦ rw t (lower-Fit dirs (lowest ds rows) d rows (within d (Memᴰ.head refl)) t rest)
    ]

or_lowest-Fit :
    (dirs ts : List DirRecord) (o : Option DirRecord) (rows : List Row)
    → Fit dirs ts rows
    → Fit dirs (just o) rows
    → Fit dirs (or_lowest ts o) rows
or_lowest-Fit dirs [] o rows f g = g
or_lowest-Fit dirs (t ∷ ts) o rows f g = f

module _ (rid : Ulid) (dirs : List DirRecord) where
  -- The recovery folder, or the row of a record in it.
  abbrev pub Rescued : Row → List Row → Type 0
  Rescued r rows =
      (r ≡ recovery_row rid)
      ⊎ ((d : DirRecord) × Memᴰ d dirs
          × (row_of rid rows ≡ some (recovery_row rid))
          × (r ≡ row_below d (some rid) (recovered_root rid)))

  abbrev pub Written : Row → List Row → Type 0
  Written r rows = Own dirs r rows ⊎ Rescued r rows

  -- The recovery folder has its row exactly from the first rescue on.
  abbrev pub Opened : Bool → List Row → Type 0
  Opened true rows = row_of rid rows ≡ some (recovery_row rid)
  Opened false rows = is_resolved rid rows ≡ false

  rescue-Grows :
      (ts : List DirRecord) (rows : List Row)
      → Fit dirs ts rows
      → Opened true rows
      → Grows Written rows (rescue rid ts rows)
  rescue-Grows [] rows f o = same
  rescue-Grows (t ∷ ts) rows (m, u, d, f) o =
      let r = row_below t (some rid) (recovered_root rid) in
      let step : Grows Written rows (r ∷ rows) = grown r rows same u (inr (inr (t, m, o, refl))) in
      let opened : Opened true (r ∷ rows) = cons-Stable r rows u rid (recovery_row rid) o in
      subst (λ (xs : List Row). Grows Written rows (rescue rid ts xs)) (sym (put_row-new r rows u))
        (Grows-trans rows (r ∷ rows) (rescue rid ts (r ∷ rows)) step
          (rescue-Grows ts (r ∷ rows) (Fit-cons dirs ts r rows d f) opened))

  with_folder-Grows :
      (rescued : Bool) (ts : List DirRecord) (rows : List Row)
      → is_found rid ts ≡ false
      → Fit dirs ts rows
      → Opened rescued rows
      → Grows Written rows (with_folder rid rescued rows)
        × Fit dirs ts (with_folder rid rescued rows)
        × Opened true (with_folder rid rescued rows)
  with_folder-Grows true ts rows a f o = (same, f, o)
  with_folder-Grows false ts rows a f o =
      subst (λ (xs : List Row). Grows Written rows xs × Fit dirs ts xs × Opened true xs)
        (sym (put_row-new (recovery_row rid) rows o))
        (
          grown (recovery_row rid) rows same o (inr (inl refl)),
          Fit-cons dirs ts (recovery_row rid) rows a f,
          row_of-head (recovery_row rid) rows,
        )

  module _ (absent : is_found rid dirs ≡ false) (distinct : DistinctIds dirs) where
    re_rooted-Grows :
        (rescued : Bool) (ts : List DirRecord) (rows : List Row)
        → Fit dirs ts rows
        → Opened rescued rows
        → Grows Written rows (rescue rid ts (with_folder rid rescued rows))
          × Opened true (rescue rid ts (with_folder rid rescued rows))
    re_rooted-Grows rescued ts rows f o =
        let start = with_folder rid rescued rows in
        let (g, fit, opened) =
          with_folder-Grows rescued ts rows (Fit-absent rid dirs ts rows absent f) f o in
        let h = rescue-Grows ts start fit opened in
        (
          Grows-trans rows start (rescue rid ts start) g h,
          Grows-Stable start (rescue rid ts start) h rid (recovery_row rid) opened,
        )

    pub recover-Grows :
        (rounds : ℕ) (rescued : Bool) (rows after : List Row)
        → Opened rescued rows
        → recover rid rounds dirs rescued rows ≡ some after
        → Grows Written rows after
    unfolding recover
    recover-Grows zero rescued rows after o e = ground arith
    recover-Grows (suc rounds) rescued rows after o e =
        let ts = or_lowest (tops_of dirs dirs rows) (lowest dirs rows) in
        let fit : Fit dirs ts rows =
          or_lowest-Fit dirs (tops_of dirs dirs rows) (lowest dirs rows) rows
            (tops_of-Fit dirs dirs rows (λ d m. m) distinct)
            (lowest-Fit dirs dirs rows (λ d m. m)) in
        let start = rescue rid ts (with_folder rid rescued rows) in
        let (g, opened) = re_rooted-Grows rescued ts rows fit o in
        elim (Bool-cases (no_tops ts)) [
          | inl t ↦
              let stop : rows ≡ after = ground (arith, t, e) in
              subst (λ (x : List Row). Grows Written rows x) stop same
          | inr t ↦ elim (Option-cases (place (suc (length dirs)) dirs start)) [
            | inl n ↦ ground (arith, t, n, e)
            | inr (next, n) ↦
                let go : recover rid rounds dirs true next ≡ some after = ground (arith, t, n, e) in
                let h =
                  Grows-map (λ r mid a. inl a) start next
                    ((place-Grows (suc (length dirs)) dirs start next n).0) in
                let still = Grows-Stable start next h rid (recovery_row rid) opened in
                let rest = recover-Grows rounds true next after still go in
                Grows-trans rows start after g (Grows-trans start next after h rest)
          ]
        ]
