-- ===== src/Rebuild/Resolve/Outcome.antt =====
-- What buildTree (internal/indexer/indexer.go) returns.
use mathlib.Core.List.{Memᴰ}
use tdrive.Names.Path.Depth.{IsComponent}
use tdrive.Names.Path.Equal.{text_eq_iff}
use tdrive.Rebuild.Ids.{Ulid}
use tdrive.Names.Path.{text_eq}
use tdrive.Base.{
  suc, ◌≡◌, refl, sym, ap, ◌∙◌, subst, inl, inr, true, false, some, List, [], arith, Bool-cases,
  Option-cases, length,
}
use tdrive.Names.Path.{Text, root, join}
use tdrive.Rebuild.Resolve.{
  DirRecord, Row, row_of, is_resolved, is_found, place, recovered_root, recovery_row, recover,
  build_tree,
}
use tdrive.Rebuild.Resolve.Growth.{
  Stable, Every, Grows, Grows.same, Grows.grown, Grows-Every, Grows-each, Grows-map, Grows-Stable,
  Grows-trans,
}
use tdrive.Rebuild.Resolve.Parents.{Base, Own, place-Grows}
use tdrive.Rebuild.Resolve.Undamaged.{
  DistinctIds, PathOf, row_at, Memᴰ-is_found, Base-Stable, place-PathOf,
}
use tdrive.Rebuild.Resolve.Rescues.{Written, recover-Grows}

-- The path of a row is that of its parent's row, or of the root, with its name behind it.
abbrev pub Lies : Row → List Row → Type 0
Lies r rows = (base : Text) × Base rows (r.parent_id) base × (r.path ≡ join base (r.name))

Lies-Stable : (r : Row) (mid after : List Row) → Stable mid after → Lies r mid → Lies r after
Lies-Stable r mid after s (base, b, e) = (base, Base-Stable mid after (r.parent_id) base s b, e)

module _ (rid : Ulid) (dirs : List DirRecord) where
  Own-absent :
      is_found rid dirs ≡ false
      → (rows : List Row) → Grows (Own dirs) [] rows
      → is_resolved rid rows ≡ false
  Own-absent a _ same = refl
  Own-absent a _ (grown r mid g u (d, m, base, b, e)) =
      let older : is_resolved rid mid ≡ false = Own-absent a mid g in
      let ids : r.id ≡ d.id = ap (λ (x : Row). x.id) e in
      elim (Bool-cases (text_eq (r.id) rid)) [
        | inl t ↦
            let same_id : d.id ≡ rid = sym ids ∙ (text_eq_iff (r.id) rid).0 t in
            let found =
              subst (λ (n : Ulid). is_found n dirs ≡ true) same_id (Memᴰ-is_found d dirs m) in
            ground arith
        | inr t ↦ ground (arith, t, older)
      ]

  Written-Lies : (r : Row) (mid : List Row) → Written rid dirs r mid → Lies r mid
  unfolding join
  Written-Lies r mid (inl (d, m, base, b, e)) =
      subst (λ (x : Row). Lies x mid) (sym e) (base, b, refl)
  Written-Lies r mid (inr (inl e)) = subst (λ (x : Row). Lies x mid) (sym e) (root, refl, refl)
  Written-Lies r mid (inr (inr (d, m, f, e))) =
      subst (λ (x : Row). Lies x mid) (sym e)
        (recovered_root rid, (recovery_row rid, f, refl), refl)

  Written-IsComponent :
      ((d : DirRecord) → Memᴰ d dirs → IsComponent (d.name))
      → (r : Row) (mid : List Row) → Written rid dirs r mid
      → IsComponent (r.name)
  Written-IsComponent names r mid (inl (d, m, base, b, e)) =
      subst (λ (x : Row). IsComponent (x.name)) (sym e) (names d m)
  Written-IsComponent names r mid (inr (inl e)) =
      subst (λ (x : Row). IsComponent (x.name)) (sym e)
        (record { nonempty = refl; no_slash = refl })
  Written-IsComponent names r mid (inr (inr (d, m, f, e))) =
      subst (λ (x : Row). IsComponent (x.name)) (sym e) (names d m)

  module _ (absent : is_found rid dirs ≡ false) (distinct : DistinctIds dirs) (rows : List Row)
      (built : build_tree rid dirs ≡ some rows) where
    -- The rows of the first `place`, and those that the rounds add to them.
    stages :
        (first : List Row) × (place (suc (length dirs)) dirs [] ≡ some first)
        × Grows (Own dirs) [] first
        × Grows (Written rid dirs) first rows
    unfolding build_tree
    stages = elim (Option-cases (place (suc (length dirs)) dirs [])) [
      | inl n ↦ ground (arith, n, built)
      | inr (first, n) ↦
          let (own, quiet) = place-Grows (suc (length dirs)) dirs [] first n in
          let go : recover rid (suc (length dirs)) dirs false first ≡ some rows =
            ground (arith, n, built) in
          let closed = Own-absent absent first own in
          (
            first,
            n,
            own,
            recover-Grows rid dirs absent distinct (suc (length dirs)) false first rows closed go,
          )
    ]

    written : Grows (Written rid dirs) [] rows
    written =
        let (first, n, own, later) = stages in
        Grows-trans [] first rows (Grows-map (λ r mid a. inl a) [] first own) later

    -- Where the directory records of a channel have different ids and none has the one of the recovery
    -- folder, every row that buildTree returns lies at the path of its parent's row, or of the root,
    -- with its own name behind it; so no parent is missing.
    pub build_tree-Lies : Every Lies rows
    build_tree-Lies =
        Grows-Every (Written rid dirs) Lies Lies-Stable Written-Lies [] rows written
          (λ id r f. ground arith)

    -- The same for each row that there is.
    pub each-Lies : (r : Row) → Memᴰ r rows → Lies r rows
    each-Lies = Grows-each (Written rid dirs) Lies Lies-Stable Written-Lies rows written

    -- The names of the rows are those of the records, and of the recovery folder.
    pub each-IsComponent :
        ((d : DirRecord) → Memᴰ d dirs → IsComponent (d.name))
        → (r : Row) → Memᴰ r rows
        → IsComponent (r.name)
    each-IsComponent names =
        Grows-each (Written rid dirs) (λ r mid. IsComponent (r.name)) (λ r mid after s n. n)
          (Written-IsComponent names) rows written

    -- Under the same conditions, a record whose parents are all there up to the root gets the row that
    -- the records describe: its own parent, name and message, and the path of the names on the way from
    -- the root. What became of the other records of the channel does not change it.
    pub build_tree-PathOf :
        (d : DirRecord) (path : Text)
        → PathOf dirs d path
        → row_of (d.id) rows ≡ some (row_at d path)
    build_tree-PathOf d path p =
        let (first, n, own, later) = stages in
        Grows-Stable first rows later (d.id) (row_at d path)
          (place-PathOf (suc (length dirs)) dirs first d path distinct n p)
