-- ===== src/Rebuild/Resolve/Undamaged.antt =====
-- The paths that the records of a channel describe, and that `place` of buildTree
-- (internal/indexer/indexer.go) finds them.
use mathlib.Core.List.{Memᴰ}
use tdrive.Names.Path.Equal.{text_eq_iff}
use tdrive.Rebuild.Ids.{Ulid}
use tdrive.Names.Path.{text_eq}
use tdrive.Base.{
  ℕ, ◌≡◌, sym, ap, ◌∙◌, subst, inl, inr, true, false, Option, none, some, List, [], ◌∷◌, arith,
  Bool-cases,
}
use tdrive.Names.Path.{Text, root, join}
use tdrive.Rebuild.Resolve.{DirRecord, Row, row_of, is_resolved, is_found, place}
use tdrive.Rebuild.Resolve.Growth.{Stable, Every, Grows-Every, row_of-found}
use tdrive.Rebuild.Resolve.Parents.{Base, Own, Quiet, place-Grows}

-- The ids of the records differ: they are the keys of a map.
abbrev pub DistinctIds : List DirRecord → Type 0
DistinctIds [] = Unit
DistinctIds (d ∷ ds) = (is_found (d.id) ds ≡ false) × DistinctIds ds

-- The path of a record whose parents are there, up to the root.
pub data PathOf (dirs : List DirRecord) : DirRecord → Text → Type 0 where
  top : (d : DirRecord) → Memᴰ d dirs → d.parent_id ≡ none → PathOf dirs d (join root (d.name))
  under :
      (d e : DirRecord) (path : Text)
      → Memᴰ d dirs
      → d.parent_id ≡ some (e.id)
      → PathOf dirs e path
      → PathOf dirs d (join path (d.name))

-- The row of a record at a path, below the parent that the record names.
abbrev pub row_at : DirRecord → Text → Row
row_at d path = record {
  id = d.id;
  parent_id = d.parent_id;
  name = d.name;
  path = path;
  msg_id = d.msg_id;
}

pub Memᴰ-is_found : (d : DirRecord) (ds : List DirRecord) → Memᴰ d ds → is_found (d.id) ds ≡ true
Memᴰ-is_found d [] m = elim m [ ]
Memᴰ-is_found d (e ∷ es) m = elim m [
  | Memᴰ.head f ↦
      let same : (text_eq (e.id) (d.id)) ≡ true =
        (text_eq_iff (e.id) (d.id)).1 (ap (λ (x : DirRecord). x.id) (sym f)) in
      ground (arith, same)
  | Memᴰ.tail k ↦ ground (arith, Memᴰ-is_found d es k)
]

same_record :
    (ds : List DirRecord) (d e : DirRecord)
    → DistinctIds ds
    → Memᴰ d ds
    → Memᴰ e ds
    → d.id ≡ e.id
    → d ≡ e
same_record [] d e u m n i = elim m [ ]
same_record (c ∷ cs) d e u m n i =
    let absent : (x : DirRecord) → Memᴰ x cs → x.id ≡ c.id → true ≡ false =
      λ x k f. sym (subst (λ (t : Ulid). is_found t cs ≡ true) f (Memᴰ-is_found x cs k)) ∙ u.0 in
    elim m [
      | Memᴰ.head f ↦ elim n [
        | Memᴰ.head g ↦ f ∙ sym g
        | Memᴰ.tail l ↦
            let bad = absent e l (sym i ∙ ap (λ (x : DirRecord). x.id) f) in ground arith
      ]
      | Memᴰ.tail k ↦ elim n [
        | Memᴰ.head g ↦ let bad = absent d k (i ∙ ap (λ (x : DirRecord). x.id) g) in ground arith
        | Memᴰ.tail l ↦ same_record cs d e (u.1) k l i
      ]
    ]

pub Base-Stable :
    (mid after : List Row) (o : Option Ulid) (base : Text)
    → Stable mid after
    → Base mid o base
    → Base after o base
Base-Stable mid after none base s b = b
Base-Stable mid after (some p) base s (q, f, e) = (q, s p q f, e)

Own-Stable :
    (dirs : List DirRecord) (r : Row) (mid after : List Row)
    → Stable mid after
    → Own dirs r mid
    → Own dirs r after
Own-Stable dirs r mid after s (d, m, base, b, e) =
    (d, m, base, Base-Stable mid after (d.parent_id) base s b, e)

pub row_of-id : (id : Ulid) (rows : List Row) (r : Row) → row_of id rows ≡ some r → r.id ≡ id
row_of-id id [] r f = ground arith
row_of-id id (s ∷ ss) r f = elim (Bool-cases (text_eq (s.id) id)) [
  | inl e ↦
      let eq : s ≡ r = ground (arith, e, f) in
      ap (λ (x : Row). x.id) (sym eq) ∙ (text_eq_iff (s.id) id).0 e
  | inr e ↦ row_of-id id ss r (ground (arith, e, f))
]

module _ (dirs : List DirRecord) (distinct : DistinctIds dirs) (rows : List Row)
    (every : Every (Own dirs) rows) (quiet : (d : DirRecord) → Memᴰ d dirs → Quiet d rows) where
  -- A record with a row has it below its own parent.
  own_row :
      (d : DirRecord)
      → Memᴰ d dirs
      → is_resolved (d.id) rows ≡ true
      → (base : Text) × Base rows (d.parent_id) base
        × (row_of (d.id) rows ≡ some (row_at d (join base (d.name))))
  own_row d m t =
      let (r, f) = row_of-found (d.id) rows t in
      let (e, n, base, b, eq) = every (d.id) r f in
      let ids : d.id ≡ e.id = sym (row_of-id (d.id) rows r f) ∙ ap (λ (x : Row). x.id) eq in
      let same : e ≡ d = sym (same_record dirs d e distinct m n ids) in
      (
        base,
        subst (λ (x : DirRecord). Base rows (x.parent_id) base) same b,
        f ∙ ap some (eq ∙ ap (λ (x : DirRecord). row_at x (join base (x.name))) same),
      )

  resolved_of :
      (d : DirRecord) (q : Row)
      → Memᴰ d dirs
      → ((p : Ulid) → d.parent_id ≡ some p → row_of p rows ≡ some q)
      → is_resolved (d.id) rows ≡ true
  resolved_of d q m h = elim (quiet d m) [
    | inl t ↦ t
    | inr (p, e, f) ↦ let bad = h p e in ground arith
  ]

  PathOf-row_of :
      (d : DirRecord) (path : Text) → PathOf dirs d path → row_of (d.id) rows ≡ some (row_at d path)
  PathOf-row_of d _ (top _ m e) =
      let t = resolved_of d (row_at d root) m (λ p f. ground arith) in
      let (base, b, r) = own_row d m t in
      let at_root : base ≡ root = subst (λ (o : Option Ulid). Base rows o base) e b in
      r ∙ ap (λ (x : Text). some (row_at d (join x (d.name)))) at_root
  PathOf-row_of d _ (under _ c path m e above) =
      let ih = PathOf-row_of c path above in
      let t = resolved_of d (row_at c path) m (λ p f.
        let ids : c.id ≡ p = ground arith in
        subst (λ (x : Ulid). row_of x rows ≡ some (row_at c path)) ids ih) in
      let (base, b, r) = own_row d m t in
      let (q, g, h) = subst (λ (o : Option Ulid). Base rows o base) e b in
      let same : q ≡ row_at c path = ground arith in
      let at_parent : base ≡ path = sym h ∙ ap (λ (x : Row). x.path) same in
      r ∙ ap (λ (x : Text). some (row_at d (join x (d.name)))) at_parent

-- The first `place` gives each record whose parents are there its path and its own parent.
pub place-PathOf :
    (passes : ℕ) (dirs : List DirRecord) (rows : List Row) (d : DirRecord) (path : Text)
    → DistinctIds dirs
    → place passes dirs [] ≡ some rows
    → PathOf dirs d path
    → row_of (d.id) rows ≡ some (row_at d path)
place-PathOf passes dirs rows d path u e p =
    let (grows, quiet) = place-Grows passes dirs [] rows e in
    let every =
      Grows-Every (Own dirs) (Own dirs) (Own-Stable dirs) (λ r mid a. a) [] rows grows
        (λ id r f. ground arith) in
    PathOf-row_of dirs u rows every quiet d path p
