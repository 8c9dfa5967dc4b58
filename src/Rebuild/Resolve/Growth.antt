-- ===== src/Rebuild/Resolve/Growth.antt =====
-- The rows of buildTree (internal/indexer/indexer.go) as they grow: a row is written once, for an id
-- that has none, and stays.
use tdrive.Names.Path.Equal.{text_eq_iff}
use tdrive.Rebuild.Ids.{Ulid}
use tdrive.Names.Path.{text_eq}
use mathlib.Core.List.{Memᴰ}
use tdrive.Base.{
  ◌≡◌, refl, sym, subst, inl, inr, true, false, none, some, List, [], ◌∷◌, arith, Bool-cases,
}
use tdrive.Rebuild.Resolve.{Row, row_of, is_resolved}

-- The second rows are the first with new ones before them, each of a new id and as `A` allows it.
pub data Grows (A : Row → List Row → Type 0) (rows : List Row) : List Row → Type 0 where
  same : Grows A rows rows
  grown :
      (r : Row) (mid : List Row)
      → Grows A rows mid
      → is_resolved (r.id) mid ≡ false
      → A r mid
      → Grows A rows (r ∷ mid)

-- No row is changed.
abbrev pub Stable : List Row → List Row → Type 0
Stable rows after = (id : Ulid) (r : Row) → row_of id rows ≡ some r → row_of id after ≡ some r

pub not_resolved-none :
    (id : Ulid) (rows : List Row) → is_resolved id rows ≡ false → row_of id rows ≡ none
not_resolved-none id [] u = refl
not_resolved-none id (r ∷ rs) u = elim (Bool-cases (text_eq (r.id) id)) [
  | inl e ↦ ground (arith, e, u)
  | inr e ↦ ground (arith, e, u, not_resolved-none id rs)
]

pub row_of-found :
    (id : Ulid) (rows : List Row)
    → is_resolved id rows ≡ true
    → (r : Row) × (row_of id rows ≡ some r)
row_of-found id [] t = ground arith
row_of-found id (r ∷ rs) t = elim (Bool-cases (text_eq (r.id) id)) [
  | inl e ↦ (r, ground (arith, e))
  | inr e ↦ let (s, f) = row_of-found id rs (ground (arith, e, t)) in (s, ground (arith, e, f))
]

pub row_of-head : (r : Row) (rows : List Row) → row_of (r.id) (r ∷ rows) ≡ some r
row_of-head r rows =
    let e : (text_eq (r.id) (r.id)) ≡ true = (text_eq_iff (r.id) (r.id)).1 refl in ground (arith, e)

pub cons-Stable :
    (r : Row) (rows : List Row) → is_resolved (r.id) rows ≡ false → Stable rows (r ∷ rows)
cons-Stable r rows u id s f = elim (Bool-cases (text_eq (r.id) id)) [
  | inl e ↦
      let same_id : r.id ≡ id = (text_eq_iff (r.id) id).0 e in
      let v : is_resolved id rows ≡ false =
        subst (λ (n : Ulid). is_resolved n rows ≡ false) same_id u in
      ground (arith, not_resolved-none id rows v, f)
  | inr e ↦ ground (arith, e, f)
]

pub Grows-Stable :
    {A : Row → List Row → Type 0} (rows after : List Row) → Grows A rows after → Stable rows after
Grows-Stable rows _ same = λ id r f. f
Grows-Stable rows _ (grown r mid g u a) =
    λ id s f. cons-Stable r mid u id s (Grows-Stable rows mid g id s f)

pub Grows-trans :
    {A : Row → List Row → Type 0} (rows mid after : List Row)
    → Grows A rows mid
    → Grows A mid after
    → Grows A rows after
Grows-trans rows mid _ g same = g
Grows-trans rows mid _ g (grown r last h u a) = grown r last (Grows-trans rows mid last g h) u a

pub Grows-map :
    {A B : Row → List Row → Type 0} (f : (r : Row) (mid : List Row) → A r mid → B r mid)
    → (rows after : List Row) → Grows A rows after
    → Grows B rows after
Grows-map f rows _ same = same
Grows-map f rows _ (grown r mid g u a) = grown r mid (Grows-map f rows mid g) u (f r mid a)

-- Each row that a lookup finds is as `Q` says.
abbrev pub Every : (Row → List Row → Type 0) → List Row → Type 0
Every Q rows = (id : Ulid) (r : Row) → row_of id rows ≡ some r → Q r rows

module _ (A Q : Row → List Row → Type 0)
    (lasts : (r : Row) (mid after : List Row) → Stable mid after → Q r mid → Q r after)
    (allows : (r : Row) (mid : List Row) → A r mid → Q r mid) where
  pub Grows-Every : (rows after : List Row) → Grows A rows after → Every Q rows → Every Q after
  Grows-Every rows _ same every = every
  Grows-Every rows _ (grown r mid g u a) every = λ id s f. elim (Bool-cases (text_eq (r.id) id)) [
    | inl e ↦
        let eq : r ≡ s = ground (arith, e, f) in
        subst (λ (t : Row). Q t (r ∷ mid)) eq
          (lasts r mid (r ∷ mid) (cons-Stable r mid u) (allows r mid a))
    | inr e ↦
        let older : row_of id mid ≡ some s = ground (arith, e, f) in
        lasts s mid (r ∷ mid) (cons-Stable r mid u) (Grows-Every rows mid g every id s older)
  ]

  -- And so is each row that there is, where there was none before.
  pub Grows-each : (rows : List Row) → Grows A [] rows → (r : Row) → Memᴰ r rows → Q r rows
  Grows-each _ same = λ r m. elim m [ ]
  Grows-each _ (grown s mid g u a) = λ r m. elim m [
    | Memᴰ.head e ↦
        subst (λ (t : Row). Q t (s ∷ mid)) (sym e)
          (lasts s mid (s ∷ mid) (cons-Stable s mid u) (allows s mid a))
    | Memᴰ.tail k ↦ lasts r mid (s ∷ mid) (cons-Stable s mid u) (Grows-each mid g r k)
  ]
