-- ===== src/Rebuild/Collisions/Order.antt =====
-- The order of dedupePaths (internal/indexer/indexer.go) has a parent before its children.
use mathlib.Core.List.{Memᴰ}
use tdrive.Base.{
  ◌≤◌, ◌<◌, ◌≡◌, refl, sym, ap, ◌∙◌, subst, inl, inr, ◌⊎◌, true, false, some, List, [], ◌∷◌, arith,
  Bool-cases, All,
}
use tdrive.Names.Path.Depth.{depth}
use tdrive.Rebuild.Ids.{Ulid}
use tdrive.Rebuild.Resolve.{Row}
use tdrive.Rebuild.Collisions.{row_before, insert_row, sort_rows}

abbrev Deeper : Row → List Row → Type 0
Deeper r rows = All (λ s. depth (r.path) ≤ depth (s.path)) rows

-- No row is deeper than one behind it.
abbrev pub Sorted : List Row → Type 0
Sorted [] = Unit
Sorted (r ∷ rs) = Deeper r rs × Sorted rs

Deeper-insert :
    (q r : Row) (rows : List Row)
    → depth (q.path) ≤ depth (r.path)
    → Deeper q rows
    → Deeper q (insert_row r rows)
Deeper-insert q r [] h d = (h, tt)
Deeper-insert q r (s ∷ ss) h (k, d) = elim (Bool-cases (row_before s r)) [
  | inl t ↦ rw t (k, Deeper-insert q r ss h d)
  | inr t ↦ rw t (h, (k, d))
]

Deeper-trans :
    (q r : Row) (rows : List Row) → depth (q.path) ≤ depth (r.path) → Deeper r rows → Deeper q rows
Deeper-trans q r [] h d = tt
Deeper-trans q r (s ∷ ss) h (k, d) = (omega (arith, h, k), Deeper-trans q r ss h d)

before-depth : (s r : Row) → row_before s r ≡ true → depth (s.path) ≤ depth (r.path)
before-depth s r t = ground (arith, t)

behind-depth : (s r : Row) → row_before s r ≡ false → depth (r.path) ≤ depth (s.path)
behind-depth s r t = ground (arith, t)

Sorted-insert : (r : Row) (rows : List Row) → Sorted rows → Sorted (insert_row r rows)
Sorted-insert r [] o = (tt, tt)
Sorted-insert r (s ∷ ss) (d, o) = elim (Bool-cases (row_before s r)) [
  | inl t ↦ rw t (Deeper-insert s r ss (before-depth s r t) d, Sorted-insert r ss o)
  | inr t ↦ let h = behind-depth s r t in rw t ((h, Deeper-trans r s ss h d), (d, o))
]

pub sort_rows-Sorted : (rows : List Row) → Sorted (sort_rows rows)
unfolding sort_rows
sort_rows-Sorted [] = tt
sort_rows-Sorted (r ∷ rs) = Sorted-insert r (sort_rows rs) (sort_rows-Sorted rs)

-- Sorting keeps the rows.
insert-here : (r : Row) (rows : List Row) → Memᴰ r (insert_row r rows)
insert-here r [] = Memᴰ.head refl
insert-here r (s ∷ ss) = elim (Bool-cases (row_before s r)) [
  | inl t ↦ rw t (Memᴰ.tail (insert-here r ss))
  | inr t ↦ rw t (Memᴰ.head refl)
]

insert-there : (q r : Row) (rows : List Row) → Memᴰ q rows → Memᴰ q (insert_row r rows)
insert-there q r [] m = elim m [ ]
insert-there q r (s ∷ ss) m = elim (Bool-cases (row_before s r)) [
  | inl t ↦ elim m [
    | Memᴰ.head e ↦ rw t (Memᴰ.head e)
    | Memᴰ.tail k ↦ rw t (Memᴰ.tail (insert-there q r ss k))
  ]
  | inr t ↦ rw t (Memᴰ.tail m)
]

insert-from : (q r : Row) (rows : List Row) → Memᴰ q (insert_row r rows) → (q ≡ r) ⊎ Memᴰ q rows
insert-from q r [] m = elim m [ Memᴰ.head e ↦ inl e | Memᴰ.tail k ↦ elim k [ ] ]
insert-from q r (s ∷ ss) m = elim (Bool-cases (row_before s r)) [
  | inl t ↦
      let n : Memᴰ q (s ∷ insert_row r ss) = rw t at m in
      elim n [
        | Memᴰ.head e ↦ inr (Memᴰ.head e)
        | Memᴰ.tail k ↦ elim (insert-from q r ss k) [ inl e ↦ inl e | inr l ↦ inr (Memᴰ.tail l) ]
      ]
  | inr t ↦
      let n : Memᴰ q (r ∷ s ∷ ss) = rw t at m in
      elim n [ Memᴰ.head e ↦ inl e | Memᴰ.tail k ↦ inr k ]
]

pub sort_rows-there : (q : Row) (rows : List Row) → Memᴰ q rows → Memᴰ q (sort_rows rows)
unfolding sort_rows
sort_rows-there q [] m = elim m [ ]
sort_rows-there q (r ∷ rs) m = elim m [
  | Memᴰ.head e ↦
      subst (λ (x : Row). Memᴰ x (insert_row r (sort_rows rs))) (sym e)
        (insert-here r (sort_rows rs))
  | Memᴰ.tail k ↦ insert-there q r (sort_rows rs) (sort_rows-there q rs k)
]

pub sort_rows-from : (q : Row) (rows : List Row) → Memᴰ q (sort_rows rows) → Memᴰ q rows
unfolding sort_rows
sort_rows-from q [] m = elim m [ ]
sort_rows-from q (r ∷ rs) m = elim (insert-from q r (sort_rows rs) m) [
  | inl e ↦ Memᴰ.head e
  | inr k ↦ Memᴰ.tail (sort_rows-from q rs k)
]

-- A parent that is among the ids, or the id of a row that is less deep.
abbrev pub Awaited : List Ulid → List Row → Row → Ulid → Type 0
Awaited seen rows r p =
    Memᴰ p seen ⊎ ((q : Row) × Memᴰ q rows × (q.id ≡ p) × (depth (q.path) < depth (r.path)))

-- Each row is in the root, or in a directory whose id was seen before.
abbrev pub ParentsFirst : List Ulid → List Row → Type 0
ParentsFirst seen [] = Unit
ParentsFirst seen (r ∷ rs) =
    ((p : Ulid) → r.parent_id ≡ some p → Memᴰ p seen) × ParentsFirst (r.id ∷ seen) rs

less_deep :
    (r q : Row) (rows : List Row) → Deeper r rows → Memᴰ q rows → depth (r.path) ≤ depth (q.path)
less_deep r q [] d m = elim m [ ]
less_deep r q (s ∷ ss) (h, d) m = elim m [
  | Memᴰ.head e ↦ subst (λ (x : Row). depth (r.path) ≤ depth (x.path)) (sym e) h
  | Memᴰ.tail k ↦ less_deep r q ss d k
]

pub Sorted-ParentsFirst :
    (seen : List Ulid) (rows : List Row)
    → Sorted rows
    → ((r : Row) → Memᴰ r rows → (p : Ulid) → r.parent_id ≡ some p → Awaited seen rows r p)
    → ParentsFirst seen rows
Sorted-ParentsFirst seen [] o h = tt
Sorted-ParentsFirst seen (r ∷ rs) (d, o) h = (
  λ p e. elim (h r (Memᴰ.head refl) p e) [
    | inl m ↦ m
    | inr (q, m, i, l) ↦ elim m [
      | Memᴰ.head f ↦
          let level = ap (λ (x : Row). depth (x.path)) f in absurd (omega (arith, l, level))
      | Memᴰ.tail k ↦ absurd (omega (arith, l, less_deep r q rs d k))
    ]
  ],
  Sorted-ParentsFirst (r.id ∷ seen) rs o (λ s m p e. elim (h s (Memᴰ.tail m) p e) [
    | inl k ↦ inl (Memᴰ.tail k)
    | inr (q, k, i, l) ↦ elim k [
      | Memᴰ.head f ↦ inl (Memᴰ.head (sym i ∙ ap (λ (x : Row). x.id) f))
      | Memᴰ.tail n ↦ inr (q, n, i, l)
    ]
  ]),
)
