-- ===== src/Rebuild/Collisions/Followed.antt =====
-- A directory that dedupePaths (internal/indexer/indexer.go) renames takes what is in it along.
use mathlib.Core.List.{Memᴰ}
use tdrive.Base.{
  ◌<◌, ◌≡◌, refl, sym, ap, ◌∙◌, subst, inl, inr, true, Option, none, some, List, [], ◌∷◌, arith,
  Bool-cases,
}
use tdrive.Names.Path.{Text, text_eq, root, join}
use tdrive.Names.Path.Depth.{depth, IsComponent, depth-join}
use tdrive.Names.Path.Equal.{text_eq_iff}
use tdrive.Rebuild.Ids.{Ulid}
use tdrive.Rebuild.Resolve.{Row, row_of}
use tdrive.Rebuild.Resolve.Parents.{Base}
use tdrive.Rebuild.Resolve.Undamaged.{row_of-id}
use tdrive.Rebuild.Resolve.Outcome.{Lies}
use tdrive.Rebuild.Collisions.{
  sort_rows, final_path, or_root_path, parent_path, named, dedupe_from, dedupe_paths,
}
use tdrive.Rebuild.Collisions.Free.{free_name-total}
use tdrive.Rebuild.Collisions.Paths.{join_inj}
use tdrive.Rebuild.Collisions.Order.{
  sort_rows-Sorted, sort_rows-there, sort_rows-from, Awaited, ParentsFirst, Sorted-ParentsFirst,
}

-- The path of a parent: the root, or the one that was given to it before.
abbrev pub Placed : List (Ulid × Text) → Option Ulid → Text → Type 0
Placed above none base = base ≡ root
Placed above (some p) base = final_path p above ≡ some base

-- In the order of the rows, each parent comes before, and each path is the one of the parent with the
-- name behind it.
abbrev pub Follows : List (Ulid × Text) → List Row → Type 0
Follows above [] = Unit
Follows above (r ∷ rs) =
    ((base : Text) × Placed above (r.parent_id) base × (r.path ≡ join base (r.name)))
    × Follows ((r.id, r.path) ∷ above) rs

-- The ids that were seen have a path.
abbrev Known : List Ulid → List (Ulid × Text) → Type 0
Known seen final = (p : Ulid) → Memᴰ p seen → (path : Text) × (final_path p final ≡ some path)

Known-cons :
    (id : Ulid) (path : Text) (seen : List Ulid) (final : List (Ulid × Text))
    → Known seen final
    → Known (id ∷ seen) ((id, path) ∷ final)
Known-cons id path seen final k p m = elim (Bool-cases (text_eq id p)) [
  | inl t ↦ (path, rw t refl)
  | inr t ↦ elim m [
    | Memᴰ.head e ↦
        let same : text_eq id p ≡ true = (text_eq_iff id p).1 (sym e) in ground (arith, same, t)
    | Memᴰ.tail n ↦ let (old, f) = k p n in (old, rw t f)
  ]
]

parent_path-Placed :
    (o : Option Ulid) (final : List (Ulid × Text))
    → ((p : Ulid) → o ≡ some p → (path : Text) × (final_path p final ≡ some path))
    → Placed final o (parent_path o final)
parent_path-Placed none final h = refl
parent_path-Placed (some p) final h =
    let (path, e) = h p refl in e ∙ ap (λ (o : Option Text). some (or_root_path o)) (sym e)

dedupe_from-Follows :
    (seen : List Ulid) (final : List (Ulid × Text)) (taken : List Text) (rows : List Row)
    → ParentsFirst seen rows
    → Known seen final
    → (out : List Row) × (dedupe_from final taken rows ≡ some out) × Follows final out
unfolding dedupe_from
dedupe_from-Follows seen final taken [] first k = ([], refl, tt)
dedupe_from-Follows seen final taken (r ∷ rs) (mine, first) k =
    let base = parent_path (r.parent_id) final in
    let (name, e, f) = free_name-total (join base) (join_inj base) (r.name) taken in
    let path = join base name in
    let placed = parent_path-Placed (r.parent_id) final (λ p g. k p (mine p g)) in
    let (out, g, follows) =
      dedupe_from-Follows (r.id ∷ seen) ((r.id, path) ∷ final) (path ∷ taken) rs first
        (Known-cons (r.id) path seen final k) in
    (named r base name ∷ out, rw (e, g) refl, ((base, placed, refl), follows))

row_of-Memᴰ : (id : Ulid) (rows : List Row) (r : Row) → row_of id rows ≡ some r → Memᴰ r rows
row_of-Memᴰ id [] r f = ground arith
row_of-Memᴰ id (s ∷ ss) r f = elim (Bool-cases (text_eq (s.id) id)) [
  | inl t ↦ let same : s ≡ r = ground (arith, t, f) in Memᴰ.head (sym same)
  | inr t ↦ Memᴰ.tail (row_of-Memᴰ id ss r (ground (arith, t, f)))
]

-- A row that lies where its parent says waits for a row that is less deep.
Lies-Awaited :
    (rows : List Row) (r : Row) (p : Ulid)
    → IsComponent (r.name)
    → Lies r rows
    → r.parent_id ≡ some p
    → Awaited [] (sort_rows rows) r p
Lies-Awaited rows r p n (base, b, e) f =
    let (q, g, h) = subst (λ (o : Option Ulid). Base rows o base) f b in
    let deeper : depth (q.path) < depth (r.path) =
      subst (λ (x : Text). depth (q.path) < depth x) (sym e)
        (subst (λ (x : Text). depth x < depth (join base (r.name))) (sym h)
          (depth-join base (r.name) n)) in
    inr (q, sort_rows-there q rows (row_of-Memᴰ p rows q g), row_of-id p rows q g, deeper)

-- Where each row lies at the path of its parent with a name behind it, dedupePaths gives the rows such
-- paths again: a directory with a new name takes along all that is in it.
pub dedupe_paths-Follows :
    (rows : List Row)
    → ((r : Row) → Memᴰ r rows → IsComponent (r.name))
    → ((r : Row) → Memᴰ r rows → Lies r rows)
    → (out : List Row) × (dedupe_paths rows ≡ some out) × Follows [] out
unfolding dedupe_paths
dedupe_paths-Follows rows names lies =
    dedupe_from-Follows [] [] [] (sort_rows rows)
      (Sorted-ParentsFirst [] (sort_rows rows) (sort_rows-Sorted rows) (λ r m p e.
        let n = sort_rows-from r rows m in Lies-Awaited rows r p (names r n) (lies r n) e))
      (λ p m. elim m [ ])
