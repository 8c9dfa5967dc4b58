-- ===== src/Rebuild/Collisions/Paths.antt =====
-- dedupePaths (internal/indexer/indexer.go) gives every directory a path of its own.
use mathlib.Core.List.{append_cancel_left}
use tdrive.Base.{
  ◌≡◌, refl, ap, ap₂, ◌∙◌, inl, inr, Bool, false, ◌||◌, some, List, [], ◌∷◌, arith, Bool-cases, All,
}
use tdrive.Names.Path.{Text, text_eq, root, join, slash}
use tdrive.Rebuild.Ids.{Ulid}
use tdrive.Rebuild.Resolve.{Row, is_resolved}
use tdrive.Rebuild.Collisions.{
  is_taken, row_before, insert_row, sort_rows, parent_path, named, dedupe_from, dedupe_paths,
}
use tdrive.Rebuild.Collisions.Free.{free_name-total}

-- No path is among the slots, and no two paths are one.
abbrev AllFree : List Text → List Row → Type 0
AllFree taken rows = All (λ r. is_taken (r.path) taken ≡ false) rows

abbrev pub Different : List Row → Type 0
Different [] = Unit
Different (r ∷ rs) = All (λ s. text_eq (r.path) (s.path) ≡ false) rs × Different rs

pub join_inj : (base x y : Text) → join base x ≡ join base y → x ≡ y
unfolding join
join_inj base x y h = elim (Bool-cases (text_eq base root || text_eq base [])) [
  | inl t ↦ append_cancel_left root x y (rw t at h)
  | inr t ↦
      append_cancel_left (slash ∷ []) x y
        (append_cancel_left base (slash ∷ x) (slash ∷ y) (rw t at h))
]

AllFree-cons :
    (path : Text) (taken : List Text) (rows : List Row)
    → AllFree (path ∷ taken) rows
    → AllFree taken rows × All (λ s. text_eq path (s.path) ≡ false) rows
AllFree-cons path taken [] f = (tt, tt)
AllFree-cons path taken (r ∷ rs) (f, fs) =
    let (rest, apart) = AllFree-cons path taken rs fs in
    ((ground (arith, f), rest), (ground (arith, f), apart))

-- The rows are those of before, with new names.
abbrev pub Renamed : List Row → List Row → Type 0
Renamed [] [] = Unit
Renamed (r ∷ rs) (s ∷ ss) =
    (s.id ≡ r.id) × (s.parent_id ≡ r.parent_id) × (s.msg_id ≡ r.msg_id) × Renamed rs ss
Renamed [] (s ∷ ss) = ⊥
Renamed (r ∷ rs) [] = ⊥

dedupe_from-Different :
    (final : List (Ulid × Text)) (taken : List Text) (rows : List Row)
    → (out : List Row) × (dedupe_from final taken rows ≡ some out)
      × AllFree taken out
      × Different out
      × Renamed rows out
unfolding dedupe_from
dedupe_from-Different final taken [] = ([], refl, tt, tt, tt)
dedupe_from-Different final taken (r ∷ rs) =
    let base = parent_path (r.parent_id) final in
    let (name, e, f) = free_name-total (join base) (join_inj base) (r.name) taken in
    let path = join base name in
    let (out, g, free, different, renamed) =
      dedupe_from-Different ((r.id, path) ∷ final) (path ∷ taken) rs in
    let (rest, apart) = AllFree-cons path taken out free in
    (
      named r base name ∷ out,
      rw (e, g) refl,
      (f, rest),
      (apart, different),
      (refl, refl, refl, renamed),
    )

pub is_resolved-insert_row :
    (id : Ulid) (r : Row) (rows : List Row)
    → is_resolved id (insert_row r rows) ≡ (text_eq (r.id) id || is_resolved id rows)
is_resolved-insert_row id r [] = refl
is_resolved-insert_row id r (s ∷ ss) = elim (Bool-cases (row_before s r)) [
  | inl t ↦ rw t (
      ap (λ b. text_eq (s.id) id || b) (is_resolved-insert_row id r ss)
      ∙ swap (text_eq (s.id) id) (text_eq (r.id) id) (is_resolved id ss))
  | inr t ↦ rw t refl
]
  where
    swap : (a b c : Bool) → (a || (b || c)) ≡ (b || (a || c))
    swap a b c = ground arith

pub is_resolved-sort_rows :
    (id : Ulid) (rows : List Row) → is_resolved id (sort_rows rows) ≡ is_resolved id rows
unfolding sort_rows
is_resolved-sort_rows id [] = refl
is_resolved-sort_rows id (r ∷ rs) =
    is_resolved-insert_row id r (sort_rows rs)
    ∙ ap (λ b. text_eq (r.id) id || b) (is_resolved-sort_rows id rs)

pub is_resolved-Renamed :
    (id : Ulid) (rows out : List Row) → Renamed rows out → is_resolved id out ≡ is_resolved id rows
is_resolved-Renamed id [] [] m = refl
is_resolved-Renamed id (r ∷ rs) (s ∷ ss) (e, p, g, m) =
    ap₂ (λ (x : Ulid) (b : Bool). text_eq x id || b) e (is_resolved-Renamed id rs ss m)
is_resolved-Renamed id [] (s ∷ ss) m = absurd m
is_resolved-Renamed id (r ∷ rs) [] m = absurd m

-- dedupePaths returns, with as many tries for a number as there are paths before it, and one more. No
-- two directories have one path then; the directories are those it was given, and each keeps its id,
-- its parent and its message in the order by depth.
pub dedupe_paths-Different :
    (rows : List Row)
    → (out : List Row) × (dedupe_paths rows ≡ some out)
      × Different out
      × Renamed (sort_rows rows) out
      × ((id : Ulid) → is_resolved id out ≡ is_resolved id rows)
unfolding dedupe_paths
dedupe_paths-Different rows =
    let (out, e, free, different, renamed) = dedupe_from-Different [] [] (sort_rows rows) in
    (
      out,
      e,
      different,
      renamed,
      λ id. is_resolved-Renamed id (sort_rows rows) out renamed ∙ is_resolved-sort_rows id rows,
    )
