-- ===== src/Rebuild/Collisions/Kept.antt =====
-- dedupePaths (internal/indexer/indexer.go) keeps one row for each id.
use tdrive.Names.Path.Equal.{text_eq_sym}
use tdrive.Rebuild.Ids.{Ulid}
use tdrive.Base.{◌≡◌, refl, ◌∙◌, subst, sym, inl, inr, false, List, [], ◌∷◌, arith, Bool-cases}
use tdrive.Rebuild.Resolve.{Row, is_resolved}
use tdrive.Rebuild.Resolve.OneEach.{OneEach}
use tdrive.Rebuild.Collisions.{row_before, insert_row, sort_rows}
use tdrive.Rebuild.Collisions.Paths.{
  Renamed, is_resolved-insert_row, is_resolved-sort_rows, is_resolved-Renamed,
}

OneEach-insert_row :
    (r : Row) (rows : List Row)
    → is_resolved (r.id) rows ≡ false
    → OneEach rows
    → OneEach (insert_row r rows)
OneEach-insert_row r [] u h = (refl, tt)
OneEach-insert_row r (s ∷ ss) u (v, h) = elim (Bool-cases (row_before s r)) [
  | inl t ↦ rw t (
    is_resolved-insert_row (s.id) r ss ∙ ground (arith, text_eq_sym (r.id) (s.id), u, v),
    OneEach-insert_row r ss (ground (arith, u)) h,
  )
  | inr t ↦ rw t (u, (v, h))
]

OneEach-sort_rows : (rows : List Row) → OneEach rows → OneEach (sort_rows rows)
unfolding sort_rows
OneEach-sort_rows [] h = tt
OneEach-sort_rows (r ∷ rs) (u, h) =
    OneEach-insert_row r (sort_rows rs) (is_resolved-sort_rows (r.id) rs ∙ u)
      (OneEach-sort_rows rs h)

OneEach-Renamed : (rows out : List Row) → Renamed rows out → OneEach rows → OneEach out
OneEach-Renamed [] [] m h = tt
OneEach-Renamed (r ∷ rs) (s ∷ ss) (e, p, g, m) (u, h) = (
  is_resolved-Renamed (s.id) rs ss m ∙ subst (λ (i : Ulid). is_resolved i rs ≡ false) (sym e) u,
  OneEach-Renamed rs ss m h,
)
OneEach-Renamed [] (s ∷ ss) m h = absurd m
OneEach-Renamed (r ∷ rs) [] m h = absurd m

pub Renamed-OneEach :
    (rows out : List Row) → Renamed (sort_rows rows) out → OneEach rows → OneEach out
Renamed-OneEach rows out m h = OneEach-Renamed (sort_rows rows) out m (OneEach-sort_rows rows h)
