-- ===== src/Index/Tree/Placed.antt =====
-- The paths that the rows keep are those of the tree, also after a directory is renamed or moved.
use tdrive.Base.{
  ℕ, ◌≡◌, refl, sym, ap, ◌∙◌, subst, inl, inr, Bool, true, false, Option, none, some, List, [], ◌∷◌,
  ◌++◌, map, arith, ◌==◌, Bool-cases, Result, ok, err, ◌>>=◌, All,
}
use tdrive.Names.Path.{Text, slash, has_prefix, contains_rune}
use tdrive.Index.Like.{Like}
use tdrive.Index.Like.Subtree.{has_prefix_fold}
use tdrive.Index.Tree.{
  Dir, DbError, dir_by_id, changed, update, referenced, parent_there, affected_one, has_id, below,
  rebased, relocate,
}
use tdrive.Index.Tree.Update.{update-map}
use tdrive.Index.Tree.Distinct.{Distinct, update-Distinct}

-- The path that names in a directory are put behind, empty for the root.
abbrev pub Under : List Dir → Option ℕ → Text → Type 0
Under rows none base = base ≡ []
Under rows (some p) base = (q : Dir) × (dir_by_id p rows ≡ some q) × (q.path ≡ base)

pub record IsPlaced (rows : List Dir) (r : Dir) : Type 0 where
  pub base : Text
  pub under : Under rows (r.parent_id) base
  pub placed : r.path ≡ base ++ slash ∷ r.name
  pub one_name : contains_rune slash (r.name) ≡ false

-- The unique indexes hold, and each path is that of the parent with the name behind it.
pub record IsTree (rows : List Dir) : Type 0 where
  pub distinct : Distinct rows
  pub places : (p : ℕ) (r : Dir) → dir_by_id p rows ≡ some r → IsPlaced rows r

abbrev pub below_exactly : Text → Text → Bool
below_exactly old path = has_prefix (old ++ slash ∷ []) path

-- No directory lies below a path that is the given one but for the case of letters.
abbrev pub NoVariant : Text → List Dir → Type 0
NoVariant old rows =
    (p : ℕ) (r : Dir)
    → dir_by_id p rows ≡ some r
    → has_prefix_fold (old ++ slash ∷ []) (r.path) ≡ below_exactly old (r.path)

dir_by_id-head :
    (p : ℕ) (s : Dir) (ss : List Dir) → (s.id == p) ≡ true → dir_by_id p (s ∷ ss) ≡ some s
dir_by_id-head p s ss e = rw e refl

dir_by_id-tail :
    (p : ℕ) (s : Dir) (ss : List Dir) → (s.id == p) ≡ false → dir_by_id p (s ∷ ss) ≡ dir_by_id p ss
dir_by_id-tail p s ss e = rw e refl

some_inj : (r s : Dir) → some r ≡ some s → r ≡ s
some_inj r s e = ground arith

-- A change that keeps the ids is seen by every lookup.
module _ (f : Dir → Dir) (keeps : (r : Dir) → (f r).id ≡ r.id) (p : ℕ) where
  same_test : (s : Dir) → ((f s).id == p) ≡ (s.id == p)
  same_test s = ap (λ (n : ℕ). n == p) (keeps s)

  pub map-dir_by_id :
      (rows : List Dir) (s : Dir)
      → dir_by_id p rows ≡ some s
      → dir_by_id p (map f rows) ≡ some (f s)
  map-dir_by_id [] s h = absurd (ground arith)
  map-dir_by_id (t ∷ ts) s h = elim (Bool-cases (t.id == p)) [
    | inl e ↦
        dir_by_id-head p (f t) (map f ts) (same_test t ∙ e)
        ∙ ap (λ (x : Dir). some (f x)) (some_inj t s (sym (dir_by_id-head p t ts e) ∙ h))
    | inr e ↦
        dir_by_id-tail p (f t) (map f ts) (same_test t ∙ e)
        ∙ map-dir_by_id ts s (sym (dir_by_id-tail p t ts e) ∙ h)
  ]

  pub dir_by_id-map :
      (rows : List Dir) (r : Dir)
      → dir_by_id p (map f rows) ≡ some r
      → (s : Dir) × (dir_by_id p rows ≡ some s) × (f s ≡ r)
  dir_by_id-map [] r h = absurd (ground arith)
  dir_by_id-map (s ∷ ss) r h = elim (Bool-cases (s.id == p)) [
    | inl e ↦ (
      s,
      dir_by_id-head p s ss e,
      some_inj (f s) r (sym (dir_by_id-head p (f s) (map f ss) (same_test s ∙ e)) ∙ h),
    )
    | inr e ↦
        let (t, k, g) =
          dir_by_id-map ss r (sym (dir_by_id-tail p (f s) (map f ss) (same_test s ∙ e)) ∙ h) in
        (t, dir_by_id-tail p s ss e ∙ k, g)
  ]

-- A successful relocation is two updates, one after the other.
relocate_inv :
    (l : Like) (id : ℕ) (parent : Option ℕ) (set : Dir → Dir) (new : Text) (now : ℕ) (d : Dir)
    (rows out : List Dir)
    → relocate l id parent set new now (some d) rows ≡ ok out
    → (mid : List Dir) × (update (λ r. r.id == id) set rows ≡ ok mid)
      × (update (below l (d.path)) (rebased l (d.path) new now) mid ≡ ok out)
unfolding relocate referenced affected_one
relocate_inv l id parent set new now d rows out h = of (update (λ r. r.id == id) set rows) refl h
  where
    of :
        (o : Result DbError (List Dir))
        → update (λ r. r.id == id) set rows ≡ o
        → (o >>= λ w. referenced parent w >>= λ t.
            affected_one id t >>= λ u. update (below l (d.path)) (rebased l (d.path) new now) u)
          ≡ ok out
        → (mid : List Dir) × (update (λ r. r.id == id) set rows ≡ ok mid)
          × (update (below l (d.path)) (rebased l (d.path) new now) mid ≡ ok out)
    of (err e) p k = absurd (ground arith)
    of (ok mid) p k = elim (Bool-cases (parent_there parent mid)) [
      | inl a ↦ elim (Bool-cases (has_id id mid)) [
        | inl b ↦ (mid, p, rw (a, b) at k)
        | inr b ↦ absurd (ground (arith, rw (a, b) at k))
      ]
      | inr a ↦ absurd (ground (arith, rw a at k))
    ]

-- What a relocation makes of a row.
abbrev pub relocated : Like → ℕ → (Dir → Dir) → Text → Text → ℕ → Dir → Dir
relocated l id set old new now r =
    changed (below l old) (rebased l old new now) (changed (λ s. s.id == id) set r)

map-map : (f g : Dir → Dir) (rows : List Dir) → map f (map g rows) ≡ map (λ r. f (g r)) rows
map-map f g [] = refl
map-map f g (r ∷ rs) = ap (λ (t : List Dir). f (g r) ∷ t) (map-map f g rs)

pub relocate-map :
    (l : Like) (id : ℕ) (parent : Option ℕ) (set : Dir → Dir) (new : Text) (now : ℕ) (d : Dir)
    (rows out : List Dir)
    → relocate l id parent set new now (some d) rows ≡ ok out
    → Distinct rows
    → (out ≡ map (relocated l id set (d.path) new now) rows) × Distinct out
relocate-map l id parent set new now d rows out h dist =
    let (mid, a, b) = relocate_inv l id parent set new now d rows out h in
    let first = λ (r : Dir). r.id == id in
    let lower = below l (d.path) in
    let write = rebased l (d.path) new now in
    (
      update-map lower write mid out b
          ∙ ap (map (changed lower write)) (update-map first set rows mid a)
          ∙ map-map (changed lower write) (changed first set) rows,
      update-Distinct lower write mid out b (update-Distinct first set rows mid a dist),
    )

-- What holds of all rows holds of every row that is found.
pub found-All :
    (P : Dir → Type 0) (p : ℕ) (rows : List Dir) (r : Dir)
    → All P rows
    → dir_by_id p rows ≡ some r
    → P r
found-All P p [] r a h = absurd (ground arith)
found-All P p (s ∷ ss) r a h = elim (Bool-cases (s.id == p)) [
  | inl e ↦ subst P (some_inj s r (sym (dir_by_id-head p s ss e) ∙ h)) (a.0)
  | inr e ↦ found-All P p ss r (a.1) (sym (dir_by_id-tail p s ss e) ∙ h)
]
