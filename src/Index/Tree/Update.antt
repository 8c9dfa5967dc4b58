-- ===== src/Index/Tree/Update.antt =====
-- An UPDATE that meets no conflict writes every row that its test picks, and no other.
use tdrive.Base.{
  ◌≡◌, refl, sym, ap, ◌∙◌, inl, inr, Bool, true, false, ◌&&◌, ◌||◌, Option, none, some, List, [],
  ◌∷◌, map, arith, Bool-cases, ok,
}
use tdrive.Index.Tree.{Dir, clashes, changed, put_first, update_from, stored, update}

pub put_first_inv :
    (r : Dir) (o : Option (List Dir)) (out : List Dir)
    → put_first r o ≡ some out
    → (rs : List Dir) × (o ≡ some rs) × (r ∷ rs ≡ out)
put_first_inv r none out h = absurd (ground arith)
put_first_inv r (some rs) out h = (rs, refl, cc)

module _ (test : Dir → Bool) (set : Dir → Dir) where
  -- One row: it clashes with no row written before it and none after it, and the rest went well.
  pub update_from-cons :
      (done : List Dir) (r : Dir) (rs out : List Dir)
      → update_from test set done (r ∷ rs) ≡ some out
      → ((test r && (clashes (changed test set r) done || clashes (changed test set r) rs)) ≡ false)
        × (rest : List Dir) × (update_from test set (changed test set r ∷ done) rs ≡ some rest)
        × (changed test set r ∷ rest ≡ out)
  unfolding update_from
  update_from-cons done r rs out h =
      elim (Bool-cases
        (test r && (clashes (changed test set r) done || clashes (changed test set r) rs))) [
          | inl e ↦ absurd (ground (arith, e))
          | inr e ↦
              let (rest, k, f) = put_first_inv (changed test set r) _ out (rw e at h) in
              (e, rest, k, f)
        ]

  pub update_from-map :
      (done rows out : List Dir)
      → update_from test set done rows ≡ some out
      → out ≡ map (changed test set) rows
  unfolding update_from
  update_from-map done [] out h = cc
  update_from-map done (r ∷ rs) out h =
      let (e, rest, k, f) = update_from-cons done r rs out h in
      sym f
      ∙ ap (λ (t : List Dir). changed test set r ∷ t)
          (update_from-map (changed test set r ∷ done) rs rest k)

  pub update_inv :
      (rows out : List Dir)
      → update test set rows ≡ ok out
      → update_from test set [] rows ≡ some out
  unfolding update
  update_inv rows out h = of (update_from test set [] rows) h
    where
      of : (o : Option (List Dir)) → stored o ≡ ok out → o ≡ some out
      of none e = absurd (ground arith)
      of (some t) e = ground (arith, e)

  pub update-map :
      (rows out : List Dir) → update test set rows ≡ ok out → out ≡ map (changed test set) rows
  update-map rows out h = update_from-map [] rows out (update_inv rows out h)

pub changed-true :
    (test : Dir → Bool) (set : Dir → Dir) (r : Dir) → test r ≡ true → changed test set r ≡ set r
changed-true test set r e = rw e refl

pub changed-false :
    (test : Dir → Bool) (set : Dir → Dir) (r : Dir) → test r ≡ false → changed test set r ≡ r
changed-false test set r e = rw e refl

pub changed_id :
    (test : Dir → Bool) (set : Dir → Dir)
    → ((r : Dir) → (set r).id ≡ r.id)
    → (r : Dir) → (changed test set r).id ≡ r.id
changed_id test set keeps r = elim (Bool-cases (test r)) [
  | inl e ↦ ap (λ (s : Dir). s.id) (changed-true test set r e) ∙ keeps r
  | inr e ↦ ap (λ (s : Dir). s.id) (changed-false test set r e)
]
