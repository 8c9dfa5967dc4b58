-- ===== src/Index/Tree/Relocations.antt =====
-- What a relocation makes of each row.
use tdrive.Base.{
  ℕ, ◌≡◌, ◌≢◌, refl, sym, ap, ◌∙◌, subst, inl, inr, Bool, true, false, Option, none, some, List, [],
  ◌∷◌, ◌++◌, map, arith, ◌==◌, if◌then◌else◌, length, drop, Bool-cases, choose_true, choose_false,
}
use tdrive.Names.Path.{Text, slash, contains_rune}
use tdrive.Index.Like.{Like}
use tdrive.Index.Like.Subtree.{has_prefix_fold, like-subtree_pattern}
use tdrive.Index.Tree.{Dir, dir_by_id, changed, below, rebased, prefix_cut}
use tdrive.Index.Tree.Update.{changed-true, changed-false, changed_id}
use tdrive.Index.Tree.Distinct.{dir_by_id-id}
use tdrive.Index.Tree.Placed.{Under, IsTree, NoVariant, below_exactly, relocated, map-dir_by_id}

pub record Relocation (rows : List Dir) (id : ℕ) (set : Dir → Dir) (d : Dir) (new : Text)
    : Type 0 where
  pub tree : IsTree rows
  pub here : dir_by_id id rows ≡ some d
  pub no_variant : NoVariant (d.path) rows
  -- the new place
  pub base : Text
  pub under : Under rows ((set d).parent_id) base
  pub at : new ≡ base ++ slash ∷ (set d).name
  pub one_name : contains_rune slash ((set d).name) ≡ false
  pub outside : below_exactly (d.path) base ≡ false
  pub elsewhere : d.path ≢ base
  pub new_outside : has_prefix_fold (d.path ++ slash ∷ []) new ≡ false
  pub set_path : (set d).path ≡ new
  pub keeps : (r : Dir) → (set r).id ≡ r.id

-- What a relocation is meant to make of a row, by the prefixes of paths.
abbrev pub expected : ℕ → (Dir → Dir) → Text → Text → ℕ → Dir → Dir
expected id set old new now r =
    if r.id == id
    then set r
    else if below_exactly old (r.path)
    then record r { path = new ++ drop (length old) (r.path); updated_at = now }
    else r

-- Every lookup finds what is expected.
abbrev pub AsExpected : (Dir → Dir) → List Dir → List Dir → Type 0
AsExpected change rows out =
    (p : ℕ) (r : Dir) → dir_by_id p rows ≡ some r → dir_by_id p out ≡ some (change r)

module _ (l : Like) (rows : List Dir) (id : ℕ) (set : Dir → Dir) (d : Dir) (new : Text) (now : ℕ)
    (m : Relocation rows id set d new) where
  abbrev pub old : Text
  old = d.path

  abbrev pub itself : Dir → Bool
  itself r = r.id == id

  abbrev pub moves : Dir → Dir
  moves = rebased l old new now

  abbrev pub after : Dir → Dir
  after = relocated l id set old new now

  pub after_id : (r : Dir) → (after r).id ≡ r.id
  unfolding rebased
  after_id r =
      changed_id (below l old) moves (λ s. refl) (changed itself set r)
      ∙ changed_id itself set (m.keeps) r

  -- The three kinds of rows.
  pub after_itself : after d ≡ set d
  after_itself =
      ap (changed (below l old) moves) (changed-true itself set d is_itself)
      ∙ changed-false (below l old) moves (set d)
          (like-subtree_pattern l old ((set d).path) ∙ stays)
    where
      is_itself : (d.id == id) ≡ true
      is_itself = let e = dir_by_id-id id rows d (m.here) in ground arith

      stays : has_prefix_fold (old ++ slash ∷ []) ((set d).path) ≡ false
      stays = ap (has_prefix_fold (old ++ slash ∷ [])) (m.set_path) ∙ m.new_outside

  module _ (p : ℕ) (r : Dir) (h : dir_by_id p rows ≡ some r) (n : (p == id) ≡ false) where
    left_alone : changed itself set r ≡ r
    left_alone = changed-false itself set r (ap (λ (k : ℕ). k == id) (dir_by_id-id p rows r h) ∙ n)

    below_test : below l old r ≡ below_exactly old (r.path)
    below_test = like-subtree_pattern l old (r.path) ∙ m.no_variant p r h

    pub after_below : below_exactly old (r.path) ≡ true → after r ≡ moves r
    after_below b =
        ap (changed (below l old) moves) left_alone
        ∙ changed-true (below l old) moves r (below_test ∙ b)

    pub after_others : below_exactly old (r.path) ≡ false → after r ≡ r
    after_others b =
        ap (changed (below l old) moves) left_alone
        ∙ changed-false (below l old) moves r (below_test ∙ b)

  pub moves_path : (r : Dir) → (moves r).path ≡ new ++ drop (length old) (r.path)
  unfolding prefix_cut
  moves_path r = ap (λ (k : ℕ). new ++ drop k (r.path)) (omega arith)

  -- What stands at an id, afterwards.
  pub found_after :
      (p : ℕ) (r : Dir) → dir_by_id p rows ≡ some r → dir_by_id p (map after rows) ≡ some (after r)
  found_after p r h = map-dir_by_id after after_id p rows r h

  pub stays_outside :
      (parent : Option ℕ) (base : Text)
      → Under rows parent base
      → below_exactly old base ≡ false
      → old ≢ base
      → Under (map after rows) parent base
  stays_outside none base u b e = u
  stays_outside (some p) base (q, h, k) b e =
      (q, found_after p q h ∙ ap (λ (x : Dir). some x) (after_others p q h not_it not_there), k)
    where
      not_it : (p == id) ≡ false
      not_it = elim (Bool-cases (p == id)) [
        | inl y ↦ absurd (e (ap (λ (x : Dir). x.path) (some_is (ground arith)) ∙ k))
        | inr y ↦ y
      ]
        where
          some_is : p ≡ id → d ≡ q
          some_is w =
              let g : some d ≡ some q =
                sym (m.here) ∙ sym (ap (λ (x : ℕ). dir_by_id x rows) w) ∙ h in
              ground arith

      not_there : below_exactly old (q.path) ≡ false
      not_there = ap (below_exactly old) k ∙ b

  pub found_itself : (pp : ℕ) (q : Dir) → dir_by_id pp rows ≡ some q → (pp == id) ≡ true → d ≡ q
  found_itself pp q h e =
      let w : pp ≡ id = ground arith in
      let g : some d ≡ some q = sym (m.here) ∙ sym (ap (λ (x : ℕ). dir_by_id x rows) w) ∙ h in
      ground arith

  pub after-expected :
      (p : ℕ) (r : Dir) → dir_by_id p rows ≡ some r → after r ≡ expected id set old new now r
  unfolding prefix_cut rebased
  after-expected p r h = elim (Bool-cases (p == id)) [
    | inl e ↦
        subst (λ (x : Dir). after x ≡ expected id set old new now x) (found_itself p r h e)
          (after_itself
            ∙ sym (
                choose_true (set d) _
                  (ap (λ (k : ℕ). k == id) (dir_by_id-id id rows d (m.here)) ∙ self)))
    | inr e ↦ elim (Bool-cases (below_exactly old (r.path))) [
      | inl b ↦
          after_below p r h e b
          ∙ ap (λ (k : ℕ). record r { path = new ++ drop k (r.path); updated_at = now })
              (omega arith)
          ∙ sym (choose_false _ _ (other e) ∙ choose_true _ _ b)
      | inr b ↦ after_others p r h e b ∙ sym (choose_false _ _ (other e) ∙ choose_false _ _ b)
    ]
  ]
    where
      self : (id == id) ≡ true
      self = ground arith

      other : (p == id) ≡ false → (r.id == id) ≡ false
      other e = ap (λ (k : ℕ). k == id) (dir_by_id-id p rows r h) ∙ e
