-- ===== src/Index/Tree/Moves.antt =====
-- Renaming and moving a directory keep the index a tree.
use tdrive.Base.{
  ℕ, ◌≡◌, ◌≢◌, refl, sym, ap, ◌∙◌, subst, ◌⊎◌, inl, inr, true, false, Option, none, some, List, [],
  ◌∷◌, ◌++◌, append_assoc, map, arith, ◌==◌, length, drop, Bool-cases, ok,
}
use tdrive.Names.Path.{Text, slash, contains_rune}
use tdrive.Index.Like.{Like}
use tdrive.Index.Tree.{Dir, dir_by_id, rebased, relocate}
use tdrive.Index.Tree.Distinct.{path_id}
use tdrive.Index.Tree.Prefix.{
  below_parent, has_prefix-append, has_prefix-at, drop-at, drop-below, below_length, not_nil,
}
use tdrive.Index.Tree.Relocations.{Relocation, expected, AsExpected}
use tdrive.Index.Tree.Relocations
use tdrive.Index.Tree.Placed.{
  Under, IsPlaced, IsTree, below_exactly, relocated, relocate-map, dir_by_id-map,
}

module _ (l : Like) (rows : List Dir) (id : ℕ) (set : Dir → Dir) (d : Dir) (new : Text) (now : ℕ)
    (m : Relocation rows id set d new) where
  abbrev old : Text
  old = d.path

  abbrev moves : Dir → Dir
  moves = rebased l old new now

  abbrev after : Dir → Dir
  after = relocated l id set old new now

  itself-IsPlaced : IsPlaced (map after rows) (set d)
  itself-IsPlaced = record {
    base = m.base;
    under =
        Relocations.stays_outside l rows id set d new now m ((set d).parent_id) (m.base) (m.under)
          (m.outside) (m.elsewhere);
    placed = m.set_path ∙ m.at;
    one_name = m.one_name;
  }

  -- An entry of the directory that moves.
  child-IsPlaced :
      (r : Dir)
      → r.parent_id ≡ some id
      → r.path ≡ old ++ slash ∷ r.name
      → contains_rune slash (r.name) ≡ false
      → IsPlaced (map after rows) (moves r)
  unfolding rebased
  child-IsPlaced r e f n = record {
    base = new;
    under =
        subst (λ (t : Option ℕ). Under (map after rows) t new) (sym e)
          (
            set d,
            Relocations.found_after l rows id set d new now m id d (m.here)
                ∙ ap (λ (x : Dir). some x) (Relocations.after_itself l rows id set d new now m),
            m.set_path,
          );
    placed =
        Relocations.moves_path l rows id set d new now m r
        ∙ ap (λ (t : Text). new ++ drop (length old) t) f
        ∙ ap (λ (t : Text). new ++ t) (drop-at old (slash ∷ r.name));
    one_name = n;
  }

  -- An entry of a directory further down.
  deep-IsPlaced :
      (r q : Dir) (pp : ℕ)
      → r.parent_id ≡ some pp
      → dir_by_id pp rows ≡ some q
      → (pp == id) ≡ false
      → below_exactly old (q.path) ≡ true
      → r.path ≡ q.path ++ slash ∷ r.name
      → contains_rune slash (r.name) ≡ false
      → IsPlaced (map after rows) (moves r)
  unfolding rebased
  deep-IsPlaced r q pp e h k b f n = record {
    base = (moves q).path;
    under =
        subst (λ (t : Option ℕ). Under (map after rows) t ((moves q).path)) (sym e)
          (
            moves q,
            Relocations.found_after l rows id set d new now m pp q h
                ∙ ap (λ (x : Dir). some x)
                    (Relocations.after_below l rows id set d new now m pp q h k b),
            refl,
          );
    placed =
        Relocations.moves_path l rows id set d new now m r
        ∙ ap (λ (t : Text). new ++ drop (length old) t) f
        ∙ ap (λ (t : Text). new ++ t) (drop-below old (q.path) (slash ∷ r.name) b)
        ∙ sym (append_assoc new (drop (length old) (q.path)) (slash ∷ r.name))
        ∙ ap (λ (t : Text). t ++ slash ∷ r.name)
            (sym (Relocations.moves_path l rows id set d new now m q));
    one_name = n;
  }

  nonempty : old ≢ []
  nonempty e =
      let at_d = m.tree.places id d (m.here) in not_nil (at_d.base) (d.name) (sym (at_d.placed) ∙ e)

  below-IsPlaced :
      (r : Dir)
      → IsPlaced rows r
      → below_exactly old (r.path) ≡ true
      → IsPlaced (map after rows) (moves r)
  below-IsPlaced r k b = under_some (r.parent_id) refl (k.under)
    where
      above : (below_exactly old (k.base) ≡ true) ⊎ (old ≡ k.base)
      above =
          below_parent old (k.base) (r.name) (k.one_name)
            (sym (ap (below_exactly old) (k.placed)) ∙ b)

      at_path : (q : Dir) → q.path ≡ k.base → r.path ≡ q.path ++ slash ∷ r.name
      at_path q e = k.placed ∙ ap (λ (t : Text). t ++ slash ∷ r.name) (sym e)

      under_some :
          (parent : Option ℕ)
          → r.parent_id ≡ parent
          → Under rows parent (k.base)
          → IsPlaced (map after rows) (moves r)
      under_some none e u = elim above [
        | inl y ↦ absurd (ground (arith, below_length old (k.base) y, ap length u))
        | inr y ↦ absurd (nonempty (y ∙ u))
      ]
      under_some (some pp) e (q, h, f) = elim (Bool-cases (pp == id)) [
        | inl w ↦
            child-IsPlaced r (e ∙ ap (λ (x : ℕ). some x) (ground arith))
              (at_path q f
                ∙ ap (λ (x : Dir). x.path ++ slash ∷ r.name)
                    (sym (Relocations.found_itself l rows id set d new now m pp q h w)))
              (k.one_name)
        | inr w ↦ elim above [
          | inl y ↦
              deep-IsPlaced r q pp e h w (ap (below_exactly old) f ∙ y) (at_path q f) (k.one_name)
          | inr y ↦
              let z = path_id id pp rows d q (m.tree.distinct) (m.here) h (y ∙ sym f) in
              absurd (ground arith)
        ]
      ]

  outside-IsPlaced :
      (r : Dir) → IsPlaced rows r → below_exactly old (r.path) ≡ false → IsPlaced (map after rows) r
  outside-IsPlaced r k b = record {
    base = k.base;
    under =
        Relocations.stays_outside l rows id set d new now m (r.parent_id) (k.base) (k.under)
          not_deep not_child;
    placed = k.placed;
    one_name = k.one_name;
  }
    where
      not_deep : below_exactly old (k.base) ≡ false
      not_deep = elim (Bool-cases (below_exactly old (k.base))) [
        | inl y ↦
            let z = ap (below_exactly old) (k.placed) in
            let w = has_prefix-append (old ++ slash ∷ []) (k.base) (slash ∷ r.name) y in
            absurd (ground arith)
        | inr y ↦ y
      ]

      not_child : old ≢ k.base
      not_child e =
          let z =
            ap (below_exactly old) (k.placed ∙ ap (λ (t : Text). t ++ slash ∷ r.name) (sym e)) in
          let w = has_prefix-at old (r.name) in absurd (ground arith)

  after-IsPlaced :
      (p : ℕ) (r : Dir) → dir_by_id p rows ≡ some r → IsPlaced (map after rows) (after r)
  after-IsPlaced p r h = elim (Bool-cases (p == id)) [
    | inl e ↦
        subst (IsPlaced (map after rows))
          (sym (Relocations.after_itself l rows id set d new now m)
            ∙ ap after (Relocations.found_itself l rows id set d new now m p r h e))
          itself-IsPlaced
    | inr e ↦ elim (Bool-cases (below_exactly old (r.path))) [
      | inl b ↦
          subst (IsPlaced (map after rows))
            (sym (Relocations.after_below l rows id set d new now m p r h e b))
            (below-IsPlaced r (m.tree.places p r h) b)
      | inr b ↦
          subst (IsPlaced (map after rows))
            (sym (Relocations.after_others l rows id set d new now m p r h e b))
            (outside-IsPlaced r (m.tree.places p r h) b)
    ]
  ]

  pub relocate-IsTree :
      (parent : Option ℕ) (out : List Dir)
      → relocate l id parent set new now (some d) rows ≡ ok out
      → IsTree out × AsExpected (expected id set old new now) rows out
  relocate-IsTree parent out h =
      let (e, dist) = relocate-map l id parent set new now d rows out h (m.tree.distinct) in
      (
        record {
          distinct = dist;
          places = λ p r k.
              let (s, a, b) =
                dir_by_id-map after (Relocations.after_id l rows id set d new now m) p rows r
                  (sym (ap (dir_by_id p) e) ∙ k) in
              subst (IsPlaced out) b
                (subst (λ (t : List Dir). IsPlaced t (after s)) (sym e) (after-IsPlaced p s a));
        },
        λ p r k.
            ap (dir_by_id p) e
            ∙ Relocations.found_after l rows id set d new now m p r k
            ∙ ap (λ (x : Dir). some x) (Relocations.after-expected l rows id set d new now m p r k),
      )
