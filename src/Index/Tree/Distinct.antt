-- ===== src/Index/Tree/Distinct.antt =====
-- The unique indexes hold after every statement.
use tdrive.Base.{
  ℕ, ◌≡◌, refl, subst, inl, inr, Bool, true, false, ◌&&◌, ◌||◌, Option, none, some, List, [], ◌∷◌,
  arith, Bool-cases, ok, ◌==◌, All,
}
use tdrive.Names.Path.Equal.{text_eq_sym, same_text}
use tdrive.Index.Tree.{Dir, same_parent, clash, clashes, changed, update_from, update, dir_by_id}
use tdrive.Index.Tree.Update.{update_from-cons, update_inv}

same_parent_sym : (p q : Option ℕ) → same_parent p q ≡ same_parent q p
same_parent_sym none none = refl
same_parent_sym none (some q) = refl
same_parent_sym (some p) none = refl
same_parent_sym (some p) (some q) = ground arith

clash_sym : (r s : Dir) → clash r s ≡ clash s r
clash_sym r s =
    rw
      (
        text_eq_sym (r.path) (s.path),
        same_parent_sym (r.parent_id) (s.parent_id),
        text_eq_sym (r.name) (s.name),
      )
      refl

abbrev pub Apart : Dir → List Dir → Type 0
Apart r rows = clashes r rows ≡ false

-- No two rows have one path, nor one parent and one name.
abbrev pub Distinct : List Dir → Type 0
Distinct [] = Unit
Distinct (r ∷ rs) = Apart r rs × Distinct rs

abbrev AllApart : List Dir → List Dir → Type 0
AllApart done rows = All (λ d. Apart d rows) done

-- Each of `done` is apart from a row exactly when the row is apart from each of `done`.
AllApart-cons :
    (r : Dir) (done rows : List Dir) → Apart r done → AllApart done rows → AllApart done (r ∷ rows)
AllApart-cons r [] rows h k = tt
AllApart-cons r (d ∷ ds) rows h k =
    (ground (arith, clash_sym d r), AllApart-cons r ds rows (ground arith) (k.1))

AllApart-tail : (r : Dir) (done rows : List Dir) → AllApart done (r ∷ rows) → AllApart done rows
AllApart-tail r [] rows h = tt
AllApart-tail r (d ∷ ds) rows h = (ground arith, AllApart-tail r ds rows (h.1))

AllApart-head : (r : Dir) (done rows : List Dir) → AllApart done (r ∷ rows) → Apart r done
AllApart-head r [] rows h = refl
AllApart-head r (d ∷ ds) rows h = ground (arith, clash_sym d r, AllApart-head r ds rows (h.1))

module _ (test : Dir → Bool) (set : Dir → Dir) where
  written-Apart :
      (r : Dir) (done rs : List Dir)
      → (test r && (clashes (changed test set r) done || clashes (changed test set r) rs)) ≡ false
      → Apart r done
      → Apart r rs
      → Apart (changed test set r) done × Apart (changed test set r) rs
  written-Apart r done rs e h k = elim (Bool-cases (test r)) [
    | inl t ↦ ground (arith, t, e)
    | inr t ↦ rw t (h, k)
  ]

  update_from-Distinct :
      (done rows out : List Dir)
      → update_from test set done rows ≡ some out
      → AllApart done rows
      → Distinct rows
      → AllApart done out × Distinct out
  unfolding update_from
  update_from-Distinct done [] out h k d =
      let e : [] ≡ out = ground arith in
      subst (λ (t : List Dir). AllApart done t × Distinct t) e (k, tt)
  update_from-Distinct done (r ∷ rs) out h k d =
      let (e, rest, u, f) = update_from-cons test set done r rs out h in
      let (a, b) = written-Apart r done rs e (AllApart-head r done rs k) (d.0) in
      let ((c, ds), dist) =
        update_from-Distinct (changed test set r ∷ done) rs rest u (b, AllApart-tail r done rs k)
          (d.1) in
      subst (λ (t : List Dir). AllApart done t × Distinct t) f
        (AllApart-cons (changed test set r) done rest a ds, (c, dist))

  pub update-Distinct :
      (rows out : List Dir) → update test set rows ≡ ok out → Distinct rows → Distinct out
  update-Distinct rows out h d =
      (update_from-Distinct [] rows out (update_inv test set rows out h) tt d).1

pub dir_by_id-id : (p : ℕ) (rows : List Dir) (r : Dir) → dir_by_id p rows ≡ some r → r.id ≡ p
dir_by_id-id p [] r h = absurd (ground arith)
dir_by_id-id p (s ∷ ss) r h = elim (Bool-cases (s.id == p)) [
  | inl e ↦ let k : some s ≡ some r = (rw e at h) in ground arith
  | inr e ↦ dir_by_id-id p ss r (rw e at h)
]

found-Apart :
    (p : ℕ) (rows : List Dir) (r s : Dir)
    → dir_by_id p rows ≡ some r
    → Apart s rows
    → clash s r ≡ false
found-Apart p [] r s h a = absurd (ground arith)
found-Apart p (t ∷ ts) r s h a = elim (Bool-cases (t.id == p)) [
  | inl e ↦ let k : some t ≡ some r = (rw e at h) in ground arith
  | inr e ↦ found-Apart p ts r s (rw e at h) (ground arith)
]

clash_path : (r s : Dir) → r.path ≡ s.path → clash r s ≡ true
clash_path r s e = rw (e, same_text (s.path)) refl

-- A path belongs to one id.
pub path_id :
    (p q : ℕ) (rows : List Dir) (r s : Dir)
    → Distinct rows
    → dir_by_id p rows ≡ some r
    → dir_by_id q rows ≡ some s
    → r.path ≡ s.path
    → p ≡ q
path_id p q [] r s d h k e = absurd (ground arith)
path_id p q (t ∷ ts) r s d h k e = elim (Bool-cases (t.id == p)) [
  | inl a ↦ elim (Bool-cases (t.id == q)) [
    | inl b ↦ ground arith
    | inr b ↦
        let f : some t ≡ some r = (rw a at h) in
        let g = found-Apart q ts s t (rw b at k) (d.0) in
        absurd (ground (arith, f, clash_path t s (ground arith)))
  ]
  | inr a ↦ elim (Bool-cases (t.id == q)) [
    | inl b ↦
        let f : some t ≡ some s = (rw b at k) in
        let g = found-Apart p ts r t (rw a at h) (d.0) in
        absurd (ground (arith, f, clash_path t r (ground arith)))
    | inr b ↦ path_id p q ts r s (d.1) (rw a at h) (rw b at k) e
  ]
]
