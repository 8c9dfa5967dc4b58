-- ===== src/Index/Messages/Listed.antt =====
-- Which messages SubtreeMessages lists.
use mathlib.Core.List.{Memᴰ}
use mathlib.Core.List.Memᴰ
use tdrive.Base.{
  ℕ, ◌≡◌, refl, sym, ap, ◌∙◌, subst, ◌⊎◌, inl, inr, Bool, true, false, Option, some, List, [], ◌∷◌,
  ◌++◌, arith, ◌==◌, Bool-cases, if◌then◌else◌, choose_true, choose_false, ok,
}
use tdrive.Names.Path.{Text, slash}
use tdrive.Index.Like.{Like}
use tdrive.Index.Like.Subtree.{has_prefix_fold, like-subtree_pattern}
use tdrive.Index.Tree.{Dir, dir_by_id, has_id}
use tdrive.Index.Tree.Distinct.{dir_by_id-id}
use tdrive.Index.Messages.{
  FileRow, Segment, TgMessage, in_subtree, subtree, dir_messages, message, segment_messages, dir_in,
  file_messages, messages_below, subtree_messages,
}

has_id-subtree :
    (l : Like) (id : ℕ) (root : Text) (p : ℕ) (rows : List Dir) (r : Dir)
    → dir_by_id p rows ≡ some r
    → in_subtree l id root r ≡ true
    → has_id p (subtree l id root rows) ≡ true
unfolding subtree
has_id-subtree l id root p [] r h k = absurd (ground arith)
has_id-subtree l id root p (s ∷ ss) r h k = elim (Bool-cases (s.id == p)) [
  | inl e ↦
      let f : some s ≡ some r = (rw e at h) in
      let g : in_subtree l id root s ≡ true = ground (arith, f, k) in
      ap (has_id p) (choose_true _ _ g) ∙ rw e refl
  | inr e ↦
      let ih = has_id-subtree l id root p ss r (rw e at h) k in
      elim (Bool-cases (in_subtree l id root s)) [
        | inl g ↦ ap (has_id p) (choose_true _ _ g) ∙ rw e ih
        | inr g ↦ ap (has_id p) (choose_false _ _ g) ∙ ih
      ]
]

-- Entries of the rest stay, whatever is put in front of it.
kept_if :
    (b : Bool) (m t : TgMessage) (rest : List TgMessage)
    → Memᴰ m rest
    → Memᴰ m (if b then t ∷ rest else rest)
kept_if true m t rest h = Memᴰ.tail h
kept_if false m t rest h = h

segment_messages-lists :
    (f : FileRow) (segments : List Segment) (s : Segment)
    → Memᴰ s segments
    → s.file_id ≡ f.id
    → Memᴰ (message f s) (segment_messages f segments)
unfolding segment_messages
segment_messages-lists f [] s m e = elim m [ ]
segment_messages-lists f (t ∷ ss) s (Memᴰ.head h) e =
    subst (Memᴰ (message f s)) (sym (choose_true _ _ own)) (Memᴰ.head (ap (message f) h))
  where
    own : (t.file_id == f.id) ≡ true
    own = let g = ap (λ (x : Segment). x.file_id) h in ground arith
segment_messages-lists f (t ∷ ss) s (Memᴰ.tail m) e =
    kept_if (t.file_id == f.id) (message f s) (message f t) (segment_messages f ss)
      (segment_messages-lists f ss s m e)

file_messages-lists :
    (dirs : List Dir) (files : List FileRow) (segments : List Segment) (f : FileRow) (s : Segment)
    → dir_in (f.dir_id) dirs ≡ true
    → Memᴰ f files
    → Memᴰ s segments
    → s.file_id ≡ f.id
    → Memᴰ (message f s) (file_messages dirs files segments)
unfolding file_messages
file_messages-lists dirs [] segments f s d m k e = elim m [ ]
file_messages-lists dirs (g ∷ fs) segments f s d (Memᴰ.head h) k e =
    Memᴰ.append_left (file_messages dirs fs segments) (
      subst (Memᴰ (message f s))
        (sym (choose_true _ _ (ap (λ (x : FileRow). dir_in (x.dir_id) dirs) (sym h) ∙ d)))
        (subst (λ (x : FileRow). Memᴰ (message f s) (segment_messages x segments)) h
          (segment_messages-lists f segments s k e)))
file_messages-lists dirs (g ∷ fs) segments f s d (Memᴰ.tail m) k e =
    Memᴰ.append_right _ (file_messages-lists dirs fs segments f s d m k e)

-- SubtreeMessages of a directory lists the message of each segment of each file that is in the
-- directory, or in one whose path begins with the directory's path and a slash when the case of
-- ASCII letters is put aside: in the descendants, and in those of a directory that is another one,
-- spelled in another case.
pub subtree_messages-lists :
    (l : Like) (id : ℕ) (rows : List Dir) (files : List FileRow) (segments : List Segment) (d : Dir)
    (p : ℕ) (r : Dir) (f : FileRow) (s : Segment)
    → dir_by_id id rows ≡ some d
    → dir_by_id p rows ≡ some r
    → (p ≡ id) ⊎ (has_prefix_fold (d.path ++ slash ∷ []) (r.path) ≡ true)
    → f.dir_id ≡ some p
    → Memᴰ f files
    → Memᴰ s segments
    → s.file_id ≡ f.id
    → (msgs : List TgMessage) × (subtree_messages l id rows files segments ≡ ok msgs)
      × Memᴰ (message f s) msgs
unfolding subtree_messages
subtree_messages-lists l id rows files segments d p r f s h k b e m n o = (
  dir_messages (subtree l id (d.path) rows)
      ++ file_messages (subtree l id (d.path) rows) files segments,
  ap (messages_below l id rows files segments) h,
  Memᴰ.append_right (dir_messages (subtree l id (d.path) rows)) (
      file_messages-lists (subtree l id (d.path) rows) files segments f s
        (ap (λ (x : Option ℕ). dir_in x (subtree l id (d.path) rows)) e
          ∙ has_id-subtree l id (d.path) p rows r k there)
        m n o),
)
  where
    there : in_subtree l id (d.path) r ≡ true
    there = elim b [
      | inl y ↦ let z = dir_by_id-id p rows r k in ground arith
      | inr y ↦ let z = like-subtree_pattern l (d.path) (r.path) ∙ y in ground arith
    ]
