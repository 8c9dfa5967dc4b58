-- ===== src/Upload/Job/Segments.antt =====
-- Done and PendingSegments against the set of the indices that MaskHas is true of.
use tdrive.Base.{
  ℕ, zero, suc, ◌+◌, ◌≤◌, ◌<◌, ◌≡◌, refl, sym, ◌↔◌, inl, inr, Bool, true, false, ◌&&◌, not, List,
  [], ◌∷◌, arith, leb, ltb, ◌==◌, if◌then◌else◌, Bool-cases, ℕ_discrete,
}
use tdrive.Upload.Mask.{mask_has}
use tdrive.Upload.Job.{UploadJob, all_set, unset_from, done, pending_segments}

-- An index occurs in a list of indices.
abbrev pub occurs : ℕ → List ℕ → Bool
occurs i [] = false
occurs i (x ∷ xs) = if x == i then true else occurs i xs

pub all_set_sound :
    (mask : List ℕ) (from rounds i : ℕ)
    → all_set mask from rounds ≡ true
    → from ≤ i
    → i < from + rounds
    → mask_has mask i ≡ true
all_set_sound mask from zero i h p q = absurd (omega arith)
all_set_sound mask from (suc rounds) i h p q = elim (ℕ_discrete from i) [
  | yes e ↦ rw (sym e) (ground arith)
  | no e ↦ all_set_sound mask (suc from) rounds i (ground arith) (omega arith) (omega arith)
]

pub all_set_complete :
    (mask : List ℕ) (from rounds : ℕ)
    → ((i : ℕ) → from ≤ i → i < from + rounds → mask_has mask i ≡ true)
    → all_set mask from rounds ≡ true
all_set_complete mask from zero h = refl
all_set_complete mask from (suc rounds) h =
    rw (h from (omega arith) (omega arith))
      (all_set_complete mask (suc from) rounds (λ i p q. h i (omega arith) (omega arith)))

-- The indices from `from` on that are not set, among the next `rounds`.
abbrev wanted : List ℕ → ℕ → ℕ → ℕ → Bool
wanted mask from rounds i = leb from i && ltb i (from + rounds) && not (mask_has mask i)

wanted_set :
    (mask : List ℕ) (from rounds i : ℕ)
    → mask_has mask from ≡ true
    → wanted mask (suc from) rounds i ≡ wanted mask from (suc rounds) i
wanted_set mask from rounds i h = elim (ℕ_discrete from i) [
  | yes e ↦ rw (sym e, h) (ground arith)
  | no e ↦ ground arith
]

wanted_unset :
    (mask : List ℕ) (from rounds i : ℕ)
    → mask_has mask from ≡ false
    → (if from == i then true else wanted mask (suc from) rounds i)
      ≡ wanted mask from (suc rounds) i
wanted_unset mask from rounds i h = elim (ℕ_discrete from i) [
  | yes e ↦ rw (sym e, h) (ground arith)
  | no e ↦ ground arith
]

unset_from-wanted :
    (mask : List ℕ) (from rounds i : ℕ)
    → occurs i (unset_from mask from rounds) ≡ wanted mask from rounds i
unset_from-wanted mask from zero i = ground arith
unset_from-wanted mask from (suc rounds) i = elim (Bool-cases (mask_has mask from)) [
  | inl e ↦ rw (e, unset_from-wanted mask (suc from) rounds i) (wanted_set mask from rounds i e)
  | inr e ↦ rw (e, unset_from-wanted mask (suc from) rounds i) (wanted_unset mask from rounds i e)
]

unset_from-all_set :
    (mask : List ℕ) (from rounds : ℕ)
    → (all_set mask from rounds ≡ true) ↔ (unset_from mask from rounds ≡ [])
unset_from-all_set mask from zero = ((λ h. refl), (λ h. refl))
unset_from-all_set mask from (suc rounds) = elim (Bool-cases (mask_has mask from)) [
  | inl e ↦ rw e (unset_from-all_set mask (suc from) rounds)
  | inr e ↦ rw e ((λ h. absurd (ground arith)), (λ h. absurd (ground arith)))
]

-- PendingSegments lists an index exactly when it is one of the job's, from 1 to the segment count, and
-- its segment has not landed; and Done is true exactly when the list is empty.
pub occurs-pending_segments :
    (j : UploadJob) (i : ℕ)
    → (occurs i (pending_segments j)
        ≡ (leb 1 i && ltb i (1 + j.segment_count) && not (mask_has (j.done_mask) i)))
      × ((done j ≡ true) ↔ (pending_segments j ≡ []))
unfolding pending_segments done
occurs-pending_segments j i = (
  unset_from-wanted (j.done_mask) 1 (j.segment_count) i,
  unset_from-all_set (j.done_mask) 1 (j.segment_count),
)
