-- ===== src/Upload/Job/Accounting.antt =====
-- What MarkSegmentDone keeps true of the row: the bitset, the bytes counted and the status agree.
use tdrive.Base.{
  ℕ, zero, suc, ◌+◌, ◌≤◌, ◌<◌, ◌≡◌, refl, sym, ◌↔◌, ◌⊎◌, inl, inr, Bool, true, false, ◌||◌, List,
  arith, ◌==◌, if◌then◌else◌, Bool-cases, ℕ_discrete, ok, err,
}
use tdrive.Upload.Mask.{mask_has, mask_set}
use tdrive.Upload.Mask.Membership.{IsBytes, mask_has-mask_set}
use tdrive.Upload.Job.{
  running, complete, aborted, UploadJob, job_finished, all_set, done, record_segment,
  mark_segment_done,
}

-- The bytes of the segments 1 to n that have landed, each counted once.
abbrev pub landed : (ℕ → ℕ) → List ℕ → ℕ → ℕ
landed size mask zero = 0
landed size mask (suc n) = landed size mask n + (if mask_has mask (suc n) then size (suc n) else 0)

pub record IsConsistent (size : ℕ → ℕ) (j : UploadJob) : Type 0 where
  pub bytes : IsBytes (j.done_mask)
  pub accounted : j.uploaded_bytes ≡ landed size (j.done_mask) (j.segment_count)

has_set :
    (mask : List ℕ) (i k : ℕ)
    → IsBytes mask
    → 0 < i
    → mask_has (mask_set mask i) k ≡ (i == k || mask_has mask k)
has_set mask i k b p = (mask_has-mask_set mask i k b p).0

landed_beyond :
    (size : ℕ → ℕ) (mask : List ℕ) (i n : ℕ)
    → IsBytes mask
    → n < i
    → landed size (mask_set mask i) n ≡ landed size mask n
landed_beyond size mask i zero b h = refl
landed_beyond size mask i (suc n) b h =
    rw (landed_beyond size mask i n b (omega arith), has_set mask i (suc n) b (omega arith))
      (ground arith)

-- A segment that had not landed adds its size.
landed_new :
    (size : ℕ → ℕ) (mask : List ℕ) (i n : ℕ)
    → IsBytes mask
    → mask_has mask i ≡ false
    → 0 < i
    → i ≤ n
    → landed size (mask_set mask i) n ≡ landed size mask n + size i
landed_new size mask i zero b h p q = absurd (omega arith)
landed_new size mask i (suc n) b h p q = elim (ℕ_discrete i (suc n)) [
  | yes e ↦
      rw (sym e)
        (rw (landed_beyond size mask i n b (omega arith), has_set mask i i b p, h) (ground arith))
  | no e ↦
      rw (landed_new size mask i n b h p (omega arith), has_set mask i (suc n) b (omega arith))
        (ground arith)
]

-- The row that MarkSegmentDone writes.
pub record Marked (size : ℕ → ℕ) (idx : ℕ) (j after : UploadJob) : Type 0 where
  pub consistent : IsConsistent size after
  pub added : (k : ℕ) → mask_has (after.done_mask) k ≡ (idx == k || mask_has (j.done_mask) k)
  pub same_count : after.segment_count ≡ j.segment_count
  pub finished_iff : (after.status ≡ complete) ↔ (done after ≡ true)
  pub live : aborted (after.status) ≡ false

module _ (size : ℕ → ℕ) (mask : List ℕ) (uploaded n i : ℕ) where
  seen_set : (k : ℕ) → mask_has mask i ≡ true → mask_has mask k ≡ (i == k || mask_has mask k)
  seen_set k h = elim (ℕ_discrete i k) [
    | yes e ↦ rw (sym e, h) (ground arith)
    | no e ↦ ground arith
  ]

  -- What the update of the bitset and of the byte count comes to.
  segment_counted :
      IsBytes mask
      → uploaded ≡ landed size mask n
      → 0 < i
      → i ≤ n
      → let mask_after = if mask_has mask i then mask else mask_set mask i in
        IsBytes mask_after
        × ((if mask_has mask i then uploaded else uploaded + size i) ≡ landed size mask_after n)
        × ((k : ℕ) → mask_has mask_after k ≡ (i == k || mask_has mask k))
  segment_counted b a p q = elim (Bool-cases (mask_has mask i)) [
    | inl h ↦ rw h (b, a, (λ k. seen_set k h))
    | inr h ↦ rw h (
      (mask_has-mask_set mask i i b p).1,
      rw (landed_new size mask i n b h p q, a) refl,
      (λ k. has_set mask i k b p),
    )
  ]

status_of-complete : (b : Bool) → ((if b then complete else running) ≡ complete) ↔ (b ≡ true)
status_of-complete true = ((λ h. refl), (λ h. refl))
status_of-complete false = ((λ h. absurd (ground arith)), (λ h. absurd (ground arith)))

status_of-live : (b : Bool) → aborted (if b then complete else running) ≡ false
status_of-live true = refl
status_of-live false = refl

record_segment-Marked :
    (size : ℕ → ℕ) (now idx : ℕ) (j : UploadJob)
    → IsConsistent size j
    → 0 < idx
    → idx ≤ j.segment_count
    → Marked size idx j (record_segment now idx (size idx) j)
unfolding record_segment done
record_segment-Marked size now idx j h p q =
    let (b, a, m) =
      segment_counted size (j.done_mask) (j.uploaded_bytes) (j.segment_count) idx (h.bytes)
        (h.accounted) p q in
    let finish =
      all_set (if mask_has (j.done_mask) idx then j.done_mask else mask_set (j.done_mask) idx) 1
        (j.segment_count) in
    record {
      consistent = record { bytes = b; accounted = a };
      added = m;
      same_count = refl;
      finished_iff = status_of-complete finish;
      live = status_of-live finish;
    }

-- MarkSegmentDone of one of the job's segments, with that segment's size: on a failed or cancelled row it
-- is refused with ErrJobFinished. On any other row whose byte count is the sum of the sizes of the
-- segments that have landed, it succeeds, that stays true, the set of landed segments grows by that
-- segment and no other, and the row is complete exactly when every segment has landed, and is neither
-- failed nor cancelled.
pub mark_segment_done-Marked :
    (size : ℕ → ℕ) (now idx : ℕ) (j : UploadJob)
    → IsConsistent size j
    → 0 < idx
    → idx ≤ j.segment_count
    → ((aborted (j.status) ≡ true) × (mark_segment_done now idx (size idx) j ≡ err job_finished))
      ⊎ ((after : UploadJob) × (mark_segment_done now idx (size idx) j ≡ ok after)
          × Marked size idx j after)
unfolding mark_segment_done
mark_segment_done-Marked size now idx j h p q = elim (Bool-cases (aborted (j.status))) [
  | inl e ↦ inl (e, rw e refl)
  | inr e ↦
      inr
        (record_segment now idx (size idx) j, rw e refl, record_segment-Marked size now idx j h p q)
]
