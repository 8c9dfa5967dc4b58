-- ===== src/Upload/Job/Arrivals.antt =====
-- Segments of one upload that arrive in any order, some of them more than once.
use tdrive.Base.{
  ℕ, zero, suc, ◌≤◌, ◌<◌, ◌≡◌, refl, sym, ap, ◌∙◌, ◌↔◌, inl, inr, Bool, true, false, ◌||◌, List, [],
  ◌∷◌, arith, ◌==◌, Result, ok, ◌>>=◌, All,
}
use tdrive.Base.Int.{ℤ, pos}
use tdrive.Upload.Geometry.{segment_size, segment_count}
use tdrive.Upload.Geometry.Partition.{segment_count-Fits, total, total-segment_count}
use tdrive.Upload.Mask.{mask_has, new_mask}
use tdrive.Upload.Mask.Membership.{mask_has-new_mask}
use tdrive.Upload.Job.{complete, aborted, UploadJob, JobError, begin_job, done, mark_segment_done}
use tdrive.Upload.Job.Segments.{all_set_sound, all_set_complete}
use tdrive.Upload.Job.Accounting.{landed, IsConsistent, Marked, mark_segment_done-Marked}

-- An arrival is the clock's reading and the index of the segment.
abbrev pub mark_all : (ℕ → ℕ) → List (ℕ × ℕ) → UploadJob → Result JobError UploadJob
mark_all size [] j = ok j
mark_all size ((now, idx) ∷ rest) j = mark_segment_done now idx (size idx) j >>= mark_all size rest

abbrev pub arrived : ℕ → List (ℕ × ℕ) → Bool
arrived i [] = false
arrived i ((now, idx) ∷ rest) = idx == i || arrived i rest

abbrev pub IsOwn : ℕ → List (ℕ × ℕ) → Type 0
IsOwn count = All (λ a. (0 < a.1) × (a.1 ≤ count))

-- The row once all of them have arrived.
pub record Arrived (size : ℕ → ℕ) (arrivals : List (ℕ × ℕ)) (j after : UploadJob) : Type 0 where
  consistent : IsConsistent size after
  landed_iff :
      (k : ℕ) → mask_has (after.done_mask) k ≡ (arrived k arrivals || mask_has (j.done_mask) k)
  same_count : after.segment_count ≡ j.segment_count
  finished_iff : (after.status ≡ complete) ↔ (done after ≡ true)
  live : aborted (after.status) ≡ false

then-Arrived :
    (size : ℕ → ℕ) (now idx : ℕ) (rest : List (ℕ × ℕ)) (j middle after : UploadJob)
    → Marked size idx j middle
    → Arrived size rest middle after
    → Arrived size ((now, idx) ∷ rest) j after
then-Arrived size now idx rest j middle after m a = record {
  consistent = a.consistent;
  same_count = a.same_count ∙ m.same_count;
  finished_iff = a.finished_iff;
  live = a.live;
  landed_iff = λ k.
      rw (a.landed_iff k, m.added k)
        (either (arrived k rest) (idx == k) (mask_has (j.done_mask) k));
}
  where
    either : (a b c : Bool) → (a || (b || c)) ≡ ((b || a) || c)
    either a b c = ground arith

-- Segments of the job, in any order and with repeats, brought to a row that is not failed or cancelled,
-- whose byte count is the sum of the sizes of the segments landed, and which is complete exactly when
-- all have landed: every MarkSegmentDone succeeds, and afterwards the landed segments are those from
-- before and those that arrived, each counted once, and the row is complete exactly when all have
-- landed.
pub mark_all-Arrived :
    (size : ℕ → ℕ) (arrivals : List (ℕ × ℕ)) (j : UploadJob)
    → IsConsistent size j
    → aborted (j.status) ≡ false
    → (j.status ≡ complete) ↔ (done j ≡ true)
    → IsOwn (j.segment_count) arrivals
    → (after : UploadJob) × (mark_all size arrivals j ≡ ok after) × Arrived size arrivals j after
mark_all-Arrived size [] j h l f o = (
  j,
  refl,
  record { consistent = h; landed_iff = λ k. refl; same_count = refl; finished_iff = f; live = l },
)
mark_all-Arrived size ((now, idx) ∷ rest) j h l f o =
    elim (mark_segment_done-Marked size now idx j h (o.0.0) (o.0.1)) [
      | inl (e, r) ↦ absurd (ground (arith, e, l))
      | inr (middle, r, m) ↦
          let (after, s, a) =
            mark_all-Arrived size rest middle (m.consistent) (m.live) (m.finished_iff)
              (rw (m.same_count) (o.1)) in
          (after, rw r s, then-Arrived size now idx rest j middle after m a)
    ]

landed-none : (size : ℕ → ℕ) (count n : ℕ) → landed size (new_mask count) n ≡ 0
landed-none size count zero = refl
landed-none size count (suc n) =
    rw ((mask_has-new_mask count (suc n)).0, landed-none size count n) refl

landed-all :
    (size seg : ℕ) (mask : List ℕ) (n : ℕ)
    → ((k : ℕ) → 0 < k → k ≤ n → mask_has mask k ≡ true)
    → landed (segment_size size seg) mask n ≡ total size seg n
landed-all size seg mask zero h = refl
landed-all size seg mask (suc n) h =
    rw
      (
        h (suc n) (omega arith) (omega arith),
        landed-all size seg mask n (λ k p q. h k p (omega arith)),
      )
      refl

pub begin_job-IsConsistent :
    (size : ℕ → ℕ) (bytes : ℤ) (seg now : ℕ)
    → 0 < segment_count bytes seg
    → let j = begin_job bytes seg now in
      IsConsistent size j × ((j.status ≡ complete) ↔ (done j ≡ true))
unfolding begin_job done
begin_job-IsConsistent size bytes seg now p =
    let count = segment_count bytes seg in
    (
      record {
        bytes = (mask_has-new_mask count 0).1;
        accounted = sym (landed-none size count count);
      },
      (
        (λ h. absurd (ground arith)),
        (λ h. absurd (
            ground (
              arith,
              (mask_has-new_mask count 1).0,
              all_set_sound (new_mask count) 1 count 1 h (omega arith) (omega arith),
            ))),
      ),
    )

-- A row whose segments have all landed is Done and has counted the whole file.
filled :
    (size seg : ℕ) (j : UploadJob)
    → 0 < seg
    → IsConsistent (segment_size size seg) j
    → j.segment_count ≡ segment_count (pos size) seg
    → ((k : ℕ) → 0 < k → k ≤ segment_count (pos size) seg → mask_has (j.done_mask) k ≡ true)
    → (done j ≡ true) × (j.uploaded_bytes ≡ size)
unfolding done
filled size seg j p h e all = (
  all_set_complete (j.done_mask) 1 (j.segment_count)
      (λ k q r. all k (omega arith) (omega (arith, e))),
  (h.accounted
        ∙ landed-all size seg (j.done_mask) (j.segment_count) (λ k q r. all k q (omega (arith, e))))
      ∙ (ap (total size seg) e ∙ total-segment_count size seg p),
)

-- A new upload of `size` bytes in segments of a positive size: when its segments arrive, in any order,
-- any of them more than once, and none is left out, every MarkSegmentDone succeeds, the row is complete
-- at the end, and its byte count is `size`.
pub begin_job-completes :
    (size seg now : ℕ) (arrivals : List (ℕ × ℕ))
    → 0 < seg
    → IsOwn (segment_count (pos size) seg) arrivals
    → ((k : ℕ) → 0 < k → k ≤ segment_count (pos size) seg → arrived k arrivals ≡ true)
    → (after : UploadJob) × (mark_all
          (segment_size size seg)
          arrivals
          (begin_job (pos size) seg now)
        ≡ ok after)
      × (after.status ≡ complete)
      × (after.uploaded_bytes ≡ size)
unfolding begin_job done
begin_job-completes size seg now arrivals p o c =
    let count = segment_count (pos size) seg in
    let j = begin_job (pos size) seg now in
    let (h, f) =
      begin_job-IsConsistent (segment_size size seg) (pos size) seg now
        ((segment_count-Fits size seg p).some_segment) in
    let (after, s, a) = mark_all-Arrived (segment_size size seg) arrivals j h refl f o in
    let (whole, sum) =
      filled size seg after p (a.consistent) (a.same_count)
        (λ k q r. rw (a.landed_iff k, c k q r) refl) in
    (after, s, (a.finished_iff).1 whole, sum)
