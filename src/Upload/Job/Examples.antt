-- ===== src/Upload/Job/Examples.antt =====
-- An upload of ten bytes in segments of four.
use tdrive.Base.{ℕ, ◌≤◌, ◌<◌, ◌≡◌, refl, ◌↔◌, true, List, [], ◌∷◌, arith, ok}
use tdrive.Base.Int.{pos}
use tdrive.Upload.Geometry.{segment_size, segment_count}
use tdrive.Upload.Mask.{mask_has, new_mask}
use tdrive.Upload.Job.{
  running, complete, cancelled, UploadJob, begin_job, done, pending_segments, set_job_status,
  set_job_size,
}
use tdrive.Upload.Job.Accounting.{IsConsistent}
use tdrive.Upload.Job.Arrivals.{
  mark_all, arrived, IsOwn, Arrived, mark_all-Arrived, begin_job-IsConsistent, begin_job-completes,
}
use tdrive.Upload.Job.Segments.{occurs, occurs-pending_segments}
use tdrive.Upload.Job.Stopped.{SameOutcome, stop, next, resized, steps-SameOutcome}

abbrev ten : UploadJob
unfolding begin_job segment_count new_mask
ten = begin_job (pos 10) 4 100

abbrev sizes : ℕ → ℕ
unfolding segment_size
sizes = segment_size 10 4

abbrev arrivals : List (ℕ × ℕ)
arrivals = (101, 3) ∷ (102, 1) ∷ (103, 3) ∷ (104, 2) ∷ []

abbrev cancelled_ten : UploadJob
unfolding set_job_status begin_job segment_count new_mask
cancelled_ten = set_job_status 200 cancelled [] ten

still_wanted : pending_segments ten ≡ 1 ∷ 2 ∷ 3 ∷ []
unfolding pending_segments begin_job segment_count new_mask mask_has
still_wanted = refl

occurs-pending_segments_example :
    (occurs 2 (pending_segments ten) ≡ true) × ((done ten ≡ true) ↔ (pending_segments ten ≡ []))
unfolding begin_job segment_count new_mask mask_has
occurs-pending_segments_example = occurs-pending_segments ten 2

all-IsOwn : IsOwn 3 arrivals
all-IsOwn = grind arith

none_missing : (k : ℕ) → 0 < k → k ≤ 3 → arrived k arrivals ≡ true
none_missing k p q = ground arith

begin_job-completes_example :
    (after : UploadJob) × (mark_all (segment_size 10 4) arrivals (begin_job (pos 10) 4 100)
      ≡ ok after)
    × (after.status ≡ complete)
    × (after.uploaded_bytes ≡ 10)
unfolding segment_count
begin_job-completes_example =
    begin_job-completes 10 4 100 arrivals (omega arith) all-IsOwn none_missing

ten_ready : IsConsistent (segment_size 10 4) ten × ((ten.status ≡ complete) ↔ (done ten ≡ true))
unfolding segment_count begin_job ten
ten_ready = begin_job-IsConsistent (segment_size 10 4) (pos 10) 4 100 (omega arith)

mark_all-Arrived_example :
    (after : UploadJob) × (mark_all (segment_size 10 4) arrivals ten ≡ ok after)
    × Arrived (segment_size 10 4) arrivals ten after
unfolding ten
mark_all-Arrived_example =
    mark_all-Arrived (segment_size 10 4) arrivals ten (ten_ready.0) refl (ten_ready.1) all-IsOwn

steps-SameOutcome_example : SameOutcome cancelled_ten (set_job_size 300 (pos 9) 3 cancelled_ten)
unfolding cancelled_ten
steps-SameOutcome_example =
    steps-SameOutcome cancelled_ten (set_job_size 300 (pos 9) 3 cancelled_ten) refl
      (next _ _ _ (resized 300 (pos 9) 3 cancelled_ten) (stop _))

abbrev started_ten : UploadJob
unfolding set_job_status begin_job segment_count new_mask
started_ten = set_job_status 150 running [] ten
