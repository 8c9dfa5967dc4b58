-- ===== src/Upload/Job.antt =====
-- The upload_jobs row and the statements that change it: internal/database/jobs.go, with JobStatus,
-- Done and PendingSegments of internal/database/models.go and the row that Begin of
-- internal/drive/upload.go inserts. A time is in milliseconds and 0 is the
-- column's default; the clock's reading is an argument. Each function is one transaction on the row of
-- the job, which is there; the columns that no statement here reads or writes are left out.
pub mod Segments
pub mod Accounting
pub mod Arrivals
pub mod Stopped
pub mod Examples
use tdrive.Base.{
  ℕ, zero, suc, ◌+◌, Bool, true, false, not, ◌&&◌, ◌||◌, List, [], ◌∷◌, ltb, ◌==◌, if◌then◌else◌,
  Result, ok, err,
}
use tdrive.Base.Int.{ℤ}
use tdrive.Upload.Geometry.{segment_count}
use tdrive.Upload.Mask.{mask_has, mask_set, new_mask}

pub data JobStatus : Type 0 where
  pending : JobStatus
  running : JobStatus
  complete : JobStatus
  failed : JobStatus
  cancelled : JobStatus

-- The comparison of two status strings.
abbrev pub same_status : JobStatus → JobStatus → Bool
same_status pending pending = true
same_status running running = true
same_status complete complete = true
same_status failed failed = true
same_status cancelled cancelled = true
same_status a b = false

abbrev pub aborted : JobStatus → Bool
aborted s = same_status s failed || same_status s cancelled

abbrev pub terminal : JobStatus → Bool
terminal s = same_status s complete || aborted s

pub record UploadJob : Type 0 where
  total_size : ℤ
  segment_count : ℕ
  done_mask : List ℕ
  uploaded_bytes : ℕ
  status : JobStatus
  error_text : List ℕ
  updated_at : ℕ
  started_at : ℕ
  finished_at : ℕ

-- The row that Begin inserts: `size` is the request's, `seg` the segment size in force.
unfoldable pub begin_job : ℤ → ℕ → ℕ → UploadJob
begin_job size seg now =
    let count = segment_count size seg in
    record {
      total_size = size;
      segment_count = count;
      done_mask = new_mask count;
      uploaded_bytes = 0;
      status = pending;
      error_text = [];
      updated_at = now;
      started_at = 0;
      finished_at = 0;
    }

pub data JobError : Type 0 where
  job_finished : JobError
  no_source_status : JobError

-- `for i := from; i <= count; i++ { if !MaskHas(mask, i) { return false } }`, by the rounds left.
abbrev pub all_set : List ℕ → ℕ → ℕ → Bool
all_set mask from zero = true
all_set mask from (suc rounds) = mask_has mask from && all_set mask (suc from) rounds

unfoldable pub done : UploadJob → Bool
done j = all_set (j.done_mask) 1 (j.segment_count)

abbrev pub unset_from : List ℕ → ℕ → ℕ → List ℕ
unset_from mask from zero = []
unset_from mask from (suc rounds) =
    let rest = unset_from mask (suc from) rounds in if mask_has mask from then rest else from ∷ rest

unfoldable pub pending_segments : UploadJob → List ℕ
pending_segments j = unset_from (j.done_mask) 1 (j.segment_count)

abbrev pub first_time : ℕ → ℕ → ℕ
first_time column now = if column == 0 then now else column

-- The row once the guard has let segment `idx` through.
unfoldable pub record_segment : ℕ → ℕ → ℕ → UploadJob → UploadJob
record_segment now idx bytes j =
    let seen = mask_has (j.done_mask) idx in
    let mask = if seen then j.done_mask else mask_set (j.done_mask) idx in
    let uploaded = if seen then j.uploaded_bytes else j.uploaded_bytes + bytes in
    let finished = all_set mask 1 (j.segment_count) in
    let finish_time = if finished then now else 0 in
    record {
      total_size = j.total_size;
      segment_count = j.segment_count;
      done_mask = mask;
      uploaded_bytes = uploaded;
      status = if finished then complete else running;
      error_text = j.error_text;
      updated_at = now;
      started_at = first_time (j.started_at) now;
      finished_at = if ltb 0 finish_time then finish_time else j.finished_at;
    }

unfoldable pub mark_segment_done : ℕ → ℕ → ℕ → UploadJob → Result JobError UploadJob
mark_segment_done now idx bytes j =
    if aborted (j.status) then err job_finished else ok (record_segment now idx bytes j)

-- The assignments that jobStatusUpdate lists, applied to the row.
abbrev pub job_status_update : ℕ → JobStatus → List ℕ → UploadJob → UploadJob
job_status_update now status message j = record {
  total_size = j.total_size;
  segment_count = j.segment_count;
  done_mask = j.done_mask;
  uploaded_bytes = j.uploaded_bytes;
  status = status;
  error_text = message;
  updated_at = now;
  started_at = if same_status status running then first_time (j.started_at) now else j.started_at;
  finished_at = if terminal status then now else j.finished_at;
}

unfoldable pub set_job_status : ℕ → JobStatus → List ℕ → UploadJob → UploadJob
set_job_status now status message j = job_status_update now status message j

abbrev pub one_of : JobStatus → List JobStatus → Bool
one_of s [] = false
one_of s (x ∷ xs) = same_status s x || one_of s xs

-- The row afterwards, and whether the transition applied; an empty list of sources is refused before the statement runs.
unfoldable pub set_job_status_if :
    ℕ → JobStatus → List ℕ → List JobStatus → UploadJob → Result JobError (UploadJob × Bool)
set_job_status_if now status message [] j = err no_source_status
set_job_status_if now status message (x ∷ xs) j =
    if one_of (j.status) (x ∷ xs)
    then ok (job_status_update now status message j, true)
    else ok (j, false)

unfoldable pub set_job_size : ℕ → ℤ → ℕ → UploadJob → UploadJob
set_job_size now total segments j = record {
  total_size = total;
  segment_count = segments;
  done_mask = j.done_mask;
  uploaded_bytes = j.uploaded_bytes;
  status = j.status;
  error_text = j.error_text;
  updated_at = now;
  started_at = j.started_at;
  finished_at = j.finished_at;
}

-- Whether PurgeFinishedJobs deletes the row.
unfoldable pub purged : ℕ → UploadJob → Bool
purged older_than j = terminal (j.status) && ltb (j.updated_at) older_than
