-- ===== src/Upload/Job/Stopped.antt =====
-- The statements a transfer under way runs on its row, as steps: its segments land, it moves the status
-- from a live one, and it corrects the size. They interleave with the statement that stops the transfer.
use tdrive.Base.{
  ℕ, ◌<◌, ◌≡◌, refl, sym, ap, ◌∙◌, subst, inl, inr, Bool, true, false, ◌||◌, List, [], ◌∷◌, arith,
  if◌then◌else◌, Bool-cases, Result, ok, err, All,
}
use tdrive.Base.Int.{ℤ}
use tdrive.Upload.Job.{
  JobStatus, pending, running, same_status, aborted, one_of, UploadJob, JobError, first_time,
  job_finished, job_status_update, record_segment, mark_segment_done, set_job_status_if,
  set_job_size,
}

abbrev pub is_live : JobStatus → Bool
is_live s = same_status s pending || same_status s running

pub data Step : UploadJob → UploadJob → Type 0 where
  segment :
      (now idx bytes : ℕ) (j after : UploadJob)
      → mark_segment_done now idx bytes j ≡ ok after
      → Step j after
  refused :
      (now idx bytes : ℕ) (j : UploadJob) (e : JobError)
      → mark_segment_done now idx bytes j ≡ err e
      → Step j j
  moved :
      (now : ℕ) (status : JobStatus) (message : List ℕ) (from : List JobStatus)
      (j after : UploadJob) (applied : Bool)
      → All (λ s. is_live s ≡ true) from
      → set_job_status_if now status message from j ≡ ok (after, applied)
      → Step j after
  resized :
      (now : ℕ) (total : ℤ) (segments : ℕ) (j : UploadJob)
      → Step j (set_job_size now total segments j)

pub data Steps : UploadJob → UploadJob → Type 0 where
  stop : (j : UploadJob) → Steps j j
  next : (j middle after : UploadJob) → Step j middle → Steps middle after → Steps j after

-- What a stopped row keeps.
pub record SameOutcome (j after : UploadJob) : Type 0 where
  same_state : after.status ≡ j.status
  same_error : after.error_text ≡ j.error_text
  same_mask : after.done_mask ≡ j.done_mask
  same_bytes : after.uploaded_bytes ≡ j.uploaded_bytes
  same_start : after.started_at ≡ j.started_at
  same_finish : after.finished_at ≡ j.finished_at

one_of_live :
    (s : JobStatus) (from : List JobStatus)
    → aborted s ≡ true
    → All (λ x. is_live x ≡ true) from
    → one_of s from ≡ false
one_of_live s [] h a = refl
one_of_live s (x ∷ xs) h a = rw (not_same s x h (a.0), one_of_live s xs h (a.1)) refl
  where
    not_same : (s x : JobStatus) → aborted s ≡ true → is_live x ≡ true → same_status s x ≡ false
    not_same s x h l = ground arith

unchanged : (j : UploadJob) → SameOutcome j j
unchanged j = record {
  same_state = refl;
  same_error = refl;
  same_mask = refl;
  same_bytes = refl;
  same_start = refl;
  same_finish = refl;
}

ok-err : {A : Type 0} {a : A} {e : JobError} (r : Result JobError A) → r ≡ err e → r ≡ ok a → ⊥
ok-err r p q = cc

first_of :
    {A B : Type 0} {a b : A} {x y : B}
    → ◌≡◌ {A = Result JobError (A × B)} (ok (a, x)) (ok (b, y))
    → a ≡ b
first_of h = cc

refuses :
    (now idx bytes : ℕ) (j : UploadJob)
    → aborted (j.status) ≡ true
    → mark_segment_done now idx bytes j ≡ err job_finished
unfolding mark_segment_done
refuses now idx bytes j h = rw h refl

keeps_row :
    (now : ℕ) (status : JobStatus) (message : List ℕ) (x : JobStatus) (xs : List JobStatus)
    (j : UploadJob)
    → aborted (j.status) ≡ true
    → All (λ s. is_live s ≡ true) (x ∷ xs)
    → set_job_status_if now status message (x ∷ xs) j ≡ ok (j, false)
unfolding set_job_status_if
keeps_row now status message x xs j h l = rw (one_of_live (j.status) (x ∷ xs) h l) refl

step-SameOutcome :
    (j after : UploadJob) → aborted (j.status) ≡ true → Step j after → SameOutcome j after
unfolding set_job_status_if set_job_size
step-SameOutcome j after h (segment now idx bytes _ _ r) =
    absurd (ok-err _ (refuses now idx bytes j h) r)
step-SameOutcome j after h (refused now idx bytes _ e r) = unchanged j
step-SameOutcome j after h (moved now status message [] _ _ applied l r) = absurd (ok-err _ refl r)
step-SameOutcome j after h (moved now status message (x ∷ xs) _ _ applied l r) =
    subst (SameOutcome j) (first_of (sym (keeps_row now status message x xs j h l) ∙ r))
      (unchanged j)
step-SameOutcome j after h (resized now total segments _) = record {
  same_state = refl;
  same_error = refl;
  same_mask = refl;
  same_bytes = refl;
  same_start = refl;
  same_finish = refl;
}

joined :
    (j middle after : UploadJob)
    → SameOutcome j middle
    → SameOutcome middle after
    → SameOutcome j after
joined j middle after a b = record {
  same_state = b.same_state ∙ a.same_state;
  same_error = b.same_error ∙ a.same_error;
  same_mask = b.same_mask ∙ a.same_mask;
  same_bytes = b.same_bytes ∙ a.same_bytes;
  same_start = b.same_start ∙ a.same_start;
  same_finish = b.same_finish ∙ a.same_finish;
}

-- Once a job has failed or been cancelled, no sequence of MarkSegmentDone, of SetJobStatusIf from the
-- pending and running states, and of SetJobSize changes its status, its error, its bitset, its byte
-- count or either of its start and finish times.
pub steps-SameOutcome :
    (j after : UploadJob) → aborted (j.status) ≡ true → Steps j after → SameOutcome j after
steps-SameOutcome j after h (stop _) = unchanged j
steps-SameOutcome j after h (next _ middle _ s rest) =
    let a = step-SameOutcome j middle h s in
    joined j middle after a (steps-SameOutcome middle after (ap aborted (a.same_state) ∙ h) rest)

first_time_set : (column now : ℕ) → 0 < column → first_time column now ≡ column
first_time_set column now h = ground arith

abbrev start_of : Result JobError UploadJob → ℕ
start_of (ok j) = j.started_at
start_of (err e) = 0

abbrev row_of : Result JobError (UploadJob × Bool) → Result JobError UploadJob
row_of (ok (j, applied)) = ok j
row_of (err e) = err e

mark-start :
    (now idx bytes : ℕ) (j : UploadJob)
    → aborted (j.status) ≡ false
    → 0 < j.started_at
    → start_of (mark_segment_done now idx bytes j) ≡ j.started_at
unfolding mark_segment_done record_segment
mark-start now idx bytes j e h = rw e (first_time_set (j.started_at) now h)

update-start :
    (b : Bool) (now : ℕ) (status : JobStatus) (message : List ℕ) (j : UploadJob)
    → 0 < j.started_at
    → start_of
        (row_of (if b then ok (job_status_update now status message j, true) else ok (j, false)))
      ≡ j.started_at
update-start false now status message j h = refl
update-start true now status message j h = elim (Bool-cases (same_status status running)) [
  | inl e ↦ rw e (first_time_set (j.started_at) now h)
  | inr e ↦ rw e refl
]

step-started_at :
    (j after : UploadJob) → 0 < j.started_at → Step j after → after.started_at ≡ j.started_at
unfolding mark_segment_done record_segment set_job_status_if set_job_size
step-started_at j after h (segment now idx bytes _ _ r) = elim (Bool-cases (aborted (j.status))) [
  | inl e ↦ absurd (ok-err _ (refuses now idx bytes j e) r)
  | inr e ↦ sym (ap start_of r) ∙ mark-start now idx bytes j e h
]
step-started_at j after h (refused now idx bytes _ e r) = refl
step-started_at j after h (moved now status message [] _ _ applied l r) = absurd (ok-err _ refl r)
step-started_at j after h (moved now status message (x ∷ xs) _ _ applied l r) =
    sym (ap (λ x. start_of (row_of x)) r)
    ∙ update-start (one_of (j.status) (x ∷ xs)) now status message j h
step-started_at j after h (resized now total segments _) = refl

-- Once it is set, the start time stays: no sequence of these statements changes it.
pub steps-started_at :
    (j after : UploadJob) → 0 < j.started_at → Steps j after → after.started_at ≡ j.started_at
steps-started_at j after h (stop _) = refl
steps-started_at j after h (next _ middle _ s rest) =
    let e = step-started_at j middle h s in
    steps-started_at middle after (subst (λ t. 0 < t) (sym e) h) rest ∙ e
