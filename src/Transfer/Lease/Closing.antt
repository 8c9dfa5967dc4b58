-- ===== src/Transfer/Lease/Closing.antt =====
-- The slot of an upload over the interleavings of its requests with the closing of the job.
use tdrive.Base.{
  ℕ, suc, ◌+◌, ◌≤◌, ◌<◌, ◌≡◌, refl, ◌⊎◌, inl, inr, Bool, true, false, arith, if◌then◌else◌,
}
use tdrive.Transfer.Lease.{
  UploadJobLease, new_lease, settle_lease, enter_lease, end_upload_request, release_upload_job,
}

-- The lease, the requests that wait for it, whether leaseUpload is still to come back, and how often
-- the slot was returned.
pub record Upload : Type 0 where
  pub lease : UploadJobLease
  pub waiting : ℕ
  pub opening : Bool
  pub returned : ℕ

abbrev pub upload : UploadJobLease → ℕ → Bool → ℕ → Upload
upload l waiting opening returned = record {
  lease = l;
  waiting = waiting;
  opening = opening;
  returned = returned;
}

abbrev pub one_if : Bool → ℕ
one_if b = if b then 1 else 0

pub data Step : Upload → Upload → Type 0 where
  settled :
      (has_error : Bool) (l : UploadJobLease) (w n : ℕ)
      → Step
          (upload l w true n)
          (upload (settle_lease has_error l).1 w false (n + one_if (settle_lease has_error l).0))
  arrived :
      (l : UploadJobLease) (w n : ℕ) (o : Bool)
      → l.listed ≡ true
      → l.closed ≡ false
      → Step (upload l w o n) (upload l (w + 1) o n)
  left : (l : UploadJobLease) (w n : ℕ) (o : Bool) → Step (upload l (suc w) o n) (upload l w o n)
  went_on :
      (l : UploadJobLease) (w n : ℕ) (o : Bool)
      → l.ready ≡ true
      → Step (upload l (suc w) o n) (upload (enter_lease l).1 w o n)
  ended :
      (l : UploadJobLease) (w n : ℕ) (o : Bool)
      → 0 < l.active
      → Step
          (upload l w o n)
          (upload (end_upload_request l).1 w o (n + one_if (end_upload_request l).0))
  closed_job :
      (l : UploadJobLease) (w n : ℕ) (o : Bool)
      → Step
          (upload l w o n)
          (upload (release_upload_job l).1 w o (n + one_if (release_upload_job l).0))

pub data Steps : Upload → Upload → Type 0 where
  stop : (u : Upload) → Steps u u
  next : (u v x : Upload) → Step u v → Steps v x → Steps u x

-- A held slot can be returned, a closed job holds one only for a running request, and none is returned
-- twice.
pub record IsClosable (u : Upload) : Type 0 where
  pub in_map : (u.lease.slot ≡ false) ⊎ (u.lease.listed ≡ true)
  pub closed_used : (u.lease.closed ≡ false) ⊎ (u.lease.slot ≡ false) ⊎ (0 < u.lease.active)
  pub no_error : (u.lease.failed ≡ false) ⊎ (u.lease.slot ≡ false)
  pub has_slot : (u.lease.active ≡ 0) ⊎ (u.lease.slot ≡ true)
  pub before_ready :
      (u.opening ≡ false)
      ⊎ ((u.lease.slot ≡ false)
          × (u.lease.active ≡ 0)
          × (u.lease.ready ≡ false)
          × (u.lease.listed ≡ true)
          × (u.returned ≡ 0))
  pub when_ready :
      (u.lease.ready ≡ false)
      ⊎ (u.lease.failed ≡ true)
      ⊎ (u.lease.closed ≡ true)
      ⊎ (u.lease.slot ≡ true)
  pub at_most_once : u.returned + one_if (u.lease.slot) ≤ 1

module _ (l : UploadJobLease) (w n : ℕ) where
  settled-IsClosable :
      (e : Bool)
      → IsClosable (upload l w true n)
      → IsClosable (upload (settle_lease e l).1 w false (n + one_if (settle_lease e l).0))
  unfolding settle_lease
  settled-IsClosable e h = record {
    in_map = grind (arith, h);
    closed_used = grind (arith, h);
    no_error = grind (arith, h);
    has_slot = grind (arith, h);
    before_ready = inl refl;
    when_ready = grind (arith, h);
    at_most_once = grind (arith, h);
  }

  module _ (o : Bool) where
    went_on-IsClosable :
        l.ready ≡ true
        → IsClosable (upload l (suc w) o n)
        → IsClosable (upload (enter_lease l).1 w o n)
    unfolding enter_lease
    went_on-IsClosable r h = record {
      in_map = grind (arith, h);
      closed_used = grind (arith, h);
      no_error = grind (arith, h);
      has_slot = grind (arith, h, r);
      before_ready = grind (arith, h, r);
      when_ready = grind (arith, h);
      at_most_once = grind (arith, h);
    }

    ended-IsClosable :
        0 < l.active
        → IsClosable (upload l w o n)
        → IsClosable (upload (end_upload_request l).1 w o (n + one_if (end_upload_request l).0))
    unfolding end_upload_request
    ended-IsClosable a h = record {
      in_map = grind (arith, h);
      closed_used = grind (arith, h);
      no_error = grind (arith, h);
      has_slot = grind (arith, h);
      before_ready = grind (arith, h, a);
      when_ready = grind (arith, h);
      at_most_once = grind (arith, h);
    }

    closed_job-IsClosable :
        IsClosable (upload l w o n)
        → IsClosable (upload (release_upload_job l).1 w o (n + one_if (release_upload_job l).0))
    unfolding release_upload_job
    closed_job-IsClosable h = record {
      in_map = grind (arith, h);
      closed_used = grind (arith, h);
      no_error = grind (arith, h);
      has_slot = grind (arith, h);
      before_ready = grind (arith, h);
      when_ready = grind (arith, h);
      at_most_once = grind (arith, h);
    }

same_lease :
    (l : UploadJobLease) (w v n : ℕ) (o : Bool)
    → IsClosable (upload l w o n)
    → IsClosable (upload l v o n)
same_lease l w v n o h = record {
  in_map = h.in_map;
  closed_used = h.closed_used;
  no_error = h.no_error;
  has_slot = h.has_slot;
  before_ready = h.before_ready;
  when_ready = h.when_ready;
  at_most_once = h.at_most_once;
}

step-IsClosable : (u v : Upload) → IsClosable u → Step u v → IsClosable v
step-IsClosable u v h (settled e l w n) = settled-IsClosable l w n e h
step-IsClosable u v h (arrived l w n o m c) = same_lease l w (w + 1) n o h
step-IsClosable u v h (left l w n o) = same_lease l (suc w) w n o h
step-IsClosable u v h (went_on l w n o r) = went_on-IsClosable l w n o r h
step-IsClosable u v h (ended l w n o a) = ended-IsClosable l w n o a h
step-IsClosable u v h (closed_job l w n o) = closed_job-IsClosable l w n o h

reached-IsClosable : (u v : Upload) → IsClosable u → Steps u v → IsClosable v
reached-IsClosable u v h (stop _) = h
reached-IsClosable u v h (next _ m _ s rest) = reached-IsClosable m v (step-IsClosable u m h s) rest

fresh-IsClosable : IsClosable (upload new_lease 0 true 0)
fresh-IsClosable = record {
  in_map = inl refl;
  closed_used = inl refl;
  no_error = inl refl;
  has_slot = inl refl;
  before_ready = inr (refl, refl, refl, refl, refl);
  when_ready = inl refl;
  at_most_once = omega arith;
}

-- From a new lease on, whatever way its segment requests, some of which give up, interleave with the
-- closing of the job: while the lease holds the slot it is in the map, so that ReleaseUploadJob finds it;
-- once it is closed it holds the slot only while a request is active; a request is active only while
-- the slot is held; and the slot is returned at most once.
pub steps-IsClosable : (u : Upload) → Steps (upload new_lease 0 true 0) u → IsClosable u
steps-IsClosable u run = reached-IsClosable (upload new_lease 0 true 0) u fresh-IsClosable run

-- A closed lease stays closed, and no request is let in any more.
pub step-closed :
    (u v : Upload)
    → IsClosable u
    → u.lease.closed ≡ true
    → Step u v
    → (v.lease.closed ≡ true) × (v.lease.active ≤ u.lease.active)
unfolding settle_lease enter_lease end_upload_request release_upload_job
step-closed u v h c (settled e l w n) = grind (arith, h, c)
step-closed u v h c (arrived l w n o m d) = (c, omega arith)
step-closed u v h c (left l w n o) = (c, omega arith)
step-closed u v h c (went_on l w n o r) = grind (arith, c)
step-closed u v h c (ended l w n o a) = grind (arith, c)
step-closed u v h c (closed_job l w n o) = grind (arith, c)
