-- ===== src/Transfer/Lease.antt =====
-- uploadJobLease of internal/drive/limiter.go: the segment requests of one browser upload share a slot
-- until the job is completed or cancelled. Each function is one section under uploadJobsMu; a pointer
-- that is compared with nil is a Boolean, and so is the entry of the lease in the map. The account and
-- the quota are left out. A result's first part says whether the slot is returned.
pub mod Closing
pub mod Examples
use tdrive.Base.{ℕ, ◌+◌, ◌-◌, Bool, true, false, ◌&&◌, not, ltb, ◌==◌, if◌then◌else◌}

pub record UploadJobLease : Type 0 where
  pub listed : Bool
  pub ready : Bool
  pub closed : Bool
  pub failed : Bool
  pub active : ℕ
  pub slot : Bool

abbrev pub new_lease : UploadJobLease
new_lease = record {
  listed = true;
  ready = false;
  closed = false;
  failed = false;
  active = 0;
  slot = false;
}

pub data Entry : Type 0 where
  task_closed : Entry
  acquire_failed : Entry
  waits : Entry
  enters : Entry

-- A request that finds the lease in the map.
unfoldable pub find_lease : UploadJobLease → Entry
find_lease l = if l.closed then task_closed else waits

-- leaseUpload has come back, with an error or with a slot.
unfoldable pub settle_lease : Bool → UploadJobLease → Bool × UploadJobLease
settle_lease has_error l =
    let closed_early = not has_error && l.closed in
    if has_error
    then (
      false,
      record {
        listed = false;
        ready = true;
        closed = l.closed;
        failed = true;
        active = l.active;
        slot = l.slot;
      },
    )
    else if closed_early
    then (
      true,
      record {
        listed = false;
        ready = true;
        closed = l.closed;
        failed = true;
        active = l.active;
        slot = l.slot;
      },
    )
    else (
      false,
      record {
        listed = l.listed;
        ready = true;
        closed = l.closed;
        failed = false;
        active = 1;
        slot = true;
      },
    )

-- The request has waited for the lease to be ready.
unfoldable pub enter_lease : UploadJobLease → Entry × UploadJobLease
enter_lease l = if l.failed then (acquire_failed, l) else if l.closed then (task_closed, l) else (
  enters,
  record {
    listed = l.listed;
    ready = l.ready;
    closed = l.closed;
    failed = l.failed;
    active = l.active + 1;
    slot = l.slot;
  },
)

abbrev pub one_request_less : UploadJobLease → UploadJobLease
one_request_less l = record {
  listed = l.listed;
  ready = l.ready;
  closed = l.closed;
  failed = l.failed;
  active = if ltb 0 (l.active) then l.active - 1 else l.active;
  slot = l.slot;
}

abbrev pub give_back : UploadJobLease → Bool × UploadJobLease
give_back l = (
  l.slot,
  record {
    listed = false;
    ready = l.ready;
    closed = l.closed;
    failed = l.failed;
    active = l.active;
    slot = false;
  },
)

-- The function that uploadRequestRelease returns.
unfoldable pub end_upload_request : UploadJobLease → Bool × UploadJobLease
end_upload_request l =
    let m = one_request_less l in if m.closed && (m.active == 0) then give_back m else (false, m)

abbrev pub closed_lease : UploadJobLease → UploadJobLease
closed_lease l = record {
  listed = l.listed;
  ready = l.ready;
  closed = true;
  failed = l.failed;
  active = l.active;
  slot = l.slot;
}

-- ReleaseUploadJob, which does nothing for a lease that is not in the map.
unfoldable pub release_upload_job : UploadJobLease → Bool × UploadJobLease
release_upload_job l =
    let m = closed_lease l in
    if l.listed then (if (m.active == 0) && m.slot then give_back m else (false, m)) else (false, l)
