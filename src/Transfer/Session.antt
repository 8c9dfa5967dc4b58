-- ===== src/Transfer/Session.antt =====
-- downloadSession of internal/drive/limiter.go: the range requests of one logical download share a
-- slot. Each function is one section under downloadSessionsMu; a pointer that is compared with nil is
-- a Boolean, and so is the entry of the session in the map. The account and the quota are left out.
pub mod Lifetime
pub mod Stranding
pub mod Examples
use tdrive.Base.{ℕ, ◌+◌, ◌-◌, Bool, true, false, ◌&&◌, ◌||◌, ltb, leb, if◌then◌else◌}
use tdrive.Base.Int.{ℤ, pos, pos_part, leb_ℤ}

pub record DownloadSession : Type 0 where
  listed : Bool
  ready : Bool
  failed : Bool
  active : ℕ
  transferred : ℕ
  idle : Bool
  slot : Bool

abbrev pub new_session : DownloadSession
new_session = record {
  listed = true;
  ready = false;
  failed = false;
  active = 0;
  transferred = 0;
  idle = false;
  slot = false;
}

-- leaseDownload has come back, with an error or with a slot.
unfoldable pub settle_session : Bool → DownloadSession → DownloadSession
settle_session has_error s =
    if has_error
    then record {
      listed = false;
      ready = true;
      failed = true;
      active = s.active;
      transferred = s.transferred;
      idle = s.idle;
      slot = s.slot;
    }
    else record {
      listed = s.listed;
      ready = true;
      failed = false;
      active = 1;
      transferred = s.transferred;
      idle = s.idle;
      slot = true;
    }

abbrev pub without_timer : DownloadSession → DownloadSession
without_timer s = record {
  listed = s.listed;
  ready = s.ready;
  failed = s.failed;
  active = s.active;
  transferred = s.transferred;
  idle = false;
  slot = s.slot;
}

-- A request that finds the session in the map stops its timer before it waits.
unfoldable pub begin_join : DownloadSession → DownloadSession
begin_join s = if s.idle then without_timer s else s

pub data Joined : Type 0 where
  acquire_failed : Joined
  start_again : Joined
  too_many_connections : Joined
  joined : Joined

unfoldable pub finish_join : ℕ → DownloadSession → Joined × DownloadSession
finish_join max_conns s =
    if s.failed
    then (acquire_failed, s)
    else if s.listed
    then (if leb max_conns (s.active) then (too_many_connections, s) else (
      joined,
      record {
        listed = s.listed;
        ready = s.ready;
        failed = s.failed;
        active = s.active + 1;
        transferred = s.transferred;
        idle = s.idle;
        slot = s.slot;
      },
    ))
    else (start_again, s)

-- Whether the slot is returned, and the session.
unfoldable pub finish_session : DownloadSession → Bool × DownloadSession
finish_session s = (
  s.slot,
  record {
    listed = false;
    ready = s.ready;
    failed = s.failed;
    active = s.active;
    transferred = s.transferred;
    idle = false;
    slot = false;
  },
)

abbrev pub one_less : DownloadSession → DownloadSession
one_less s = record {
  listed = s.listed;
  ready = s.ready;
  failed = s.failed;
  active = if ltb 0 (s.active) then s.active - 1 else s.active;
  transferred = s.transferred;
  idle = s.idle;
  slot = s.slot;
}

abbrev pub with_timer : DownloadSession → DownloadSession
with_timer s = record {
  listed = s.listed;
  ready = s.ready;
  failed = s.failed;
  active = s.active;
  transferred = s.transferred;
  idle = true;
  slot = s.slot;
}

-- What the end of a request comes to: whether the slot is returned, and whether a timer is started.
pub record Ended : Type 0 where
  returned : Bool
  timer : Bool
  session : DownloadSession

abbrev pub finished : Bool × DownloadSession → Ended
finished r = record { returned = r.0; timer = false; session = r.1 }

unfoldable pub end_request : ℤ → DownloadSession → Ended
end_request grace s =
    let t = one_less s in
    if ltb 0 (t.active) || t.idle
    then record { returned = false; timer = false; session = t }
    else if leb_ℤ grace (pos 0)
    then finished (finish_session t)
    else record { returned = false; timer = true; session = with_timer t }

-- The function that the grace timer runs.
unfoldable pub grace_over : DownloadSession → Bool × DownloadSession
grace_over s = if ltb 0 (s.active) then (false, without_timer s) else finish_session s

unfoldable pub record_bytes : ℤ → DownloadSession → DownloadSession
record_bytes bytes s =
    if leb_ℤ bytes (pos 0)
    then s
    else if s.listed
    then record {
      listed = s.listed;
      ready = s.ready;
      failed = s.failed;
      active = s.active;
      transferred = s.transferred + pos_part bytes;
      idle = s.idle;
      slot = s.slot;
    }
    else s
