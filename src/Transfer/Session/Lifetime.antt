-- ===== src/Transfer/Session/Lifetime.antt =====
-- The slot of a session over the interleavings of its requests and its timers.
use tdrive.Base.{
  ℕ, suc, ◌+◌, ◌-◌, ◌≤◌, ◌<◌, ◌≡◌, refl, ◌⊎◌, inl, inr, Bool, true, false, ◌&&◌, arith,
  if◌then◌else◌,
}
use tdrive.Base.Int.{ℤ}
use tdrive.Transfer.Session.{
  DownloadSession, new_session, settle_session, begin_join, finish_join, finish_session,
  end_request, grace_over, record_bytes,
}

-- The session, the requests that wait to join it, the timers started and neither stopped nor run,
-- whether leaseDownload is still to come back, and how often the slot was returned.
pub record World : Type 0 where
  pub session : DownloadSession
  pub joining : ℕ
  pub pending : ℕ
  pub opening : Bool
  pub returned : ℕ

abbrev pub world : DownloadSession → ℕ → ℕ → Bool → ℕ → World
world s joining pending opening returned = record {
  session = s;
  joining = joining;
  pending = pending;
  opening = opening;
  returned = returned;
}

abbrev pub one_if : Bool → ℕ
one_if b = if b then 1 else 0

-- `max_conns` and `grace` are the settings. A timer that has fired cannot be stopped any more.
module _ (max_conns : ℕ) (grace : ℤ) where
  pub data Step : World → World → Type 0 where
    settled :
        (has_error : Bool) (s : DownloadSession) (j p n : ℕ)
        → Step (world s j p true n) (world (settle_session has_error s) j p false n)
    arrived :
        (stopped : Bool) (s : DownloadSession) (j p n : ℕ) (o : Bool)
        → s.listed ≡ true
        → Step
            (world s j p o n)
            (world (begin_join s) (j + 1) (if s.idle && stopped then p - 1 else p) o n)
    went_on :
        (s : DownloadSession) (j p n : ℕ) (o : Bool)
        → s.ready ≡ true
        → Step (world s (suc j) p o n) (world (finish_join max_conns s).1 j p o n)
    ended :
        (s : DownloadSession) (j p n : ℕ) (o : Bool)
        → 0 < s.active
        → Step (world s j p o n) (
            world
              ((end_request grace s).session)
              j
              (p + one_if ((end_request grace s).timer))
              o
              (n + one_if ((end_request grace s).returned)))
    timed_out :
        (s : DownloadSession) (j p n : ℕ) (o : Bool)
        → Step (world s j (suc p) o n) (world (grace_over s).1 j p o (n + one_if (grace_over s).0))
    served :
        (bytes : ℤ) (s : DownloadSession) (j p n : ℕ) (o : Bool)
        → Step (world s j p o n) (world (record_bytes bytes s) j p o n)

  pub data Steps : World → World → Type 0 where
    stop : (w : World) → Steps w w
    next : (w v u : World) → Step w v → Steps v u → Steps w u

-- A slot that is held has somebody who will return it, and no slot is returned twice.
pub record IsKept (w : World) : Type 0 where
  pub cared_for : (w.session.slot ≡ false) ⊎ (0 < w.session.active + w.pending + w.joining)
  pub timer_runs : (w.session.idle ≡ false) ⊎ (0 < w.pending)
  pub in_map : (w.session.slot ≡ false) ⊎ (w.session.listed ≡ true)
  pub no_error : (w.session.failed ≡ false) ⊎ (w.session.slot ≡ false)
  pub before_ready :
      (w.opening ≡ false)
      ⊎ ((w.session.slot ≡ false)
          × (w.session.active ≡ 0)
          × (w.session.ready ≡ false)
          × (w.session.listed ≡ true)
          × (w.pending ≡ 0)
          × (w.returned ≡ 0))
  pub at_most_once : w.returned + one_if (w.session.slot) ≤ 1

settled-IsKept :
    (e : Bool) (s : DownloadSession) (j p n : ℕ)
    → IsKept (world s j p true n)
    → IsKept (world (settle_session e s) j p false n)
unfolding settle_session
settled-IsKept e s j p n h = record {
  cared_for = grind (arith, h);
  timer_runs = grind (arith, h);
  in_map = grind (arith, h);
  no_error = grind (arith, h);
  before_ready = inl refl;
  at_most_once = grind (arith, h);
}

arrived-IsKept :
    (stopped : Bool) (s : DownloadSession) (j p n : ℕ) (o : Bool)
    → IsKept (world s j p o n)
    → IsKept (world (begin_join s) (j + 1) (if s.idle && stopped then p - 1 else p) o n)
unfolding begin_join
arrived-IsKept stopped s j p n o h = record {
  cared_for = inr (omega arith);
  timer_runs = grind (arith, h);
  in_map = grind (arith, h);
  no_error = grind (arith, h);
  before_ready = grind (arith, h);
  at_most_once = grind (arith, h);
}

went_on-IsKept :
    (max_conns : ℕ) (s : DownloadSession) (j p n : ℕ) (o : Bool)
    → 0 < max_conns
    → s.ready ≡ true
    → IsKept (world s (suc j) p o n)
    → IsKept (world (finish_join max_conns s).1 j p o n)
unfolding finish_join
went_on-IsKept max_conns s j p n o m r h = record {
  cared_for = grind (arith, h);
  timer_runs = grind (arith, h);
  in_map = grind (arith, h);
  no_error = grind (arith, h);
  before_ready = grind (arith, h, r);
  at_most_once = grind (arith, h);
}

ended-IsKept :
    (grace : ℤ) (s : DownloadSession) (j p n : ℕ) (o : Bool)
    → 0 < s.active
    → IsKept (world s j p o n)
    → IsKept (
        world
          ((end_request grace s).session)
          j
          (p + one_if ((end_request grace s).timer))
          o
          (n + one_if ((end_request grace s).returned)))
unfolding end_request finish_session
ended-IsKept grace s j p n o a h = record {
  cared_for = grind (arith, h);
  timer_runs = grind (arith, h);
  in_map = grind (arith, h);
  no_error = grind (arith, h);
  before_ready = grind (arith, h, a);
  at_most_once = grind (arith, h);
}

timed_out-IsKept :
    (s : DownloadSession) (j p n : ℕ) (o : Bool)
    → IsKept (world s j (suc p) o n)
    → IsKept (world (grace_over s).1 j p o (n + one_if (grace_over s).0))
unfolding grace_over finish_session
timed_out-IsKept s j p n o h = record {
  cared_for = grind (arith, h);
  timer_runs = grind (arith, h);
  in_map = grind (arith, h);
  no_error = grind (arith, h);
  before_ready = grind (arith, h);
  at_most_once = grind (arith, h);
}

served-IsKept :
    (bytes : ℤ) (s : DownloadSession) (j p n : ℕ) (o : Bool)
    → IsKept (world s j p o n)
    → IsKept (world (record_bytes bytes s) j p o n)
unfolding record_bytes
served-IsKept bytes s j p n o h = record {
  cared_for = grind (arith, h);
  timer_runs = grind (arith, h);
  in_map = grind (arith, h);
  no_error = grind (arith, h);
  before_ready = grind (arith, h);
  at_most_once = grind (arith, h);
}

fresh-IsKept : IsKept (world new_session 0 0 true 0)
fresh-IsKept = record {
  cared_for = inl refl;
  timer_runs = inl refl;
  in_map = inl refl;
  no_error = inl refl;
  before_ready = inr (refl, refl, refl, refl, refl, refl);
  at_most_once = omega arith;
}

module _ (max_conns : ℕ) (grace : ℤ) (positive : 0 < max_conns) where
  step-IsKept : (w v : World) → IsKept w → Step max_conns grace w v → IsKept v
  step-IsKept w v h (settled e s j p n) = settled-IsKept e s j p n h
  step-IsKept w v h (arrived stopped s j p n o l) = arrived-IsKept stopped s j p n o h
  step-IsKept w v h (went_on s j p n o r) = went_on-IsKept max_conns s j p n o positive r h
  step-IsKept w v h (ended s j p n o a) = ended-IsKept grace s j p n o a h
  step-IsKept w v h (timed_out s j p n o) = timed_out-IsKept s j p n o h
  step-IsKept w v h (served bytes s j p n o) = served-IsKept bytes s j p n o h

  reached-IsKept : (w v : World) → IsKept w → Steps max_conns grace w v → IsKept v
  reached-IsKept w v h (stop _) = h
  reached-IsKept w v h (next _ m _ s rest) = reached-IsKept m v (step-IsKept w m h s) rest

-- With a positive limit of connections, from a new session on: whatever way its requests and its grace
-- timers interleave, as long as every request that waits to join goes on, a slot that is held has an
-- active request, a request about to join or a timer that will run, so it is not stranded; the session
-- stays in the map while it holds the slot; and the slot is returned at most once.
pub steps-IsKept :
    (max_conns : ℕ) (grace : ℤ) (w : World)
    → 0 < max_conns
    → Steps max_conns grace (world new_session 0 0 true 0) w
    → IsKept w
steps-IsKept max_conns grace w positive run =
    reached-IsKept max_conns grace positive (world new_session 0 0 true 0) w fresh-IsKept run
