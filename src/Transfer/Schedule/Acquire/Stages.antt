-- ===== src/Transfer/Schedule/Acquire/Stages.antt =====
-- Requests and leases that run at the same time, as a step relation: each step is one section of one
-- request, with the accounts, the settings, the state of the cluster and the day that it finds.
use tdrive.Base.{ℕ, ◌≡◌, Bool, true, false, Option, some, List, ◌∷◌, ◌++◌}
use tdrive.Base.Int.{ℤ}
use tdrive.Transfer.Quota.{Stored}
use tdrive.Transfer.Limiter.{TaskLimiter, enter, give_up}
use tdrive.Transfer.Limiter.Dispatch.{Absent}
use tdrive.Transfer.Schedule.{Account, Transfer, on_day}
use tdrive.Transfer.Schedule.Acquire.{
  Service, put_side, Lease, release_lease, record_quota_bytes, sync_limiter, cancelled, Stage,
  looking, synced, observed, cooling, spent, joining, queued, choosing, chosen, leased, failed,
  look_at, choose, choose_again, reserve_chosen,
}

-- What one request sees: the service, the waiters of each direction whose ready channel is closed and
-- who have yet to run on, and where it stands.
pub record Scene : Type 0 where
  pub shared : Service
  pub woken : Bool → List ℕ
  pub stage : Stage

abbrev pub scene : Service → (Bool → List ℕ) → Stage → Scene
scene s woken st = record { shared = s; woken = woken; stage = st }

abbrev pub wake : Bool → List ℕ → (Bool → List ℕ) → Bool → List ℕ
wake u ws woken = put_side u (woken u ++ ws) woken

-- The scene after a section that closes ready channels.
abbrev pub waking : Bool → (Bool → List ℕ) → (Service × List ℕ) × Stage → Scene
waking u woken r = scene (r.0.0) (wake u (r.0.1) woken) (r.1)

abbrev pub with_limiter : Bool → TaskLimiter → Service → Service
with_limiter u l s = record {
  limiters = put_side u (some l) (s.limiters);
  quotas = s.quotas;
  active_tasks = s.active_tasks;
}

module _ (stored : Stored) (x : Transfer) where
  pub data Move : Scene → Scene → Type 0 where
    looks :
        (ready : Bool) (accounts : List (Option Account)) (limit : ℤ) (s : Service)
        (woken : Bool → List ℕ)
        → Move (scene s woken looking) (
            waking (x.is_upload) woken (sync_limiter (x.is_upload) limit s, look_at ready accounts))
    observes :
        (accounts : List (Option Account)) (s : Service) (woken : Bool → List ℕ)
        → Move
            (scene s woken (synced accounts))
            (scene s woken (observed accounts (s.quotas.generation)))
    chooses :
        (day : ℕ) (accounts : List (Option Account)) (seen : ℕ) (s : Service)
        (woken : Bool → List ℕ)
        → Move (scene s woken (observed accounts seen)) (
            scene
              (choose stored (on_day day x) accounts seen s).0
              woken
              (choose stored (on_day day x) accounts seen s).1)
    looks_anew :
        (seen : ℕ) (s : Service) (woken : Bool → List ℕ)
        → Move (scene s woken (cooling seen)) (scene s woken looking)
    starts_anew :
        (seen : ℕ) (s : Service) (woken : Bool → List ℕ)
        → Move (scene s woken (spent seen)) (scene s woken looking)
    stops_cooling :
        (seen : ℕ) (s : Service) (woken : Bool → List ℕ)
        → Move (scene s woken (cooling seen)) (scene s woken (failed cancelled))
    stops_waiting :
        (seen : ℕ) (s : Service) (woken : Bool → List ℕ)
        → Move (scene s woken (spent seen)) (scene s woken (failed cancelled))
    enters :
        (w : ℕ) (l after : TaskLimiter) (s : Service) (woken : Bool → List ℕ)
        → s.limiters (x.is_upload) ≡ some l
        → enter w l ≡ (after, true)
        → Move (scene s woken joining) (scene (with_limiter (x.is_upload) after s) woken choosing)
    queues :
        (w : ℕ) (l after : TaskLimiter) (s : Service) (woken : Bool → List ℕ)
        → s.limiters (x.is_upload) ≡ some l
        → enter w l ≡ (after, false)
        → Absent w (l.queue)
        → l.granted w ≡ false
        → l.cancel w ≡ false
        → Move (scene s woken joining) (scene (with_limiter (x.is_upload) after s) woken (queued w))
    returns :
        (before : List ℕ) (w : ℕ) (rest : List ℕ) (s : Service) (woken : Bool → List ℕ)
        → woken (x.is_upload) ≡ before ++ w ∷ rest
        → Move
            (scene s woken (queued w))
            (scene s (put_side (x.is_upload) (before ++ rest) woken) choosing)
    gives_up_granted :
        (before : List ℕ) (w : ℕ) (rest : List ℕ) (l : TaskLimiter) (s : Service)
        (woken : Bool → List ℕ)
        → s.limiters (x.is_upload) ≡ some l
        → woken (x.is_upload) ≡ before ++ w ∷ rest
        → Move (scene s woken (queued w)) (
            scene
              (with_limiter (x.is_upload) (give_up w l).0 s)
              (put_side (x.is_upload) ((before ++ rest) ++ (give_up w l).1) woken)
              (failed cancelled))
    gives_up_waiting :
        (w : ℕ) (l : TaskLimiter) (s : Service) (woken : Bool → List ℕ)
        → s.limiters (x.is_upload) ≡ some l
        → l.granted w ≡ false
        → Move (scene s woken (queued w)) (
            scene
              (with_limiter (x.is_upload) (give_up w l).0 s)
              (wake (x.is_upload) (give_up w l).1 woken)
              (failed cancelled))
    chooses_again :
        (day : ℕ) (accounts : List (Option Account)) (s : Service) (woken : Bool → List ℕ)
        → Move
            (scene s woken choosing)
            (waking (x.is_upload) woken (choose_again stored (on_day day x) accounts s))
    reserves :
        (day : ℕ) (a : Account) (s : Service) (woken : Bool → List ℕ)
        → Move
            (scene s woken (chosen a))
            (waking (x.is_upload) woken (reserve_chosen stored (on_day day x) a s))
    records :
        (bytes : ℤ) (l : Lease) (s : Service) (woken : Bool → List ℕ)
        → Move (scene s woken (leased l)) (scene s woken (leased (record_quota_bytes bytes l)))
    releases :
        (l : Lease) (s : Service) (woken : Bool → List ℕ)
        → Move
            (scene s woken (leased l))
            (waking (l.is_upload) woken ((release_lease l s).1, leased (release_lease l s).0))

pub record Task : Type 0 where
  pub transfer : Transfer
  pub stage : Stage

abbrev pub task : Transfer → Stage → Task
task x st = record { transfer = x; stage = st }

pub record World : Type 0 where
  pub shared : Service
  pub woken : Bool → List ℕ
  pub tasks : List Task

abbrev pub world : Service → (Bool → List ℕ) → List Task → World
world s woken ts = record { shared = s; woken = woken; tasks = ts }

module _ (stored : Stored) where
  pub data Step : World → World → Type 0 where
    asked :
        (x : Transfer) (s : Service) (woken : Bool → List ℕ) (ts : List Task)
        → Step (world s woken ts) (world s woken (task x looking ∷ ts))
    moved :
        (x : Transfer) (before rest : List Task) (a b : Scene)
        → Move stored x a b
        → Step
            (world (a.shared) (a.woken) (before ++ task x (a.stage) ∷ rest))
            (world (b.shared) (b.woken) (before ++ task x (b.stage) ∷ rest))

  pub data Steps : World → World → Type 0 where
    stop : (a : World) → Steps a a
    next : (a b c : World) → Step a b → Steps b c → Steps a c
