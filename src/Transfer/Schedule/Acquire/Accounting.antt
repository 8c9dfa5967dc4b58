-- ===== src/Transfer/Schedule/Acquire/Accounting.antt =====
-- Over any interleaving of requests and leases, what is held is what is accounted for.
use tdrive.Base.{
  ℕ, ◌+◌, ◌≡◌, refl, sym, ap, Bool, false, Option, none, some, List, [], ◌∷◌, ◌++◌, arith,
}
use tdrive.Base.Int.{ℤ}
use tdrive.Transfer.Quota.{QuotaKey, Tracker, Stored, Reservation, set_actual}
use tdrive.Transfer.Limiter.Fairness.{new_task_limiter-IsSound}
use tdrive.Transfer.Schedule.{Transfer, on_day}
use tdrive.Transfer.Schedule.Acquire.{
  Service, new_service, same_side, Lease, record_quota_bytes, Stage, looking, synced, observed,
  joining, queued, choosing, leased, failed, cancelled, look_at,
}
use tdrive.Transfer.Schedule.Acquire.Stages.{
  Scene, scene, Move, looks, observes, chooses, looks_anew, starts_anew, stops_cooling,
  stops_waiting, enters, queues, returns, gives_up_granted, gives_up_waiting, chooses_again,
  reserves, records, releases, Task, task, World, world, Step, asked, moved, Steps, stop, next,
}
use tdrive.Transfer.Schedule.Acquire.Totals.{
  slots, reservation_bytes, reserved_bytes, counts, sum_by, sum_by-place, IsAccounted,
}
use tdrive.Transfer.Schedule.Acquire.Quotas.{set_actual-bytes}
use tdrive.Transfer.Schedule.Acquire.Sections.{
  sync-Accounts, enters-Accounts, queues-Accounts, gives_up_waiting-Accounts,
  gives_up_granted-Accounts, returns-Accounts,
}
use tdrive.Transfer.Schedule.Acquire.Leases.{release_lease-Accounts}
use tdrive.Transfer.Schedule.Acquire.Carried.{
  same_totals, look_at-IsIdle, stage-IsIdle, mine, idle, holding, from_idle, nothing, own_more,
  same_other,
}
use tdrive.Transfer.Schedule.Acquire.Choices.{
  With, choosing-IsHolding, between, chosen-With, again-With, reserves-With,
}

-- A report leaves the books as they are.
pub records-bytes :
    (k : QuotaKey) (bytes : ℤ) (o : Option Reservation)
    → reservation_bytes k (elim o [ none ↦ none | some r ↦ some (set_actual bytes r) ])
      ≡ reservation_bytes k o
records-bytes k bytes none = refl
records-bytes k bytes (some r) = set_actual-bytes k bytes r

module _ (stored : Stored) (x : Transfer) (n : Bool → ℕ) (e : QuotaKey → ℕ) (c : Bool → ℕ → ℕ) where
  abbrev Books : Scene → Type 0
  Books = With stored x n e c

  one_more :
      mine x n e c (x.is_upload) + n (x.is_upload) ≡ nothing (x.is_upload) + n (x.is_upload) + 1
  one_more = omega (arith, own_more x n e c)

  beside_more :
      (v : Bool) → same_side (x.is_upload) v ≡ false → mine x n e c v + n v ≡ nothing v + n v
  beside_more v f = sym (same_other x n e c v f)

  recorded :
      (bytes : ℤ) (l : Lease) (s : Service) (woken : Bool → List ℕ)
      → Books (scene s woken (leased l))
      → Books (scene s woken (leased (record_quota_bytes bytes l)))
  unfolding record_quota_bytes
  recorded bytes l s woken h =
      same_totals s woken _ _ _ _ _ _ (λ v. refl)
        (λ k. ap (λ i. i + e k) (records-bytes k bytes (l.quota))) (λ v i. refl) h

  pub Move-Books : (a b : Scene) → Move stored x a b → Books a → Books b
  Move-Books a b (looks ready accounts limit s woken) h =
      idle x n e c _ _ (look_at ready accounts) (look_at-IsIdle ready accounts) (
        sync-Accounts s woken _ e c (from_idle x n e c s woken looking (stage-IsIdle _ refl) h)
          (x.is_upload) limit)
  Move-Books a b (observes accounts s woken) h =
      between stored x n e c s woken (synced accounts) (observed accounts (s.quotas.generation))
        (stage-IsIdle _ refl) (stage-IsIdle _ refl) h
  Move-Books a b (chooses day accounts seen s woken) h =
      chosen-With stored (on_day day x) n e c accounts seen s woken h
  Move-Books a b (looks_anew seen s woken) h = h
  Move-Books a b (starts_anew seen s woken) h = h
  Move-Books a b (stops_cooling seen s woken) h = h
  Move-Books a b (stops_waiting seen s woken) h = h
  Move-Books a b (enters w l after s woken known f) h =
      holding x n e c _ woken choosing choosing-IsHolding (
        enters-Accounts s woken _ e c (from_idle x n e c s woken joining (stage-IsIdle _ refl) h)
          (x.is_upload) l known w after _ f one_more beside_more)
  Move-Books a b (queues w l after s woken known f absent g d) h =
      idle x n e c _ woken (queued w) (stage-IsIdle _ refl) (
        queues-Accounts s woken _ e c (from_idle x n e c s woken joining (stage-IsIdle _ refl) h)
          (x.is_upload) l known w after f absent g d)
  Move-Books a b (returns before w rest s woken f) h =
      holding x n e c s _ choosing choosing-IsHolding (
        returns-Accounts s woken _ e c
          (from_idle x n e c s woken (queued w) (stage-IsIdle _ refl) h) (x.is_upload) before w rest
          _ f one_more beside_more)
  Move-Books a b (gives_up_granted before w rest l s woken known f) h =
      idle x n e c _ _ (failed cancelled) (stage-IsIdle _ refl) (
        gives_up_granted-Accounts s woken _ e c
          (from_idle x n e c s woken (queued w) (stage-IsIdle _ refl) h) (x.is_upload) l known
          before w rest f)
  Move-Books a b (gives_up_waiting w l s woken known f) h =
      idle x n e c _ _ (failed cancelled) (stage-IsIdle _ refl) (
        gives_up_waiting-Accounts s woken _ e c
          (from_idle x n e c s woken (queued w) (stage-IsIdle _ refl) h) (x.is_upload) l known w f)
  Move-Books a b (chooses_again day accounts s woken) h =
      again-With stored (on_day day x) n e c accounts s woken h
  Move-Books a b (reserves day y s woken) h = reserves-With stored (on_day day x) n e c y s woken h
  Move-Books a b (records bytes l s woken) h = recorded bytes l s woken h
  Move-Books a b (releases l s woken) h = release_lease-Accounts l s woken n e c h

module _ (x : Transfer) (before rest : List Task) (s : Service) (woken : Bool → List ℕ) where
  abbrev slots_beside : Bool → ℕ
  slots_beside v =
      sum_by (λ t. slots v (t.transfer.is_upload) (t.stage)) before
      + sum_by (λ t. slots v (t.transfer.is_upload) (t.stage)) rest

  abbrev bytes_beside : QuotaKey → ℕ
  bytes_beside k =
      sum_by (λ t. reserved_bytes k (t.stage)) before
      + sum_by (λ t. reserved_bytes k (t.stage)) rest

  abbrev counts_beside : Bool → ℕ → ℕ
  counts_beside v i =
      sum_by (λ t. counts v i (t.stage)) before + sum_by (λ t. counts v i (t.stage)) rest

  module _ (stored : Stored) (st : Stage) where
    abbrev Apart : Type 0
    Apart = With stored x slots_beside bytes_beside counts_beside (scene s woken st)

    apart : IsAccounted (world s woken (before ++ task x st ∷ rest)) → Apart
    apart h =
        same_totals s woken _ _ _ _ _ _
          (λ v.
            sym (
              sum_by-place (λ t. slots v (t.transfer.is_upload) (t.stage)) before (task x st) rest))
          (λ k. sym (sum_by-place (λ t. reserved_bytes k (t.stage)) before (task x st) rest))
          (λ v i. sym (sum_by-place (λ t. counts v i (t.stage)) before (task x st) rest)) h

    together : Apart → IsAccounted (world s woken (before ++ task x st ∷ rest))
    together h =
        same_totals s woken _ _ _ _ _ _
          (λ v.
            sum_by-place (λ t. slots v (t.transfer.is_upload) (t.stage)) before (task x st) rest)
          (λ k. sum_by-place (λ t. reserved_bytes k (t.stage)) before (task x st) rest)
          (λ v i. sum_by-place (λ t. counts v i (t.stage)) before (task x st) rest) h

module _ (stored : Stored) where
  step-IsAccounted : (a b : World) → Step stored a b → IsAccounted a → IsAccounted b
  step-IsAccounted a b (asked x s woken ts) h = together x [] ts s woken stored looking (
      idle x _ _ _ s woken looking (stage-IsIdle _ refl) (
        same_totals s woken _ _ _ _ _ _ (λ v. omega arith) (λ k. omega arith) (λ v i. omega arith)
          h))
  step-IsAccounted a b (moved x before rest p q m) h =
      together x before rest (q.shared) (q.woken) stored (q.stage) (
        Move-Books stored x _ _ _ p q m
          (apart x before rest (p.shared) (p.woken) stored (p.stage) h))

  reached-IsAccounted : (a b : World) → Steps stored a b → IsAccounted a → IsAccounted b
  reached-IsAccounted a b (stop _) h = h
  reached-IsAccounted a b (next _ m _ st rest) h =
      reached-IsAccounted m b rest (step-IsAccounted a m st h)

started-IsAccounted :
    (limits : Bool → ℤ) (t : Tracker)
    → ((k : QuotaKey) → t.reserved k ≡ 0)
    → IsAccounted (world (new_service limits t) (λ u. []) [])
started-IsAccounted limits t h = record {
  sides = λ v. new_task_limiter-IsSound (limits v);
  reserved = h;
  counted = λ v i. refl;
}

-- From a service that has just started, with no bytes reserved, whatever sections of acquire, of
-- recordQuotaBytes and of release functions run in whatever order, for any requests, lists of accounts,
-- days, limits of the settings and cancellations: in each direction the limiter is sound, its slots being
-- those of the requests that are past limiter.acquire, of the leases not yet released and of the woken
-- waiters, so that a request that failed or looks anew holds none; the reserved bytes of every key are
-- what is expected of the leases under it whose reservation is not committed; and the count of an
-- account whose id is not empty is the number of its leases not yet released.
pub steps-IsAccounted :
    (stored : Stored) (limits : Bool → ℤ) (t : Tracker)
    → ((k : QuotaKey) → t.reserved k ≡ 0)
    → (a : World) → Steps stored (world (new_service limits t) (λ u. []) []) a
    → IsAccounted a
steps-IsAccounted stored limits t h a run =
    reached-IsAccounted stored (world (new_service limits t) (λ u. []) []) a run
      (started-IsAccounted limits t h)
