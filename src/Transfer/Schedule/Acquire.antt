-- ===== src/Transfer/Schedule/Acquire.antt =====
-- acquire of internal/drive/schedule.go with syncLimiter, newLease and trackTask, cut where another
-- request may run: each function is one section, from one lock, wait or select to the next. An upload
-- flag selects the limiter and the counts of a direction. A nil limiter is `none`; an account id is a
-- number, 0 the empty one; an account that no map has counts 0. The list of accounts, Ready, the limit of
-- the settings and a fresh waiter are arguments, since they change while a request waits.
pub mod Stages
pub mod Totals
pub mod Sides
pub mod Quotas
pub mod Sections
pub mod Leases
pub mod Carried
pub mod Choices
pub mod Accounting
pub mod Undisturbed
pub mod Returns
pub mod Examples
use tdrive.Base.{
  ℕ, ◌+◌, ◌-◌, Bool, true, false, Option, none, some, List, [], ◌∷◌, ◌==◌, if◌then◌else◌,
}
use tdrive.Base.Int.{ℤ, pos, negsuc, pos_part, ◌+ℤ◌}
use tdrive.Transfer.Quota.{Tracker, Stored, Reservation, reserve, set_actual, commit}
use tdrive.Transfer.Limiter.{TaskLimiter, new_task_limiter, set_limit, release}
use tdrive.Transfer.Schedule.{
  Account, Transfer, key_for, limit_for, first_account_for_transfer, has_available_account,
}

-- The part of the service that transfers share.
pub record Service : Type 0 where
  pub limiters : Bool → Option TaskLimiter
  pub quotas : Tracker
  pub active_tasks : Bool → ℕ → ℕ

abbrev pub service : (Bool → Option TaskLimiter) → Tracker → (Bool → ℕ → ℕ) → Service
service ls t counts = record { limiters = ls; quotas = t; active_tasks = counts }

-- The service at its start, with the limits of the settings.
abbrev pub new_service : (Bool → ℤ) → Tracker → Service
new_service limits t = service (λ u. some (new_task_limiter (limits u))) t (λ u i. 0)

abbrev pub same_side : Bool → Bool → Bool
same_side true true = true
same_side false false = true
same_side u v = false

-- One direction's value is replaced.
abbrev pub put_side {ℓ} : {A : Type ℓ} → Bool → A → (Bool → A) → Bool → A
put_side u x f v = if same_side u v then x else f v

-- What the count of an account becomes: one that is not positive leaves the map.
abbrev pub count_to : ℕ → ℤ → ℕ
count_to n delta = pos_part (pos n +ℤ delta)

unfoldable pub track_task : ℕ → Bool → ℤ → (Bool → ℕ → ℕ) → Bool → ℕ → ℕ
track_task account_id is_upload delta counts =
    if account_id == 0
    then counts
    else put_side is_upload
        (λ i. if account_id == i then count_to (counts is_upload i) delta else counts is_upload i)
        counts

-- `released` is the once of the release function.
pub record Lease : Type 0 where
  pub account_id : ℕ
  pub is_upload : Bool
  pub quota : Option Reservation
  pub released : Bool

unfoldable pub new_lease :
    Account → Bool → Option Reservation → (Bool → ℕ → ℕ) → (Bool → ℕ → ℕ) × Lease
new_lease a is_upload reservation counts = (
  track_task (a.id) is_upload (pos 1) counts,
  record { account_id = a.id; is_upload = is_upload; quota = reservation; released = false },
)

-- `reservation.commit()`, when there is one; what it stores in the database is left out.
abbrev pub commit_quota : Option Reservation → Tracker → Option Reservation × Tracker
commit_quota none t = (none, t)
commit_quota (some r) t = (some (commit r t).0, (commit r t).1.0)

-- The release function of the slot; with it, the waiters whose ready channels it closes.
abbrev pub release_func : Option TaskLimiter → Option TaskLimiter × List ℕ
release_func none = (none, [])
release_func (some l) = (some (release l).0, (release l).1)

abbrev pub release_slot : Bool → Service → Service × List ℕ
release_slot is_upload s =
    let r = release_func (s.limiters is_upload) in
    (service (put_side is_upload (r.0) (s.limiters)) (s.quotas) (s.active_tasks), r.1)

unfoldable pub release_lease : Lease → Service → Lease × (Service × List ℕ)
release_lease l s =
    if l.released
    then (l, (s, []))
    else (let c = commit_quota (l.quota) (s.quotas) in
        (
          record {
            account_id = l.account_id;
            is_upload = l.is_upload;
            quota = c.0;
            released = true;
          },
          release_slot (l.is_upload) (
              service (s.limiters) (c.1)
                (track_task (l.account_id) (l.is_upload) (negsuc 0) (s.active_tasks))),
        ))

-- recordQuotaBytes of internal/drive/quota.go.
unfoldable pub record_quota_bytes : ℤ → Lease → Lease
record_quota_bytes bytes l = record {
  account_id = l.account_id;
  is_upload = l.is_upload;
  quota = elim l.quota [ none ↦ none | some r ↦ some (set_actual bytes r) ];
  released = l.released;
}

-- The limiter of a direction is made by the first request, and follows the settings afterwards.
abbrev pub synced_limiter : ℤ → Option TaskLimiter → TaskLimiter × List ℕ
synced_limiter limit none = (new_task_limiter limit, [])
synced_limiter limit (some l) = set_limit limit l

abbrev pub sync_limiter : Bool → ℤ → Service → Service × List ℕ
sync_limiter is_upload limit s =
    let r = synced_limiter limit (s.limiters is_upload) in
    (service (put_side is_upload (some (r.0)) (s.limiters)) (s.quotas) (s.active_tasks), r.1)

pub data AcquireError : Type 0 where
  no_account : AcquireError
  not_admitted : AcquireError
  cancelled : AcquireError

-- Where a request stands: at the top of the loop, before the generation is read, before the choice,
-- in one of the two waits, before limiter.acquire, in its select, with a slot before the second
-- choice, with an account before the reservation, or back with a lease or an error.
pub data Stage : Type 0 where
  looking : Stage
  synced : List (Option Account) → Stage
  observed : List (Option Account) → ℕ → Stage
  cooling : ℕ → Stage
  spent : ℕ → Stage
  joining : Stage
  queued : ℕ → Stage
  choosing : Stage
  chosen : Account → Stage
  leased : Lease → Stage
  failed : AcquireError → Stage

abbrev pub look_at : Bool → List (Option Account) → Stage
look_at ready [] = if ready then failed not_admitted else failed no_account
look_at ready (a ∷ xs) = synced (a ∷ xs)

abbrev pub waits_or_joins : List (Option Account) → ℕ → Option Account → Stage
waits_or_joins accounts seen (some a) = joining
waits_or_joins accounts seen none =
    if has_available_account accounts then spent seen else cooling seen

unfoldable pub choose : Stored → Transfer → List (Option Account) → ℕ → Service → Service × Stage
choose stored x accounts seen s =
    let r = first_account_for_transfer stored x accounts (s.quotas) in
    (service (s.limiters) (r.0) (s.active_tasks), waits_or_joins accounts seen (r.1))

-- With the slot and a choice, or the lack of one.
abbrev pub keep_or_return : Bool → Option Account → Service → (Service × List ℕ) × Stage
keep_or_return is_upload (some a) s = ((s, []), chosen a)
keep_or_return is_upload none s = (release_slot is_upload s, looking)

unfoldable pub choose_again :
    Stored → Transfer → List (Option Account) → Service → (Service × List ℕ) × Stage
choose_again stored x accounts s =
    let r = first_account_for_transfer stored x accounts (s.quotas) in
    keep_or_return (x.is_upload) (r.1) (service (s.limiters) (r.0) (s.active_tasks))

abbrev pub lease_or_return :
    Transfer → Account → Option Reservation → Service → (Service × List ℕ) × Stage
lease_or_return x a none s = (release_slot (x.is_upload) s, looking)
lease_or_return x a (some r) s =
    let n = new_lease a (x.is_upload) (some r) (s.active_tasks) in
    ((service (s.limiters) (s.quotas) (n.0), []), leased (n.1))

unfoldable pub reserve_chosen : Stored → Transfer → Account → Service → (Service × List ℕ) × Stage
reserve_chosen stored x a s =
    let r = reserve stored (key_for x a) (limit_for x a) (x.size) (s.quotas) in
    lease_or_return x a (r.1) (service (s.limiters) (r.0) (s.active_tasks))
