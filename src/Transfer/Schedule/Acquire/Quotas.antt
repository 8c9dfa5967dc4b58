-- ===== src/Transfer/Schedule/Acquire/Quotas.antt =====
-- What the sections of a request do to the reserved bytes and to the counts of the accounts.
use tdrive.Base.{
  ℕ, ◌+◌, ◌≤◌, ◌≡◌, refl, ap, ◌∙◌, inl, inr, Bool, true, false, Option, none, some, List, [], ◌∷◌,
  arith, if◌then◌else◌, Bool-cases, choose_true, choose_false,
}
use tdrive.Base.Int.{ℤ, pos, negsuc, pos_part}
use tdrive.Transfer.Quota.{
  QuotaKey, same_key, Tracker, Stored, Reservation, may_start, fits, reserve, set_actual, commit,
  ensure_loaded,
}
use tdrive.Transfer.Quota.Ledger.{
  ensure_loaded-reserved, claim-reserved, commit-reserved, set_actual-frame, same_key_refl,
}
use tdrive.Transfer.Quota.Balance.{after_grant, after_refusal}
use tdrive.Transfer.Schedule.{
  Account, Transfer, key_for, limit_for, quota_may_start, and_fits, start_and_fit, taken_or, scan,
  or_else, first_account_for_transfer,
}
use tdrive.Transfer.Schedule.Acquire.{track_task, Lease, commit_quota}
use tdrive.Transfer.Schedule.Acquire.Totals.{reservation_bytes, lease_counts}

module _ (stored : Stored) (key : QuotaKey) (limit : ℕ) (size : ℤ) (t : Tracker) where
  may_start-reserved : (may_start stored key limit size t).0.reserved ≡ t.reserved
  unfolding may_start
  may_start-reserved = ground (arith, ensure_loaded-reserved stored (key.account_id) (key.date) t)

  fits-reserved : (fits stored key limit size t).0.reserved ≡ t.reserved
  unfolding fits
  fits-reserved = ground (arith, ensure_loaded-reserved stored (key.account_id) (key.date) t)

-- A choice reserves nothing.
module _ (stored : Stored) (x : Transfer) where
  start_and_fit-reserved :
      (a : Account) (t : Tracker) → (start_and_fit stored x a t).0.reserved ≡ t.reserved
  start_and_fit-reserved a t =
      after_test (quota_may_start stored x a t)
      ∙ may_start-reserved stored (key_for x a) (limit_for x a) (x.size) t
    where
      after_test : (r : Tracker × Bool) → (and_fits stored x a r).0.reserved ≡ r.0.reserved
      after_test (u, true) = fits-reserved stored (key_for x a) (limit_for x a) (x.size) u
      after_test (u, false) = refl

  taken_or-reserved :
      (a : Account) (r : Tracker × Bool) (search : Tracker → Tracker × Option Account)
      → ((u : Tracker) → (search u).0.reserved ≡ u.reserved)
      → (taken_or a r search).0.reserved ≡ r.0.reserved
  taken_or-reserved a (u, true) search h = refl
  taken_or-reserved a (u, false) search h = h u

  or_else-reserved :
      (r : Tracker × Option Account) (search : Tracker → Tracker × Option Account)
      → ((u : Tracker) → (search u).0.reserved ≡ u.reserved)
      → (or_else r search).0.reserved ≡ r.0.reserved
  or_else-reserved (u, some a) search h = refl
  or_else-reserved (u, none) search h = h u

  either_way :
      (b : Bool) (p q : Tracker × Option Account) (m : QuotaKey → ℕ)
      → p.0.reserved ≡ m
      → q.0.reserved ≡ m
      → (if b then p else q).0.reserved ≡ m
  either_way true p q m e f = e
  either_way false p q m e f = f

  scan-reserved :
      (test : Account → Tracker → Tracker × Bool)
      → ((a : Account) (t : Tracker) → (test a t).0.reserved ≡ t.reserved)
      → (xs : List (Option Account)) (t : Tracker) → (scan test xs t).0.reserved ≡ t.reserved
  unfolding scan
  scan-reserved test h [] t = refl
  scan-reserved test h (none ∷ xs) t = scan-reserved test h xs t
  scan-reserved test h (some a ∷ xs) t =
      either_way (a.available) _ _ (t.reserved)
        (taken_or-reserved a (test a t) (scan test xs) (scan-reserved test h xs) ∙ h a t)
        (scan-reserved test h xs t)

  pub first_account_for_transfer-reserved :
      (xs : List (Option Account)) (t : Tracker)
      → (first_account_for_transfer stored x xs t).0.reserved ≡ t.reserved
  unfolding first_account_for_transfer
  first_account_for_transfer-reserved xs t =
      or_else-reserved _ _ (λ u.
        scan-reserved (quota_may_start stored x)
          (λ a v. may_start-reserved stored (key_for x a) (limit_for x a) (x.size) v) xs u)
      ∙ scan-reserved (start_and_fit stored x) start_and_fit-reserved xs t

-- A reservation adds its bytes under its key, a refusal nothing.
module _ (stored : Stored) (key : QuotaKey) (limit : ℕ) (size : ℤ) (t after : Tracker) where
  pub grant-reserved :
      (r : Reservation)
      → reserve stored key limit size t ≡ (after, some r)
      → (k : QuotaKey) → after.reserved k ≡ reservation_bytes k (some r) + t.reserved k
  grant-reserved r e k =
      let (a, b, g) = after_grant stored key limit size t after r e in
      let n = pos_part size in
      let l = ensure_loaded stored (key.account_id) (key.date) t in
      rw (a, b)
        (claim-reserved key n l k
          ∙ ap (λ m. (if same_key key k then n else 0) + m k)
              (ensure_loaded-reserved stored (key.account_id) (key.date) t))

  pub refusal-reserved :
      reserve stored key limit size t ≡ (after, none) → after.reserved ≡ t.reserved
  refusal-reserved e =
      ap (λ (u : Tracker). u.reserved) (after_refusal stored key limit size t after e)
      ∙ ensure_loaded-reserved stored (key.account_id) (key.date) t

-- A report changes nothing that counts.
pub set_actual-bytes :
    (k : QuotaKey) (bytes : ℤ) (r : Reservation)
    → reservation_bytes k (some (set_actual bytes r)) ≡ reservation_bytes k (some r)
set_actual-bytes k bytes r =
    let (k_same, e_same, c_same) = set_actual-frame bytes r in rw (k_same, e_same, c_same) refl

-- A commit takes the bytes of an open reservation away.
module _ (t : Tracker) where
  open_commit :
      (r : Reservation)
      → r.committed ≡ false
      → reservation_bytes (r.key) (some r) ≤ t.reserved (r.key)
      → (k : QuotaKey) → (commit r t).1.0.reserved k + reservation_bytes k (some r) ≡ t.reserved k
  open_commit r o h k =
      omega (arith, open_bytes k, commit-reserved r t k o (omega (arith, h, own_bytes)))
    where
      open_bytes :
          (i : QuotaKey)
          → reservation_bytes i (some r) ≡ (if same_key (r.key) i then r.expected else 0)
      open_bytes i = choose_false _ _ o

      own_bytes : reservation_bytes (r.key) (some r) ≡ r.expected
      own_bytes = open_bytes (r.key) ∙ choose_true _ _ (same_key_refl (r.key))

  open_commit-closes :
      (r : Reservation)
      → r.committed ≡ false
      → (k : QuotaKey) → reservation_bytes k (some (commit r t).0) ≡ 0
  unfolding commit
  open_commit-closes r o k = rw o refl

  closed_commit :
      (r : Reservation)
      → r.committed ≡ true
      → (k : QuotaKey) → (commit r t).1.0.reserved k + reservation_bytes k (some r) ≡ t.reserved k
  unfolding commit
  closed_commit r o k = rw o (omega arith)

  closed_commit-closes :
      (r : Reservation)
      → r.committed ≡ true
      → (k : QuotaKey) → reservation_bytes k (some (commit r t).0) ≡ 0
  unfolding commit
  closed_commit-closes r o k = rw o refl

  pub commit_quota-bytes :
      (o : Option Reservation)
      → ((k : QuotaKey) → reservation_bytes k o ≤ t.reserved k)
      → (k : QuotaKey)
      → ((commit_quota o t).1.reserved k + reservation_bytes k o ≡ t.reserved k)
        × (reservation_bytes k (commit_quota o t).0 ≡ 0)
  commit_quota-bytes none h k = (omega arith, refl)
  commit_quota-bytes (some r) h k = elim (Bool-cases (r.committed)) [
    | inl e ↦ (closed_commit r e k, closed_commit-closes r e k)
    | inr e ↦ (open_commit r e (h (r.key)) k, open_commit-closes r e k)
  ]

-- The count of an account is up by one with a lease, and down by one after it.
module _ (counts : Bool → ℕ → ℕ) (l : Lease) (o : l.released ≡ false) (v : Bool) (i : ℕ) where
  pub track_task-up :
      track_task (l.account_id) (l.is_upload) (pos 1) counts v i ≡ lease_counts v i l + counts v i
  unfolding track_task
  track_task-up = ground (arith, o)

  pub track_task-down :
      lease_counts v i l ≤ counts v i
      → track_task (l.account_id) (l.is_upload) (negsuc 0) counts v i + lease_counts v i l
        ≡ counts v i
  unfolding track_task
  track_task-down h = ground (arith, o, h)
