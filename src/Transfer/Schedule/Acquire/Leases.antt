-- ===== src/Transfer/Schedule/Acquire/Leases.antt =====
-- A lease is granted with its bytes and its count, and its release gives all of it back.
use tdrive.Base.{
  ℕ, ◌+◌, ◌≡◌, refl, sym, ap, ◌∙◌, subst, inl, inr, Bool, true, false, none, some, List, [], ◌++◌,
  append-nil, arith, choose_true, choose_false, Bool-cases,
}
use tdrive.Base.Int.{negsuc}
use tdrive.Transfer.Quota.{QuotaKey, Tracker, Stored, Reservation, reserve}
use tdrive.Transfer.Schedule.{Account, Transfer, key_for, limit_for}
use tdrive.Transfer.Schedule.Acquire.{
  Service, service, Lease, new_lease, release_lease, release_slot, track_task, commit_quota,
}
use tdrive.Transfer.Schedule.Acquire.Stages.{wake}
use tdrive.Transfer.Schedule.Acquire.Totals.{
  Accounts, SideIsSound, lease_slots, reservation_bytes, lease_counts,
}
use tdrive.Transfer.Schedule.Acquire.Sides.{side_slot, own_slot, on_woken}
use tdrive.Transfer.Schedule.Acquire.Quotas.{
  grant-reserved, refusal-reserved, commit_quota-bytes, track_task-up, track_task-down,
}
use tdrive.Transfer.Schedule.Acquire.Sections.{other_slot, release_slot-Accounts}

-- A section that closes no channel.
pub wake-nobody :
    (s : Service) (woken : Bool → List ℕ) (n : Bool → ℕ) (e : QuotaKey → ℕ) (c : Bool → ℕ → ℕ)
    (u : Bool)
    → Accounts s woken n e c
    → Accounts s (wake u [] woken) n e c
wake-nobody s woken n e c u h = record {
  sides =
      on_woken (s.limiters) woken n n (h.sides) u (woken u ++ []) (λ v i. refl)
        (subst (λ ws. SideIsSound (s.limiters u) (n u) ws) (sym (append-nil (woken u)))
          (h.sides u));
  reserved = h.reserved;
  counted = h.counted;
}

module _ (s : Service) (woken : Bool → List ℕ) (n : Bool → ℕ) (e : QuotaKey → ℕ) (c : Bool → ℕ → ℕ)
    (h : Accounts s woken n e c) (stored : Stored) (x : Transfer) (a : Account)
    (after : Tracker) where
  pub grant-Accounts :
      (r : Reservation)
      → reserve stored (key_for x a) (limit_for x a) (x.size) (s.quotas) ≡ (after, some r)
      → let made = new_lease a (x.is_upload) (some r) (s.active_tasks) in
        Accounts
          (service (s.limiters) after (made.0))
          woken
          n
          (λ k. reservation_bytes k (made.1.quota) + e k)
          (λ v i. lease_counts v i (made.1) + c v i)
  unfolding new_lease
  grant-Accounts r f = record {
    sides = h.sides;
    reserved = λ k.
        grant-reserved stored (key_for x a) (limit_for x a) (x.size) (s.quotas) after r f k
        ∙ ap (λ i. reservation_bytes k (some r) + i) (h.reserved k);
    counted = λ v i. omega (
      arith,
      track_task-up (s.active_tasks) (new_lease a (x.is_upload) (some r) (s.active_tasks)).1 refl v
          i,
      h.counted v i,
    );
  }

  pub refusal-Accounts :
      reserve stored (key_for x a) (limit_for x a) (x.size) (s.quotas) ≡ (after, none)
      → Accounts (service (s.limiters) after (s.active_tasks)) woken n e c
  refusal-Accounts f = record {
    sides = h.sides;
    reserved = λ k.
        ap (λ m. m k)
          (refusal-reserved stored (key_for x a) (limit_for x a) (x.size) (s.quotas) after f)
        ∙ h.reserved k;
    counted = h.counted;
  }

module _ (l : Lease) (s : Service) (woken : Bool → List ℕ) (n : Bool → ℕ) (e : QuotaKey → ℕ)
    (c : Bool → ℕ → ℕ) where
  -- The books with a lease beside the rest.
  abbrev With : Lease → Service → (Bool → List ℕ) → Type 0
  With d t ws =
      Accounts t ws (λ v. lease_slots v d + n v) (λ k. reservation_bytes k (d.quota) + e k)
        (λ v i. lease_counts v i d + c v i)

  abbrev closed_lease : Lease
  closed_lease = record {
    account_id = l.account_id;
    is_upload = l.is_upload;
    quota = (commit_quota (l.quota) (s.quotas)).0;
    released = true;
  }

  abbrev settled : Service
  settled =
      service (s.limiters) (commit_quota (l.quota) (s.quotas)).1
        (track_task (l.account_id) (l.is_upload) (negsuc 0) (s.active_tasks))

  module _ (h : With l s woken) (o : l.released ≡ false) where
    open_slots : (v : Bool) → lease_slots v l ≡ side_slot (l.is_upload) v
    open_slots v = choose_false _ _ o

    settled-With :
        Accounts settled woken
          (λ v. lease_slots v l + n v)
          (λ k. reservation_bytes k (closed_lease.quota) + e k)
          (λ v i. lease_counts v i closed_lease + c v i)
    settled-With = record {
      sides = h.sides;
      reserved = λ k.
          let (a, b) =
            commit_quota-bytes (s.quotas) (l.quota) (λ i. omega (arith, h.reserved i)) k in
          omega (arith, a, b, h.reserved k);
      counted = λ v i. omega (
        arith,
        track_task-down (s.active_tasks) l o v i (omega (arith, h.counted v i)),
        h.counted v i,
        no_count v i,
      );
    }
      where
        no_count : (v : Bool) (i : ℕ) → lease_counts v i closed_lease ≡ 0
        no_count v i = ground arith

    open-With :
        let r = release_slot (l.is_upload) settled in
        With closed_lease (r.0) (wake (l.is_upload) (r.1) woken)
    open-With =
        release_slot-Accounts settled woken (λ v. lease_slots v l + n v)
          (λ k. reservation_bytes k (closed_lease.quota) + e k)
          (λ v i. lease_counts v i closed_lease + c v i) settled-With (l.is_upload)
          (λ v. lease_slots v closed_lease + n v)
          (omega (arith, open_slots (l.is_upload), own_slot (l.is_upload)))
          (λ v f. omega (arith, open_slots v, other_slot (l.is_upload) v f))

  pub release_lease-Accounts :
      With l s woken
      → let r = release_lease l s in With (r.0) (r.1.0) (wake (l.is_upload) (r.1.1) woken)
  unfolding release_lease
  release_lease-Accounts h = elim (Bool-cases (l.released)) [
    | inl o ↦
        subst
          (λ (r : Lease × (Service × List ℕ)).
            With (r.0) (r.1.0) (wake (l.is_upload) (r.1.1) woken))
          (sym (choose_true _ _ o)) (wake-nobody s woken _ _ _ (l.is_upload) h)
    | inr o ↦
        subst
          (λ (r : Lease × (Service × List ℕ)).
            With (r.0) (r.1.0) (wake (l.is_upload) (r.1.1) woken))
          (sym (choose_false _ _ o)) (open-With h o)
  ]
