-- ===== src/Transfer/Quota/Ledger.antt =====
-- The reserved bytes of every key are the sum of the open reservations, whatever the interleaving.
use tdrive.Base.{
  ℕ, ◌+◌, ◌≤◌, ◌<◌, ◌≡◌, refl, sym, ap, ◌∙◌, ◌⊎◌, inl, inr, true, false, Option, none, some, List,
  [], ◌∷◌, ◌++◌, arith, if◌then◌else◌, Bool-cases, All,
}
use tdrive.Base.Int.{ℤ, pos_part}
use tdrive.Transfer.Quota.{
  Direction, QuotaKey, same_direction, same_key, Tracker, Stored, Reservation, new_reservation,
  claim, load_day, ensure_loaded, reserve, set_actual, commit,
}

same_direction_sound : (a b : Direction) → same_direction a b ≡ true → a ≡ b
same_direction_sound a b h = ground arith

pub same_key_sound : (a b : QuotaKey) → same_key a b ≡ true → a ≡ b
same_key_sound a b h = ground (arith, same_direction_sound (a.direction) (b.direction))

pub load_day-reserved :
    (account day : ℕ) (o : Option (ℕ × ℕ)) (t : Tracker)
    → (load_day account day o t).reserved ≡ t.reserved
load_day-reserved account day none t = refl
load_day-reserved account day (some (up, down)) t = refl

pub ensure_loaded-reserved :
    (stored : Stored) (account day : ℕ) (t : Tracker)
    → (ensure_loaded stored account day t).reserved ≡ t.reserved
unfolding ensure_loaded
ensure_loaded-reserved stored account day t = elim (Bool-cases (t.loaded account day)) [
  | inl e ↦ rw e refl
  | inr e ↦ rw e (load_day-reserved account day (stored account day) t)
]

-- How a reservation comes to be granted.
abbrev pub Granted : ℕ → ℕ → ℕ → ℕ → Type 0
Granted limit size used reserved =
    (limit ≡ 0) ⊎ (size ≡ 0) ⊎ (used + reserved + size ≤ limit) ⊎ ((used < limit) × (reserved ≡ 0))

module _ (stored : Stored) (key : QuotaKey) (limit : ℕ) (size : ℤ) (t : Tracker) where
  pub reserve-cases :
      let l = ensure_loaded stored (key.account_id) (key.date) t in
      let n = pos_part size in
      (reserve stored key limit size t ≡ (l, none))
      ⊎ ((reserve stored key limit size t ≡ (claim key n l, some (new_reservation key n)))
          × Granted limit n (l.used key) (l.reserved key))
  unfolding reserve
  reserve-cases = ground arith

abbrev pub sum_at : QuotaKey → List Reservation → ℕ
sum_at key [] = 0
sum_at key (r ∷ rs) = (if same_key (r.key) key then r.expected else 0) + sum_at key rs

pub sum_at-append :
    (key : QuotaKey) (xs ys : List Reservation)
    → sum_at key (xs ++ ys) ≡ sum_at key xs + sum_at key ys
sum_at-append key [] ys = omega arith
sum_at-append key (r ∷ rs) ys = omega (arith, sum_at-append key rs ys)

abbrev pub IsOpen : Reservation → Type 0
IsOpen r = r.committed ≡ false

pub All-append : (xs ys : List Reservation) → All IsOpen (xs ++ ys) → All IsOpen xs × All IsOpen ys
All-append [] ys h = (tt, h)
All-append (x ∷ xs) ys h = let (a, b) = All-append xs ys (h.1) in ((h.0, a), b)

pub append-All : (xs ys : List Reservation) → All IsOpen xs → All IsOpen ys → All IsOpen (xs ++ ys)
append-All [] ys a b = b
append-All (x ∷ xs) ys a b = (a.0, append-All xs ys (a.1) b)

-- The tracker and the reservations that are out.
pub record Desk : Type 0 where
  pub tracker : Tracker
  pub out : List Reservation

abbrev pub desk : Tracker → List Reservation → Desk
desk t rs = record { tracker = t; out = rs }

-- `limit_of` is the limit a key is reserved under, and `reports` restricts what a transfer may report.
module _ (stored : Stored) (limit_of : QuotaKey → ℕ) (reports : ℤ → Reservation → Type 0) where
  pub data Step : Desk → Desk → Type 0 where
    granted :
        (key : QuotaKey) (size : ℤ) (t t_after : Tracker) (r : Reservation) (rs : List Reservation)
        → reserve stored key (limit_of key) size t ≡ (t_after, some r)
        → Step (desk t rs) (desk t_after (r ∷ rs))
    refused :
        (key : QuotaKey) (size : ℤ) (t t_after : Tracker) (rs : List Reservation)
        → reserve stored key (limit_of key) size t ≡ (t_after, none)
        → Step (desk t rs) (desk t_after rs)
    reported :
        (bytes : ℤ) (t : Tracker) (before : List Reservation) (r : Reservation)
        (rest : List Reservation)
        → reports bytes r
        → Step (desk t (before ++ r ∷ rest)) (desk t (before ++ set_actual bytes r ∷ rest))
    released :
        (t : Tracker) (before : List Reservation) (r : Reservation) (rest : List Reservation)
        → Step (desk t (before ++ r ∷ rest)) (desk (commit r t).1.0 (before ++ rest))

  pub data Steps : Desk → Desk → Type 0 where
    stop : (d : Desk) → Steps d d
    next : (d e f : Desk) → Step d e → Steps e f → Steps d f

pub record IsBalanced (d : Desk) : Type 0 where
  pub balanced : (key : QuotaKey) → d.tracker.reserved key ≡ sum_at key (d.out)
  pub all_open : All IsOpen (d.out)

pub claim-reserved :
    (key : QuotaKey) (n : ℕ) (t : Tracker) (k : QuotaKey)
    → (claim key n t).reserved k ≡ (if same_key key k then n else 0) + t.reserved k
claim-reserved key n t k = elim (Bool-cases (same_key key k)) [
  | inl e ↦ rw (e, same_key_sound key k e) (omega arith)
  | inr e ↦ rw e (omega arith)
]

pub claim-IsBalanced :
    (key : QuotaKey) (n : ℕ) (t : Tracker) (rs : List Reservation)
    → IsBalanced (desk t rs)
    → IsBalanced (desk (claim key n t) (new_reservation key n ∷ rs))
claim-IsBalanced key n t rs h = record {
  balanced = λ k. omega (arith, claim-reserved key n t k, h.balanced k);
  all_open = (refl, h.all_open);
}

pub loaded-IsBalanced :
    (stored : Stored) (account day : ℕ) (t : Tracker) (rs : List Reservation)
    → IsBalanced (desk t rs)
    → IsBalanced (desk (ensure_loaded stored account day t) rs)
loaded-IsBalanced stored account day t rs h = record {
  balanced = λ k. ap (λ m. m k) (ensure_loaded-reserved stored account day t) ∙ h.balanced k;
  all_open = h.all_open;
}

-- A report changes neither the key, nor the expected size, nor whether the reservation is open.
pub set_actual-frame :
    (bytes : ℤ) (r : Reservation)
    → ((set_actual bytes r).key ≡ r.key)
      × ((set_actual bytes r).expected ≡ r.expected)
      × ((set_actual bytes r).committed ≡ r.committed)
unfolding set_actual
set_actual-frame bytes r = elim (Bool-cases (r.committed)) [
  | inl e ↦ rw e (refl, refl, refl)
  | inr e ↦ rw e (refl, refl, refl)
]

pub sum_at-report :
    (k : QuotaKey) (bytes : ℤ) (r : Reservation)
    → (if same_key ((set_actual bytes r).key) k then (set_actual bytes r).expected else 0)
      ≡ (if same_key (r.key) k then r.expected else 0)
sum_at-report k bytes r =
    let (k_same, e_same, c_same) = set_actual-frame bytes r in rw (k_same, e_same) refl

pub reported-IsBalanced :
    (bytes : ℤ) (t : Tracker) (before : List Reservation) (r : Reservation)
    (rest : List Reservation)
    → IsBalanced (desk t (before ++ r ∷ rest))
    → IsBalanced (desk t (before ++ set_actual bytes r ∷ rest))
reported-IsBalanced bytes t before r rest h =
    let (k_same, e_same, c_same) = set_actual-frame bytes r in
    let (a, b) = All-append before (r ∷ rest) (h.all_open) in
    record {
      balanced = λ k. omega (
        arith,
        h.balanced k,
        sum_at-append k before (r ∷ rest),
        sum_at-append k before (set_actual bytes r ∷ rest),
        sum_at-report k bytes r,
      );
      all_open = append-All before (set_actual bytes r ∷ rest) a (c_same ∙ b.0, b.1);
    }

pub commit-reserved :
    (r : Reservation) (t : Tracker) (k : QuotaKey)
    → r.committed ≡ false
    → r.expected ≤ t.reserved (r.key)
    → (commit r t).1.0.reserved k + (if same_key (r.key) k then r.expected else 0) ≡ t.reserved k
unfolding commit
commit-reserved r t k o h = rw o (elim (Bool-cases (same_key (r.key) k)) [
  | inl e ↦ rw (e, sym (same_key_sound (r.key) k e)) (ground arith)
  | inr e ↦ rw e (omega arith)
])

pub same_key_refl : (k : QuotaKey) → same_key k k ≡ true
same_key_refl k = ground arith

pub out_is_reserved :
    (t : Tracker) (before : List Reservation) (r : Reservation) (rest : List Reservation)
    → IsBalanced (desk t (before ++ r ∷ rest))
    → r.expected ≤ t.reserved (r.key)
out_is_reserved t before r rest h =
    omega (arith, h.balanced (r.key), sum_at-append (r.key) before (r ∷ rest), counted)
  where
    counted : (if same_key (r.key) (r.key) then r.expected else 0) ≡ r.expected
    counted = rw (same_key_refl (r.key)) refl

pub released-IsBalanced :
    (t : Tracker) (before : List Reservation) (r : Reservation) (rest : List Reservation)
    → IsBalanced (desk t (before ++ r ∷ rest))
    → IsBalanced (desk (commit r t).1.0 (before ++ rest))
released-IsBalanced t before r rest h =
    let (a, b) = All-append before (r ∷ rest) (h.all_open) in
    record {
      balanced = λ k. omega (
        arith,
        h.balanced k,
        sum_at-append k before (r ∷ rest),
        sum_at-append k before rest,
        commit-reserved r t k (b.0) (out_is_reserved t before r rest h),
      );
      all_open = append-All before rest a (b.1);
    }
