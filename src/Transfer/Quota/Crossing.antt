-- ===== src/Transfer/Quota/Crossing.antt =====
-- A quota boundary is crossed by one content at a time.
use tdrive.Base.{
  ℕ, ◌+◌, ◌≤◌, ◌<◌, ◌≡◌, refl, sym, ap, ◌∙◌, subst, ◌⊎◌, inl, inr, true, false, ◌&&◌, Option, none,
  some, List, [], ◌∷◌, ◌++◌, arith, ltb, if◌then◌else◌, Bool-cases, All,
}
use tdrive.Base.Int.{ℤ, pos_part}
use tdrive.Transfer.Quota.{
  Direction, upload, download, QuotaKey, key_of, same_key, Tracker, Stored, Reservation,
  new_reservation, claim, load_day, ensure_loaded, set_actual, charge, commit,
}
use tdrive.Transfer.Quota.Ledger.{
  Granted, same_key_sound, sum_at, sum_at-append, sum_at-report, set_actual-frame, All-append, Desk,
  desk, IsBalanced, claim-IsBalanced, loaded-IsBalanced, reported-IsBalanced, released-IsBalanced,
}

-- The transfers that are out under a key and expect any bytes.
abbrev pub counted : QuotaKey → Reservation → ℕ
counted k r = if same_key (r.key) k && ltb 0 (r.expected) then 1 else 0

abbrev pub open_count : QuotaKey → List Reservation → ℕ
open_count k [] = 0
open_count k (r ∷ rs) = counted k r + open_count k rs

open_count-append :
    (k : QuotaKey) (xs ys : List Reservation)
    → open_count k (xs ++ ys) ≡ open_count k xs + open_count k ys
open_count-append k [] ys = omega arith
open_count-append k (r ∷ rs) ys = omega (arith, open_count-append k rs ys)

-- Nothing reserved, nothing counted.
open_count-zero : (k : QuotaKey) (rs : List Reservation) → sum_at k rs ≡ 0 → open_count k rs ≡ 0
open_count-zero k [] h = refl
open_count-zero k (r ∷ rs) h = ground (arith, open_count-zero k rs)

abbrev pub IsHonest : Reservation → Type 0
IsHonest r = charge r ≤ r.expected

-- One content at most crosses the limit of key k.
abbrev pub OneCrossing : ℕ → QuotaKey → Tracker → List Reservation → Type 0
OneCrossing limit k t rs = (t.used k + sum_at k rs ≤ limit) ⊎ (open_count k rs ≤ 1)

module _ (stored : Stored) (account day : ℕ) (t : Tracker) (k : QuotaKey) where
  other_key :
      (way : Direction)
      → t.loaded (k.account_id) (k.date) ≡ true
      → t.loaded account day ≡ false
      → same_key (key_of account day way) k ≡ false
  other_key way h n = elim (Bool-cases (same_key (key_of account day way) k)) [
    | inl e ↦ absurd (
        clash (
          sym n
          ∙ (ap (λ x. t.loaded (x.account_id) (x.date))
                (same_key_sound (key_of account day way) k e)
              ∙ h)))
    | inr e ↦ e
  ]
    where
      clash : false ≡ true → ⊥
      clash h = ground arith

  -- Loading another day leaves a loaded day as it is.
  ensure_loaded-frame :
      t.loaded (k.account_id) (k.date) ≡ true
      → ((ensure_loaded stored account day t).used k ≡ t.used k)
        × ((ensure_loaded stored account day t).loaded (k.account_id) (k.date) ≡ true)
  unfolding ensure_loaded
  ensure_loaded-frame h = elim (Bool-cases (t.loaded account day)) [
    | inl e ↦ rw e (refl, h)
    | inr e ↦ rw e (from_stored (stored account day) e)
  ]
    where
      from_stored :
          (o : Option (ℕ × ℕ))
          → t.loaded account day ≡ false
          → ((load_day account day o t).used k ≡ t.used k)
            × ((load_day account day o t).loaded (k.account_id) (k.date) ≡ true)
      from_stored none e = (refl, h)
      from_stored (some (up, down)) e =
          (rw (other_key upload h e, other_key download h e) refl, rw h (ground arith))

claim-OneCrossing :
    (limit : ℕ) (key : QuotaKey) (n : ℕ) (t : Tracker) (rs : List Reservation) (k : QuotaKey)
    → 0 < limit
    → OneCrossing limit k t rs
    → (same_key key k ≡ true → Granted limit n (t.used k) (sum_at k rs))
    → OneCrossing limit k (claim key n t) (new_reservation key n ∷ rs)
claim-OneCrossing limit key n t rs k p h g = elim (Bool-cases (same_key key k)) [
  | inl e ↦ rw e (elim (g e) [
    | inl z ↦ absurd (omega arith)
    | inr (inl z) ↦ ground arith
    | inr (inr (inl z)) ↦ inl (omega arith)
    | inr (inr (inr z)) ↦ inr (ground (arith, open_count-zero k rs (z.1)))
  ])
  | inr e ↦ rw e (ground arith)
]

-- Every open reservation charges at most what it expects.
abbrev pub AllHonest : List Reservation → Type 0
AllHonest = All IsHonest

honest-append : (xs ys : List Reservation) → AllHonest (xs ++ ys) → AllHonest xs × AllHonest ys
honest-append [] ys h = (tt, h)
honest-append (x ∷ xs) ys h = let (a, b) = honest-append xs ys (h.1) in ((h.0, a), b)

append-honest : (xs ys : List Reservation) → AllHonest xs → AllHonest ys → AllHonest (xs ++ ys)
append-honest [] ys a b = b
append-honest (x ∷ xs) ys a b = (a.0, append-honest xs ys (a.1) b)

abbrev pub AtMostExpected : ℤ → Reservation → Type 0
AtMostExpected bytes r = pos_part bytes ≤ r.expected

set_actual-IsHonest :
    (bytes : ℤ) (r : Reservation)
    → AtMostExpected bytes r
    → IsHonest r
    → IsHonest (set_actual bytes r)
unfolding set_actual
set_actual-IsHonest bytes r b h = ground arith

counted-report :
    (k : QuotaKey) (bytes : ℤ) (r : Reservation) → counted k (set_actual bytes r) ≡ counted k r
counted-report k bytes r =
    let (k_same, e_same, c_same) = set_actual-frame bytes r in rw (k_same, e_same) refl

pub commit-used :
    (r : Reservation) (t : Tracker) (k : QuotaKey)
    → r.committed ≡ false
    → (commit r t).1.0.used k ≡ t.used k + (if same_key (r.key) k then charge r else 0)
unfolding commit
commit-used r t k o = rw o (elim (Bool-cases (ltb 0 (charge r))) [
  | inl c ↦ rw c (elim (Bool-cases (same_key (r.key) k)) [
    | inl e ↦ rw (e, same_key_sound (r.key) k e) refl
    | inr e ↦ rw e (omega arith)
  ])
  | inr c ↦ rw c (ground arith)
])

commit-loaded : (r : Reservation) (t : Tracker) → (commit r t).1.0.loaded ≡ t.loaded
unfolding commit
commit-loaded r t = elim (Bool-cases (r.committed)) [ inl e ↦ rw e refl | inr e ↦ rw e refl ]

pub record IsBounded (limit : ℕ) (k : QuotaKey) (d : Desk) : Type 0 where
  pub ledger : IsBalanced d
  pub day_loaded : d.tracker.loaded (k.account_id) (k.date) ≡ true
  pub honest : AllHonest (d.out)
  pub one_crossing : OneCrossing limit k (d.tracker) (d.out)

module _ (limit : ℕ) (k : QuotaKey) where
  pub loaded-IsBounded :
      (stored : Stored) (account day : ℕ) (t : Tracker) (rs : List Reservation)
      → IsBounded limit k (desk t rs)
      → IsBounded limit k (desk (ensure_loaded stored account day t) rs)
  loaded-IsBounded stored account day t rs h =
      let (a, b) = ensure_loaded-frame stored account day t k (h.day_loaded) in
      record {
        ledger = loaded-IsBalanced stored account day t rs (h.ledger);
        day_loaded = b;
        honest = h.honest;
        one_crossing = rw a (h.one_crossing);
      }

  pub claim-IsBounded :
      (key : QuotaKey) (n : ℕ) (t : Tracker) (rs : List Reservation)
      → 0 < limit
      → IsBounded limit k (desk t rs)
      → (same_key key k ≡ true → Granted limit n (t.used key) (t.reserved key))
      → IsBounded limit k (desk (claim key n t) (new_reservation key n ∷ rs))
  claim-IsBounded key n t rs p h g = record {
    ledger = claim-IsBalanced key n t rs (h.ledger);
    day_loaded = h.day_loaded;
    honest = (omega arith, h.honest);
    one_crossing = claim-OneCrossing limit key n t rs k p (h.one_crossing) at_k;
  }
    where
      at_k : same_key key k ≡ true → Granted limit n (t.used k) (sum_at k rs)
      at_k e =
          subst (λ s. Granted limit n (t.used k) s) (h.ledger.balanced k)
            (subst (λ x. Granted limit n (t.used x) (t.reserved x)) (same_key_sound key k e) (g e))

  pub reported-IsBounded :
      (bytes : ℤ) (t : Tracker) (before : List Reservation) (r : Reservation)
      (rest : List Reservation)
      → AtMostExpected bytes r
      → IsBounded limit k (desk t (before ++ r ∷ rest))
      → IsBounded limit k (desk t (before ++ set_actual bytes r ∷ rest))
  reported-IsBounded bytes t before r rest ok h =
      let (a, b) = honest-append before (r ∷ rest) (h.honest) in
      record {
        ledger = reported-IsBalanced bytes t before r rest (h.ledger);
        day_loaded = h.day_loaded;
        honest =
            append-honest before (set_actual bytes r ∷ rest) a
              (set_actual-IsHonest bytes r ok (b.0), b.1);
        one_crossing = grind (
          arith,
          h.one_crossing,
          sum_at-append k before (r ∷ rest),
          sum_at-append k before (set_actual bytes r ∷ rest),
          sum_at-report k bytes r,
          open_count-append k before (r ∷ rest),
          open_count-append k before (set_actual bytes r ∷ rest),
          counted-report k bytes r,
        );
      }

  pub released-IsBounded :
      (t : Tracker) (before : List Reservation) (r : Reservation) (rest : List Reservation)
      → IsBounded limit k (desk t (before ++ r ∷ rest))
      → IsBounded limit k (desk (commit r t).1.0 (before ++ rest))
  released-IsBounded t before r rest h =
      let (a, b) = honest-append before (r ∷ rest) (h.honest) in
      let open_r = (All-append before (r ∷ rest) (h.ledger.all_open)).1.0 in
      record {
        ledger = released-IsBalanced t before r rest (h.ledger);
        day_loaded = ap (λ f. f (k.account_id) (k.date)) (commit-loaded r t) ∙ h.day_loaded;
        honest = append-honest before rest a (b.1);
        one_crossing = ground (
          arith,
          h.one_crossing,
          b.0,
          sum_at-append k before (r ∷ rest),
          sum_at-append k before rest,
          open_count-append k before (r ∷ rest),
          open_count-append k before rest,
          commit-used r t k open_r,
        );
      }
