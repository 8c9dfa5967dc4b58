-- ===== src/Transfer/Schedule/Preference.antt =====
-- Which account is chosen, once the day of every account is loaded.
use tdrive.Base.{
  ◌≡◌, refl, sym, ap, ◌∙◌, subst, ◌⊎◌, inl, inr, Bool, true, false, ◌&&◌, Option, none, some, List,
  [], ◌∷◌, ◌++◌, if◌then◌else◌, Bool-cases, All,
}
use tdrive.Transfer.Quota.{Tracker, Stored}
use tdrive.Transfer.Quota.Admission.{may_start-loaded, fits-loaded}
use tdrive.Transfer.Schedule.{
  Account, Transfer, key_for, limit_for, quota_may_start, and_fits, start_and_fit, taken_or, scan,
  or_else, first_account_for_transfer,
}

-- The account is there, available, and passes a test.
abbrev pub eligible : (Account → Bool) → Option Account → Bool
eligible q none = false
eligible q (some a) = a.available && q a

abbrev pub first_eligible : (Account → Bool) → List (Option Account) → Option Account
first_eligible q [] = none
first_eligible q (none ∷ xs) = first_eligible q xs
first_eligible q (some a ∷ xs) = if a.available && q a then some a else first_eligible q xs

abbrev pub NoneEligible : (Account → Bool) → List (Option Account) → Type 0
NoneEligible q = All (λ o. eligible q o ≡ false)

-- The account stands in the list, is eligible, and none before it is.
pub record IsFirst (q : Account → Bool) (xs : List (Option Account)) (a : Account) : Type 0 where
  pub before : List (Option Account)
  pub behind : List (Option Account)
  pub place : xs ≡ before ++ some a ∷ behind
  pub chosen : (a.available && q a) ≡ true
  pub none_before : NoneEligible q before

further :
    (q : Account → Bool) (o : Option Account) (xs : List (Option Account)) (a : Account)
    → eligible q o ≡ false
    → IsFirst q xs a
    → IsFirst q (o ∷ xs) a
further q o xs a e f = record {
  before = o ∷ f.before;
  behind = f.behind;
  place = ap (λ ys. o ∷ ys) (f.place);
  chosen = f.chosen;
  none_before = (e, f.none_before);
}

first_eligible-cases :
    (q : Account → Bool) (xs : List (Option Account))
    → ((first_eligible q xs ≡ none) × NoneEligible q xs)
      ⊎ ((a : Account) × (first_eligible q xs ≡ some a) × IsFirst q xs a)
first_eligible-cases q [] = inl (refl, tt)
first_eligible-cases q (none ∷ xs) = elim (first_eligible-cases q xs) [
  | inl (e, n) ↦ inl (e, (refl, n))
  | inr (a, e, f) ↦ inr (a, e, further q none xs a refl f)
]
first_eligible-cases q (some b ∷ xs) = elim (Bool-cases (b.available && q b)) [
  | inl h ↦ inr (
    b,
    rw h refl,
    record { before = []; behind = xs; place = refl; chosen = h; none_before = tt },
  )
  | inr h ↦ elim (first_eligible-cases q xs) [
    | inl (e, n) ↦ inl (rw h e, (h, n))
    | inr (a, e, f) ↦ inr (a, rw h e, further q (some b) xs a h f)
  ]
]

take_first :
    (b c : Bool) (a : Account) (t : Tracker) (search : Tracker → Tracker × Option Account)
    (o : Option Account)
    → search t ≡ (t, o)
    → (if b then taken_or a (t, c) search else search t) ≡ (t, if b && c then some a else o)
take_first true true a t search o h = refl
take_first true false a t search o h = h
take_first false c a t search o h = h

-- A test that does not change the tracker makes the loop a search.
scan-first_eligible :
    (test : Account → Tracker → Tracker × Bool) (q : Account → Bool) (t : Tracker)
    (xs : List (Option Account))
    → All (λ o. (a : Account) → o ≡ some a → test a t ≡ (t, q a)) xs
    → scan test xs t ≡ (t, first_eligible q xs)
unfolding scan
scan-first_eligible test q t [] h = refl
scan-first_eligible test q t (none ∷ xs) h = scan-first_eligible test q t xs (h.1)
scan-first_eligible test q t (some a ∷ xs) h = rw (h.0 a refl) (
    take_first (a.available) (q a) a t (scan test xs) (first_eligible q xs)
      (scan-first_eligible test q t xs (h.1)))

abbrev pick : Option Account → Option Account → Option Account
pick none o = o
pick (some a) o = some a

module _ (t : Tracker) where
  or_else-pick :
      (o later : Option Account) (search : Tracker → Tracker × Option Account)
      → search t ≡ (t, later)
      → or_else (t, o) search ≡ (t, pick o later)
  or_else-pick none later search h = h
  or_else-pick (some a) later search h = refl

module _ (stored : Stored) (x : Transfer) (t : Tracker) where
  abbrev pub starts : Account → Bool
  starts a = (quota_may_start stored x a t).1

  abbrev pub starts_and_fits : Account → Bool
  starts_and_fits a = (start_and_fit stored x a t).1

  abbrev pub IsLoaded : Option Account → Type 0
  IsLoaded none = Unit
  IsLoaded (some a) = t.loaded (a.id) (x.day) ≡ true

  pair : (r : Tracker × Bool) → r.0 ≡ t → r ≡ (t, r.1)
  pair r e = ap (λ v. (v, r.1)) e

  start_tracker :
      (a : Account) → t.loaded (a.id) (x.day) ≡ true → quota_may_start stored x a t ≡ (t, starts a)
  start_tracker a e = pair _ (may_start-loaded stored (key_for x a) (limit_for x a) (x.size) t e)

  fit_tracker :
      (a : Account)
      → t.loaded (a.id) (x.day) ≡ true
      → start_and_fit stored x a t ≡ (t, starts_and_fits a)
  fit_tracker a e = pair _ (after_test (quota_may_start stored x a t) (start_tracker a e))
    where
      after_test : (r : Tracker × Bool) → r ≡ (t, starts a) → (and_fits stored x a r).0 ≡ t
      after_test r h = subst (λ v. (and_fits stored x a v).0 ≡ t) (sym h) (on_answer (starts a))
        where
          on_answer : (b : Bool) → (and_fits stored x a (t, b)).0 ≡ t
          on_answer true = fits-loaded stored (key_for x a) (limit_for x a) (x.size) t e
          on_answer false = refl

  each_start :
      (xs : List (Option Account))
      → All IsLoaded xs
      → All (λ o. (a : Account) → o ≡ some a → quota_may_start stored x a t ≡ (t, starts a)) xs
  each_start [] h = tt
  each_start (o ∷ xs) h = ((λ a e. start_tracker a (subst IsLoaded e (h.0))), each_start xs (h.1))

  each_fit :
      (xs : List (Option Account))
      → All IsLoaded xs
      → All
          (λ o. (a : Account) → o ≡ some a → start_and_fit stored x a t ≡ (t, starts_and_fits a))
          xs
  each_fit [] h = tt
  each_fit (o ∷ xs) h = ((λ a e. fit_tracker a (subst IsLoaded e (h.0))), each_fit xs (h.1))

  -- The account that is chosen, if any.
  abbrev pub Chosen : List (Option Account) → Option Account → Type 0
  Chosen xs o =
      ((o ≡ none) × NoneEligible starts xs)
      ⊎ ((a : Account) × (o ≡ some a)
          × (IsFirst starts_and_fits xs a
              ⊎ (NoneEligible starts_and_fits xs × IsFirst starts xs a)))

  searched-Chosen :
      (xs : List (Option Account))
      → Chosen xs (pick (first_eligible starts_and_fits xs) (first_eligible starts xs))
  searched-Chosen xs = elim (first_eligible-cases starts_and_fits xs) [
    | inr (a, e, f) ↦ rw e (inr (a, refl, inl f))
    | inl (e, n) ↦ rw e (elim (first_eligible-cases starts xs) [
      | inl (g, m) ↦ rw g (inl (refl, m))
      | inr (a, g, f) ↦ rw g (inr (a, refl, inr (n, f)))
    ])
  ]

-- When the day of every account is loaded, the choice leaves the quotas alone and is this: the first
-- available account whose quota the whole content fits, if there is one; otherwise the first available
-- account that may start it at all; and nobody only when no available account may start it.
pub first_account_for_transfer-Chosen :
    (stored : Stored) (x : Transfer) (t : Tracker) (xs : List (Option Account))
    → All (IsLoaded stored x t) xs
    → ((first_account_for_transfer stored x xs t).0 ≡ t)
      × Chosen stored x t xs (first_account_for_transfer stored x xs t).1
unfolding first_account_for_transfer
first_account_for_transfer-Chosen stored x t xs h =
    let fit = starts_and_fits stored x t in
    let start = starts stored x t in
    let first = scan-first_eligible (start_and_fit stored x) fit t xs (each_fit stored x t xs h) in
    let second =
      scan-first_eligible (quota_may_start stored x) start t xs (each_start stored x t xs h) in
    let both =
      ap (λ r. or_else r (scan (quota_may_start stored x) xs)) first
      ∙ or_else-pick t (first_eligible fit xs) (first_eligible start xs)
          (scan (quota_may_start stored x) xs) second in
    (
      ap (λ r. r.0) both,
      subst (Chosen stored x t xs) (ap (λ r. r.1) (sym both)) (searched-Chosen stored x t xs),
    )
