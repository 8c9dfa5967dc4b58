-- ===== src/Transfer/Schedule/Acquire/Carried.antt =====
-- What a request holds at each stage, and the books of one request beside the rest.
use tdrive.Base.{
  ℕ, suc, ◌+◌, ◌≡◌, refl, sym, ap, ◌∙◌, subst, Bool, true, false, Option, none, some, List, arith,
  if◌then◌else◌,
}
use tdrive.Transfer.Quota.{QuotaKey}
use tdrive.Transfer.Schedule.{Account, Transfer, has_available_account}
use tdrive.Transfer.Schedule.Acquire.{
  Service, same_side, Stage, cooling, spent, joining, choosing, chosen, leased, look_at,
  waits_or_joins,
}
use tdrive.Transfer.Schedule.Acquire.Totals.{slots, reserved_bytes, counts, SideIsSound, Accounts}
use tdrive.Transfer.Schedule.Acquire.Sides.{side_slot, own_slot}
use tdrive.Transfer.Schedule.Acquire.Sections.{other_slot}

pub same_totals :
    (s : Service) (woken : Bool → List ℕ) (n m : Bool → ℕ) (e f : QuotaKey → ℕ) (c d : Bool → ℕ → ℕ)
    → ((v : Bool) → m v ≡ n v)
    → ((k : QuotaKey) → f k ≡ e k)
    → ((v : Bool) (i : ℕ) → d v i ≡ c v i)
    → Accounts s woken n e c
    → Accounts s woken m f d
same_totals s woken n m e f c d p q r h = record {
  sides = λ v. subst (λ i. SideIsSound (s.limiters v) i (woken v)) (sym (p v)) (h.sides v);
  reserved = λ k. h.reserved k ∙ sym (q k);
  counted = λ v i. h.counted v i ∙ sym (r v i);
}

-- What a request without a lease holds: these slots, and neither bytes nor a count.
pub record Carries (u : Bool) (st : Stage) (held : Bool → ℕ) : Type 0 where
  pub holds : (v : Bool) → slots v u st ≡ held v
  pub no_bytes : (k : QuotaKey) → reserved_bytes k st ≡ 0
  pub no_count : (v : Bool) (i : ℕ) → counts v i st ≡ 0

abbrev pub nothing : Bool → ℕ
nothing v = 0

abbrev pub IsIdle : Stage → Type 0
IsIdle st = (u : Bool) → Carries u st nothing

abbrev pub IsHolding : Stage → Type 0
IsHolding st = (u : Bool) → Carries u st (side_slot u)

abbrev pub is_idle : Stage → Bool
is_idle choosing = false
is_idle (chosen a) = false
is_idle (leased l) = false
is_idle st = true

pub stage-IsIdle : (st : Stage) → is_idle st ≡ true → IsIdle st
stage-IsIdle st h u = record {
  holds = λ v. ground (arith, h);
  no_bytes = λ k. ground (arith, h);
  no_count = λ v i. ground (arith, h);
}

pub look_at-IsIdle : (ready : Bool) (xs : List (Option Account)) → IsIdle (look_at ready xs)
look_at-IsIdle ready xs = stage-IsIdle _ (ground arith)

spent_or_cooling-IsIdle : (b : Bool) (seen : ℕ) → IsIdle (if b then spent seen else cooling seen)
spent_or_cooling-IsIdle b seen = stage-IsIdle _ (ground arith)

pub waits_or_joins-IsIdle :
    (xs : List (Option Account)) (seen : ℕ) (o : Option Account) → IsIdle (waits_or_joins xs seen o)
waits_or_joins-IsIdle xs seen (some a) = stage-IsIdle joining refl
waits_or_joins-IsIdle xs seen none = spent_or_cooling-IsIdle (has_available_account xs) seen

module _ (x : Transfer) (n : Bool → ℕ) (e : QuotaKey → ℕ) (c : Bool → ℕ → ℕ) where
  -- The books of one request beside the rest.
  abbrev pub Beside : Service → (Bool → List ℕ) → Stage → Type 0
  Beside s woken st =
      Accounts s woken (λ v. slots v (x.is_upload) st + n v) (λ k. reserved_bytes k st + e k)
        (λ v i. counts v i st + c v i)

  abbrev pub Total : Service → (Bool → List ℕ) → (Bool → ℕ) → Type 0
  Total s woken held = Accounts s woken (λ v. held v + n v) e c

  abbrev pub mine : Bool → ℕ
  mine = side_slot (x.is_upload)

  module _ (s : Service) (woken : Bool → List ℕ) (st : Stage) (held : Bool → ℕ) where
    -- Into a stage, and out of it.
    into : Carries (x.is_upload) st held → Total s woken held → Beside s woken st
    into i h =
        same_totals s woken (λ v. held v + n v) (λ v. slots v (x.is_upload) st + n v) e
          (λ k. reserved_bytes k st + e k) c (λ v j. counts v j st + c v j)
          (λ v. ap (λ j. j + n v) (i.holds v)) (λ k. omega (arith, i.no_bytes k))
          (λ v j. omega (arith, i.no_count v j)) h

    out_of : Carries (x.is_upload) st held → Beside s woken st → Total s woken held
    out_of i h =
        same_totals s woken (λ v. slots v (x.is_upload) st + n v) (λ v. held v + n v)
          (λ k. reserved_bytes k st + e k) e (λ v j. counts v j st + c v j) c
          (λ v. ap (λ j. j + n v) (sym (i.holds v))) (λ k. omega (arith, i.no_bytes k))
          (λ v j. omega (arith, i.no_count v j)) h

  pub own_more :
      mine (x.is_upload) + n (x.is_upload) ≡ suc (nothing (x.is_upload) + n (x.is_upload))
  own_more = omega (arith, own_slot (x.is_upload))

  pub same_other : (v : Bool) → same_side (x.is_upload) v ≡ false → nothing v + n v ≡ mine v + n v
  same_other v f = omega (arith, other_slot (x.is_upload) v f)

  module _ (s : Service) (woken : Bool → List ℕ) (st : Stage) where
    pub idle : IsIdle st → Total s woken nothing → Beside s woken st
    idle i h = into s woken st nothing (i (x.is_upload)) h

    pub holding : IsHolding st → Total s woken mine → Beside s woken st
    holding i h = into s woken st mine (i (x.is_upload)) h

    pub from_idle : IsIdle st → Beside s woken st → Total s woken nothing
    from_idle i h = out_of s woken st nothing (i (x.is_upload)) h

    pub from_holding : IsHolding st → Beside s woken st → Total s woken mine
    from_holding i h = out_of s woken st mine (i (x.is_upload)) h
