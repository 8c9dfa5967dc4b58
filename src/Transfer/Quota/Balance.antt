-- ===== src/Transfer/Quota/Balance.antt =====
-- Reservations granted, reported on and released in any order keep the ledger balanced.
use tdrive.Base.{ℕ, ◌≡◌, sym, ap, ◌∙◌, inl, inr, Option, none, some}
use tdrive.Base.Int.{ℤ, pos_part}
use tdrive.Transfer.Quota.{
  QuotaKey, Tracker, Stored, Reservation, new_reservation, claim, ensure_loaded, reserve,
}
use tdrive.Transfer.Quota.Ledger.{
  Granted, reserve-cases, Desk, Step, granted, refused, reported, released, Steps, stop, next,
  IsBalanced, claim-IsBalanced, loaded-IsBalanced, reported-IsBalanced, released-IsBalanced,
}

none-some : {A : Type 0} {a : A} → ◌≡◌ {A = Option A} none (some a) → ⊥
none-some h = cc

some_injective : {A : Type 0} {a b : A} → ◌≡◌ {A = Option A} (some a) (some b) → a ≡ b
some_injective h = cc

module _ (stored : Stored) (key : QuotaKey) (limit : ℕ) (size : ℤ) (t t_after : Tracker) where
  pub after_grant :
      (r : Reservation)
      → reserve stored key limit size t ≡ (t_after, some r)
      → let l = ensure_loaded stored (key.account_id) (key.date) t in
        let n = pos_part size in
        (t_after ≡ claim key n l)
        × (r ≡ new_reservation key n)
        × Granted limit n (l.used key) (l.reserved key)
  after_grant r e = elim (reserve-cases stored key limit size t) [
    | inl x ↦ absurd (none-some (ap (λ p. p.1) (sym x ∙ e)))
    | inr (x, g) ↦ (ap (λ p. p.0) (sym e ∙ x), some_injective (ap (λ p. p.1) (sym e ∙ x)), g)
  ]

  pub after_refusal :
      reserve stored key limit size t ≡ (t_after, none)
      → t_after ≡ ensure_loaded stored (key.account_id) (key.date) t
  after_refusal e = elim (reserve-cases stored key limit size t) [
    | inl x ↦ ap (λ p. p.0) (sym e ∙ x)
    | inr (x, g) ↦ absurd (none-some (ap (λ p. p.1) (sym e ∙ x)))
  ]

module _ (stored : Stored) (limit_of : QuotaKey → ℕ) (reports : ℤ → Reservation → Type 0) where
  pub step-IsBalanced :
      (d e : Desk) → IsBalanced d → Step stored limit_of reports d e → IsBalanced e
  step-IsBalanced d e h (granted key size t t_after r rs eq) =
      let (a, b, g) = after_grant stored key (limit_of key) size t t_after r eq in
      let l = ensure_loaded stored (key.account_id) (key.date) t in
      rw (a, b)
        (claim-IsBalanced key (pos_part size) l rs
          (loaded-IsBalanced stored (key.account_id) (key.date) t rs h))
  step-IsBalanced d e h (refused key size t t_after rs eq) =
      rw (after_refusal stored key (limit_of key) size t t_after eq)
        (loaded-IsBalanced stored (key.account_id) (key.date) t rs h)
  step-IsBalanced d e h (reported bytes t before r rest ok) =
      reported-IsBalanced bytes t before r rest h
  step-IsBalanced d e h (released t before r rest) = released-IsBalanced t before r rest h

  -- Whatever sequence of reserve, of setActual and of commit of a reservation still open runs, for any
  -- sizes and any reports: when the reserved bytes of every key were the sum of what is expected of the
  -- open reservations under it, they still are, and no open reservation counts as committed.
  pub steps-IsBalanced :
      (d e : Desk) → IsBalanced d → Steps stored limit_of reports d e → IsBalanced e
  steps-IsBalanced d e h (stop _) = h
  steps-IsBalanced d e h (next _ m _ s rest) = steps-IsBalanced m e (step-IsBalanced d m h s) rest
